-- ===== src/Session/Log.antt =====
-- The trace file after any number of requests, and what the reader makes of it.
use trfs_stackable_filesyste.Common.{
  ◌⊎◌, true, false, is_error, ℕ, suc, ◌≤◌, ◌≡◌, List, [], ◌∷◌, ◌++◌, ℤ, pos, length,
}
use trfs_stackable_filesyste.Entry.{Entry, IsLog}
use trfs_stackable_filesyste.Kernel.{Dentry, Kernel, State, ok}
use trfs_stackable_filesyste.Tracing.{Tracing}
use trfs_stackable_filesyste.Trace.{is_traced}
use trfs_stackable_filesyste.Trace.Tfile.{logged_entry}
use trfs_stackable_filesyste.Session.Returned.{AsReturned}
use trfs_stackable_filesyste.Session.{Request, call_number, serve}
use trfs_stackable_filesyste.Session.Logged.{Logged}
use trfs_stackable_filesyste.Session.History.{Ready, subject, second_part}

-- The record ids count up from `n`.
abbrev pub Numbered : ℕ → List Entry → Type 0
Numbered n [] = Unit
Numbered n (e ∷ es) = (e.header.record_id ≡ pos n) × Numbered (suc n) es

-- A request that was served, the mask and the dentries' paths at that time, and the result.
pub record Served : Type 0 where
  pub request : Request
  pub mask : ℕ
  pub paths : Dentry → List ℕ
  pub result : ℤ

-- The entries are of the served requests, in their order, the earliest first, while the latest request
-- stands first in its list. A request has an entry only if its bit was set, and none only if its bit was
-- not set or it failed. The entry has the request's call, the paths of its dentries at that time, of
-- which for a link or a rename the second has overwritten the end of the first, its text or the bytes that
-- it wrote, and its result as logged.
pub data Follows {W : Type 0} (k : Kernel W) : List Entry → List Served → Type 0 where
  nothing_yet : Follows k [] []
  logged :
      {es : List Entry} {rs : List Served} (r : Served) (e : Entry) (id : ℤ) (flags perm : ℕ)
      (recorded : ℤ)
      → Follows k es rs
      → e
        ≡ logged_entry r.paths id
            (call_number r.request)
            flags
            perm
            recorded
            (subject k r.request)
            (second_part r.request)
      → AsReturned (call_number r.request) r.result recorded
      → is_traced r.mask (call_number r.request) ≡ true
      → Follows k (es ++ (e ∷ [])) (r ∷ rs)
  skipped :
      {es : List Entry} {rs : List Served} (r : Served)
      → Follows k es rs
      → (is_traced r.mask (call_number r.request) ≡ false) ⊎ (is_error r.result ≡ true)
      → Follows k es (r ∷ rs)

module _ {W : Type 0} (k : Kernel W) (T : Tracing k) where
  -- From `s` requests were served, those of the list, the latest first, each when it was
  -- ready. In between the rest of the
  -- kernel may change everything but the trace file, its path and the record id: files are opened, dentries move,
  -- the mask is set.
  pub data History (s : State W) : List Served → State W → Type 0 where
    start : History s [] s
    request :
        {ts : List Served} {u v : State W} (r : Request) (e : ℤ)
        → History s ts u
        → Ready k T u r
        → serve k r u ≡ ok (e, v)
        → History s
            (record { request = r; mask = u.sb.mask; paths = λ d. T.path d u.world; result = e }
              ∷ ts)
            v
    elsewhere :
        {ts : List Served} {u v : State W}
        → History s ts u
        → T.tfile v.world ≡ T.tfile u.world
        → v.sb.record_id ≡ u.sb.record_id
        → v.sb.tfile_path ≡ u.sb.tfile_path
        → History s ts v

  -- The trace file holds the log of the served requests, with the record ids from 0 on; the superblock
  -- has the next one, and the trace file's path.
  pub record Log (s : State W) (ts : List Served) : Type 0 where
    pub entries : List Entry
    pub bytes : IsLog (T.tfile s.world) entries
    pub numbered : Numbered 0 entries
    pub next : s.sb.record_id ≡ pos (length entries)
    pub few : length entries ≤ length ts
    pub order : Follows k entries ts
    pub tfile_path : s.sb.tfile_path ≡ T.trace_path
