-- ===== src/Session/Logged.antt =====
-- What one request adds to the trace file.
pub mod Files
pub mod Links
pub mod Directories
pub mod Nodes
pub mod Handles
pub mod Transfers
use trfs_stackable_filesyste.Common.{
  ℕ, ◌+◌, ◌-◌, ◌<◌, ◌≤◌, ◌^◌, ◌≡◌, ◌⊎◌, refl, sym, ◌∙◌, arith, Bool, true, false, List, ◌++◌, ℤ,
  pos, negsuc, IsInt32, inl, inr, is_error, length, if◌then◌else◌, Bool-cases, length-take,
  length-drop, length-append, take, drop, Option, none, some,
}
use trfs_stackable_filesyste.Record.{create_call, mkdir_call, TraceDs, IsTraceDs, sizeof_trace_ds}
use trfs_stackable_filesyste.Entry.{Entry, IsEntry, entry_bytes}
use trfs_stackable_filesyste.Kernel.{
  Dentry, LowerPath, Kernel, State, Outcome, ok, oops, M, Outcome-cases, world_of,
}
use trfs_stackable_filesyste.Tracing.{Tracing, Typed}
use trfs_stackable_filesyste.Session.Returned.{AsReturned, returned_on}
use trfs_stackable_filesyste.Session.Fits.{logged_entry-IsEntry}
use trfs_stackable_filesyste.Trace.{
  Second, nothing, path, text, content, trace_if_set, is_traced, next_id,
}
use trfs_stackable_filesyste.Trace.Buffer.{clobber}
use trfs_stackable_filesyste.Trace.Shape.{logged_state}
use trfs_stackable_filesyste.Trace.Tfile.{trace_ok, logged_entry, SecondFits}

-- From the bytes `a` and the record id `i` to `b` and `j`: nothing is added, which has the reason
-- `quiet`, or, if `mask` has the bit of the call `t`, an entry with the old id, which is counted on.
-- The entry is of the call `t` on the
-- dentry `d`, where `err` was returned, from the paths in the world `w`.
pub data Logged {W : Type 0} {k : Kernel W} (T : Tracing k) (mask : ℕ) (quiet : Type 0) (t : ℕ)
    (d : Dentry) (second : Second) (w : W) (err : ℤ) (a b : List ℕ) (i j : ℤ) : Type 0 where
  silent : quiet → b ≡ a → j ≡ i → Logged T mask quiet t d second w err a b i j
  appended :
      (flags perm : ℕ) (recorded : ℤ) (e : Entry) (block : List ℕ)
      → is_traced mask t ≡ true
      → e ≡ logged_entry (λ x. T.path x w) i t flags perm recorded d second
      → AsReturned t err recorded
      → IsEntry e
      → length block ≡ sizeof_trace_ds
      → b ≡ a ++ entry_bytes block e
      → j ≡ next_id i
      → Logged T mask quiet t d second w err a b i j

-- Why a request that returned `e` logged nothing: its bit is not set, or it failed.
abbrev pub Quiet : {W : Type 0} → State W → ℕ → ℤ → Type 0
Quiet s t e = (is_traced s.sb.mask t ≡ false) ⊎ (is_error e ≡ true)

pub fits_of_success : (e : ℤ) → is_error e ≡ false → IsInt32 e
fits_of_success (pos n) h = ground arith
fits_of_success (negsuc n) h = cc

module _ {W : Type 0} (k : Kernel W) (T : Tracing k) where
  -- The path of a dentry always fits the buffer of the handlers.
  abbrev pub PathFits : Dentry → Type 0
  PathFits d = (w : W) → length (T.path d w) ≤ 255

  abbrev pub PartFits : ℤ → Second → Type 0
  PartFits err nothing = Unit
  PartFits err (path e) = PathFits e
  PartFits err (text symname) = length symname < 2 ^ 15
  PartFits (pos n) (content buf) = n ≤ length buf
  PartFits (negsuc n) (content buf) = ⊥

  second_fits :
      (err : ℤ) (second : Second) (w : W)
      → PartFits err second
      → SecondFits (λ e. T.path e w) err second
  second_fits err nothing w f = tt
  second_fits err (path e) w f = f w
  second_fits err (text symname) w f = f
  second_fits (pos n) (content buf) w f = f
  second_fits (negsuc n) (content buf) w f = f

  -- The number of blocks and the world after the shared block.
  abbrev result_or : W → Outcome (ℕ × State W) → ℕ × W
  result_or w oops = (0, w)
  result_or w (ok (n, s')) = (n, s'.world)

  pub traced : ℕ → ℕ → ℕ → ℤ → Dentry → Second → State W → ℕ × W
  traced t flags perm err d second s =
      result_or s.world (trace_if_set k t flags perm err d second s)

  abbrev counted : ℕ → State W → ℤ
  counted t s = if is_traced s.sb.mask t then next_id s.sb.record_id else s.sb.record_id

  -- It returns, and moves the state as its result and world say.
  pub trace_if_set-traced :
      (t flags perm : ℕ) (err : ℤ) (d : Dentry) (second : Second) (s : State W)
      → s.sb.tfile_path ≡ T.trace_path
      → PathFits d
      → PartFits err second
      → trace_if_set k t flags perm err d second s
        ≡ ok (
          (traced t flags perm err d second s).0,
          record s {
            sb = record (s.sb) { record_id = counted t s };
            live = s.live + (traced t flags perm err d second s).0;
            world = (traced t flags perm err d second s).1;
          },
        )
  unfolding traced trace_if_set
  trace_if_set-traced t flags perm err d second s tp l f =
      let (w, block, e, lb, et) =
        trace_ok k T t flags perm err d second s tp (l s.world)
          (second_fits err second s.world f) in
      ground (arith, e)

  -- It logs an entry exactly if the bit is set.
  pub traced-Logged :
      (t flags perm : ℕ) (err : ℤ) (d : Dentry) (second : Second) (s : State W)
      → t < 2 ^ 8
      → flags < 2 ^ 32
      → perm < 2 ^ 16
      → IsInt32 err
      → IsInt32 s.sb.record_id
      → s.sb.tfile_path ≡ T.trace_path
      → PathFits d
      → PartFits err second
      → Logged T s.sb.mask
          (is_traced s.sb.mask t ≡ false)
          t
          d
          second
          s.world
          err
          (T.tfile s.world)
          (T.tfile (traced t flags perm err d second s).1)
          s.sb.record_id
          (counted t s)
  unfolding traced trace_if_set
  traced-Logged t flags perm err d second s ht hf hp he hi tp l f =
      let (w, block, e, lb, et) =
        trace_ok k T t flags perm err d second s tp (l s.world)
          (second_fits err second s.world f) in
      elim (Bool-cases (is_traced s.sb.mask t)) [
        | inl on ↦
            appended flags perm err _ block on refl (inl refl)
              (logged_entry-IsEntry (λ x. T.path x s.world) s.sb.record_id t flags perm err d second
                ht hf hp he hi (l s.world) (second_fits err second s.world f))
              lb (ground (arith, e, et)) (ground arith)
        | inr off ↦ silent off (ground arith) (ground arith)
      ]

-- The same over equal bytes and ids and the same paths, for a weaker reason.
pub Logged-moved :
    {W : Type 0} {k : Kernel W} (T : Tracing k) {m : ℕ} {q q' : Type 0} {t : ℕ} {d : Dentry}
    {second : Second} {w w' : W} {err err' : ℤ} {a b a' b' : List ℕ} {i j j' : ℤ}
    → Logged T m q t d second w err a b i j
    → (q → q')
    → a' ≡ a
    → ((c : Dentry) → T.path c w ≡ T.path c w')
    → b' ≡ b
    → j' ≡ j
    → AsReturned t err' err
    → Logged T m q' t d second w' err' a' b' i j'
Logged-moved T (silent r e f) g ea ep eb ej er = silent (g r) (ground arith) (ground arith)
Logged-moved T {t = t} {d = d} {second = second} {w = w} {err = err} {err' = err'} {i = i}
      (appended flags perm x e block o p c v l f h) g ea ep eb ej er =
    appended flags perm x e block o
      (p ∙ (λ z. logged_entry (λ y. ep y z) i t flags perm x d second))
      (returned_on t err' err x er c) v l (ground arith) (ground arith)
