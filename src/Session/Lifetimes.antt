-- ===== src/Session/Lifetimes.antt =====
-- Open files from trfs_open to trfs_file_release of fs/trfs/file.c, among any other requests.
pub mod Live
pub mod Closed
use trfs_stackable_filesyste.Common.{
  ℕ, zero, suc, ◌+◌, ◌-◌, ◌≡◌, ◌≢◌, refl, sym, ap, ◌∙◌, arith, Bool, true, false, Bool-cases, inl,
  inr, Option, none, some, List, [], ◌∷◌, length, ℤ, is_error, if◌then◌else◌,
}
use trfs_stackable_filesyste.Kernel.{
  Dentry, File, FileInfo, ErrPtr, ptr, err_ptr, Kernel, State, ok,
}
use trfs_stackable_filesyste.Tracing.{Finds, Tracing}
use trfs_stackable_filesyste.Session.{
  Request, open_file, read, write, release, create, link, unlink, symlink, mkdir, rmdir, mknod,
  rename, serve,
}
use trfs_stackable_filesyste.Session.Balance.{live_after, serve-IsBalanced, lower_of_info}
use trfs_stackable_filesyste.Session.Infos.{
  is_plain, Opens, serve-file_info, trfs_open-file_info, lower_of_info-trfs_open,
  trfs_file_release-file_info,
}
use trfs_stackable_filesyste.Session.Dentries.{
  Lacks, Without, here, there, Lacks-Without, ne-Without, length-Without,
}
use trfs_stackable_filesyste.Lookup.Names.{trfs_lookup}
use trfs_stackable_filesyste.Lookup.Dentries.{trfs_d_release}
use trfs_stackable_filesyste.Lookup.Balance.{trfs_lookup-IsLookedUp}
use trfs_stackable_filesyste.Session.Held.{live-trfs_d_release, file_info-trfs_d_release}
use trfs_stackable_filesyste.Session.Unmounted.{Requests, trfs_shutdown_super-Requests}
use trfs_stackable_filesyste.Session.Others.{
  Other, Reply, number, text, found_inode, nothing_else, serve_other,
}
use trfs_stackable_filesyste.Session.Others.Passed.{live_with, serve_other-IsPassed}
use trfs_stackable_filesyste.Session.Others.Infos.{lower_of_info-serve_other}

module _ {W : Type 0} (k : Kernel W) where
  -- Requests as the VFS makes them: a file is opened once, and released once if the open succeeded. `fs`
  -- are the open files, `ds` the dentries that were looked up and are still there, and `n` is the number of
  -- link texts that wait for their delayed free.
  pub data Lifetimes (s : State W) : List Dentry → List File → ℕ → State W → Type 0 where
    begin : Lifetimes s [] [] 0 s
    opened :
        (ds : List Dentry) (fs : List File) (n : ℕ) (u v : State W) (node : ℕ) (f : File) (e : ℤ)
        → Lifetimes s ds fs n u
        → Lacks f fs
        → serve k (open_file node f) u ≡ ok (e, v)
        → Lifetimes s ds (if is_error e then fs else f ∷ fs) n v
    closed :
        (ds : List Dentry) (fs gs : List File) (n : ℕ) (u v : State W) (f : File) (e : ℤ)
        → Lifetimes s ds fs n u
        → Without f fs gs
        → serve k (release f) u ≡ ok (e, v)
        → Lifetimes s ds gs n v
    traced :
        (ds : List Dentry) (fs : List File) (n : ℕ) (u v : State W) (r : Request) (e : ℤ)
        → Lifetimes s ds fs n u
        → is_plain r ≡ true
        → serve k r u ≡ ok (e, v)
        → Lifetimes s ds fs n v
    untraced :
        (ds : List Dentry) (fs : List File) (n : ℕ) (u v : State W) (r : Other) (e : Reply)
        → Lifetimes s ds fs n u
        → serve_other k r u ≡ ok (e, v)
        → Lifetimes s ds fs (live_with e n) v
    text_freed :
        (ds : List Dentry) (fs : List File) (n : ℕ) (u : State W)
        → Lifetimes s ds fs (suc n) u
        → Lifetimes s ds fs n (record u { live = u.live - 1 })
    looked_up :
        (ds : List Dentry) (fs : List File) (n : ℕ) (u v : State W) (d : Dentry) (r : ErrPtr)
        → Lifetimes s ds fs n u
        → d ≢ 0
        → u.d_fsdata d ≡ false
        → trfs_lookup k d u ≡ ok (r, v)
        → Lifetimes s (if v.d_fsdata d then d ∷ ds else ds) fs n v
    released :
        (ds es : List Dentry) (fs : List File) (n : ℕ) (u v : State W) (d : Dentry)
        → Lifetimes s ds fs n u
        → Without d ds es
        → trfs_d_release d u ≡ ok (tt, v)
        → Lifetimes s es fs n v
    world_moves :
        (ds : List Dentry) (fs : List File) (n : ℕ) (u : State W) (w : W)
        → Lifetimes s ds fs n u
        → Lifetimes s ds fs n (record u { world = w })

  -- They are requests, made in an order that the VFS keeps.
  pub Requests-Lifetimes :
      (s v : State W) (ds : List Dentry) (fs : List File) (n : ℕ)
      → Lifetimes s ds fs n v
      → Requests k s ds v
  Requests-Lifetimes s v _ _ _ begin = Requests.begin
  Requests-Lifetimes s v _ _ _ (opened ds fs n u v' node f e p l h) =
      Requests.traced (open_file node f) e (Requests-Lifetimes s u ds fs n p) h
  Requests-Lifetimes s v _ _ _ (closed ds fs gs n u v' f e p w h) =
      Requests.traced (release f) e (Requests-Lifetimes s u ds fs n p) h
  Requests-Lifetimes s v _ _ _ (traced ds fs n u v' r e p l h) =
      Requests.traced r e (Requests-Lifetimes s u ds fs n p) h
  Requests-Lifetimes s v _ _ _ (untraced ds fs n u v' r e p h) =
      Requests.untraced r e (Requests-Lifetimes s u ds fs n p) h
  Requests-Lifetimes s v _ _ _ (text_freed ds fs n u p) =
      Requests.text_freed (Requests-Lifetimes s u ds fs (suc n) p)
  Requests-Lifetimes s v _ _ _ (looked_up ds fs n u v' d r p m f h) =
      Requests.looked_up d r (Requests-Lifetimes s u ds fs n p) m f h
  Requests-Lifetimes s v _ _ _ (released ds es fs n u v' d p w h) =
      Requests.released d (Requests-Lifetimes s u ds fs n p) w h
  Requests-Lifetimes s v _ _ _ (world_moves ds fs n u w p) =
      Requests.world_moves w (Requests-Lifetimes s u ds fs n p)
