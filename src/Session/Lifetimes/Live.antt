-- ===== src/Session/Lifetimes/Live.antt =====
-- What open files keep of fs/trfs: their private data, and one block each.
use trfs_stackable_filesyste.Common.{
  ℕ, suc, ◌+◌, ◌-◌, ◌≡◌, ◌≢◌, refl, ap, ◌∙◌, arith, true, Bool-cases, inl, inr, Option, List, [],
  ◌∷◌, length, ℤ, is_error, if◌then◌else◌,
}
use trfs_stackable_filesyste.Kernel.{Dentry, File, FileInfo, ptr, err_ptr, Kernel, State, ok}
use trfs_stackable_filesyste.Tracing.{Finds, Tracing}
use trfs_stackable_filesyste.Session.{
  Request, open_file, read, write, release, create, link, unlink, symlink, mkdir, rmdir, mknod,
  rename, serve,
}
use trfs_stackable_filesyste.Session.Balance.{
  live_after, lower_files_after, serve-IsBalanced, lower_of_info,
}
use trfs_stackable_filesyste.Session.Infos.{
  is_plain, Opens, serve-file_info, trfs_open-file_info, lower_of_info-trfs_open,
  trfs_file_release-file_info,
}
use trfs_stackable_filesyste.Session.Dentries.{
  Lacks, Without, here, there, Lacks-Without, ne-Without, length-Without,
}
use trfs_stackable_filesyste.Lookup.Balance.{trfs_lookup-IsLookedUp}
use trfs_stackable_filesyste.Session.Held.{
  live-trfs_d_release, lower_files-trfs_d_release, file_info-trfs_d_release,
}
use trfs_stackable_filesyste.Session.Others.{Reply, number, text, found_inode, nothing_else}
use trfs_stackable_filesyste.Session.Others.Passed.{live_with, serve_other-IsPassed}
use trfs_stackable_filesyste.Session.Others.Infos.{lower_of_info-serve_other}
use trfs_stackable_filesyste.Session.Lifetimes.{
  Lifetimes, begin, opened, closed, traced, untraced, text_freed, looked_up, released, world_moves,
}

-- All of them are different and have private data with a lower file.
abbrev pub AreOpen : {W : Type 0} → State W → List File → Type 0
AreOpen s [] = Unit
AreOpen s (f ∷ fs) = (lower_of_info (s.file_info f) ≢ 0) × Lacks f fs × AreOpen s fs

-- The private data of the listed files have the lower files that they had.
abbrev SameLower : {W : Type 0} → State W → State W → List File → Type 0
SameLower s s' [] = Unit
SameLower s s' (f ∷ fs) =
    (lower_of_info (s'.file_info f) ≡ lower_of_info (s.file_info f)) × SameLower s s' fs

module _ {W : Type 0} where
  everywhere-SameLower :
      (s s' : State W) (fs : List File)
      → ((f : File) → lower_of_info (s'.file_info f) ≡ lower_of_info (s.file_info f))
      → SameLower s s' fs
  everywhere-SameLower s s' [] h = tt
  everywhere-SameLower s s' (f ∷ fs) h = (h f, everywhere-SameLower s s' fs h)

  elsewhere-SameLower :
      (s s' : State W) (f : File) (fs : List File)
      → Lacks f fs
      → ((g : File) → f ≢ g → s'.file_info g ≡ s.file_info g)
      → SameLower s s' fs
  elsewhere-SameLower s s' f [] l h = tt
  elsewhere-SameLower s s' f (g ∷ fs) (n, l) h =
      (ap lower_of_info (h g n), elsewhere-SameLower s s' f fs l h)

  AreOpen-SameLower :
      (s s' : State W) (fs : List File) → SameLower s s' fs → AreOpen s fs → AreOpen s' fs
  AreOpen-SameLower s s' [] h a = tt
  AreOpen-SameLower s s' (f ∷ fs) (e, h) (n, l, a) = (rw e n, l, AreOpen-SameLower s s' fs h a)

  AreOpen-Without :
      (f : File) (s : State W) (fs gs : List File)
      → Without f fs gs
      → AreOpen s fs
      → Lacks f gs × AreOpen s gs
  AreOpen-Without f s _ gs here (n, l, a) = (l, a)
  AreOpen-Without f s _ _ (there g w) (n, l, a) =
      let (l', a') = AreOpen-Without f s _ _ w a in
      ((ne-Without g f _ _ w l, l'), (n, Lacks-Without g f _ _ w l, a'))

-- A file of the list has a lower file.
AreOpen-has :
    {W : Type 0} (f : File) (s : State W) (fs gs : List File)
    → Without f fs gs
    → AreOpen s fs
    → lower_of_info (s.file_info f) ≢ 0
AreOpen-has f s _ gs here (n, l, a) = n
AreOpen-has f s _ _ (there g w) (n, l, a) = AreOpen-has f s _ _ w a

live_after_plain : (r : Request) (e : ℤ) (n : ℕ) → is_plain r ≡ true → live_after r e n ≡ n
live_after_plain (open_file node f) e n p = cc
live_after_plain (release f) e n p = cc
live_after_plain (read f m) e n p = refl
live_after_plain (write f buf) e n p = refl
live_after_plain (create dir d mode excl) e n p = refl
live_after_plain (link old dir new) e n p = refl
live_after_plain (unlink dir d) e n p = refl
live_after_plain (symlink dir d name) e n p = refl
live_after_plain (mkdir dir d mode) e n p = refl
live_after_plain (rmdir dir d) e n p = refl
live_after_plain (mknod dir d mode dev) e n p = refl
live_after_plain (rename old_dir old new_dir new) e n p = refl

lower_files_after_plain :
    {W : Type 0} (s : State W) (r : Request) (e : ℤ)
    → is_plain r ≡ true
    → lower_files_after s r e ≡ s.lower_files
lower_files_after_plain s (open_file node f) e p = cc
lower_files_after_plain s (release f) e p = cc
lower_files_after_plain s (read f m) e p = refl
lower_files_after_plain s (write f buf) e p = refl
lower_files_after_plain s (create dir d mode excl) e p = refl
lower_files_after_plain s (link old dir new) e p = refl
lower_files_after_plain s (unlink dir d) e p = refl
lower_files_after_plain s (symlink dir d name) e p = refl
lower_files_after_plain s (mkdir dir d mode) e p = refl
lower_files_after_plain s (rmdir dir d) e p = refl
lower_files_after_plain s (mknod dir d mode dev) e p = refl
lower_files_after_plain s (rename old_dir old new_dir new) e p = refl

live_with-add : (e : Reply) (a n : ℕ) → live_with e (a + n) ≡ a + live_with e n
live_with-add (text (ptr p)) a n = omega arith
live_with-add (text (err_ptr x)) a n = refl
live_with-add (number x) a n = refl
live_with-add (found_inode x) a n = refl
live_with-add nothing_else a n = refl

module _ {W : Type 0} (k : Kernel W) (T : Tracing k) (F : Finds k) (O : Opens k) where
  -- A step that leaves all private data alone.
  abbrev Counted : State W → List File → ℕ → State W → Type 0
  Counted s fs n v =
      AreOpen v fs × (v.live ≡ s.live + length fs + n) × (v.lower_files ≡ s.lower_files + length fs)

  Counted-file_info :
      (s u v : State W) (fs : List File) (n m : ℕ)
      → v.file_info ≡ u.file_info
      → v.lower_files ≡ u.lower_files
      → Counted s fs n u
      → v.live ≡ s.live + length fs + m
      → Counted s fs m v
  Counted-file_info s u v fs n m same kept (a, c, o) l = (
    AreOpen-SameLower u v fs
        (everywhere-SameLower u v fs
          (λ f. ap (λ (x : File → Option FileInfo). lower_of_info (x f)) same))
        a,
    l,
    kept ∙ o,
  )

  Counted-opened :
      (s u v : State W) (fs : List File) (n node : ℕ) (f : File) (e : ℤ)
      → Lacks f fs
      → serve k (open_file node f) u ≡ ok (e, v)
      → Counted s fs n u
      → Counted s (if is_error e then fs else f ∷ fs) n v
  Counted-opened s u v fs n node f e l h (a, c, o) =
      let q = serve-IsBalanced k u v e (open_file node f) h in
      let b = q.live in
      let kept =
        AreOpen-SameLower u v fs
          (elsewhere-SameLower u v f fs l (λ g d. trfs_open-file_info k u v e node f g d h)) a in
      elim (Bool-cases (is_error e)) [
        | inl bad ↦ rw bad (kept, ground (arith, b, c, bad), ground (arith, q.lower_files, o, bad))
        | inr good ↦ rw good (
          (lower_of_info-trfs_open k u v e node f O good h, l, kept),
          ground (arith, b, c, good),
          ground (arith, q.lower_files, o, good),
        )
      ]

  Counted-closed :
      (s u v : State W) (fs gs : List File) (n : ℕ) (f : File) (e : ℤ)
      → Without f fs gs
      → serve k (release f) u ≡ ok (e, v)
      → Counted s fs n u
      → Counted s gs n v
  Counted-closed s u v fs gs n f e w h (a, c, o) =
      let (l, a') = AreOpen-Without f u fs gs w a in
      let q = serve-IsBalanced k u v e (release f) h in
      let b = q.live in
      (
        AreOpen-SameLower u v gs
            (elsewhere-SameLower u v f gs l (λ g d. trfs_file_release-file_info k u v e f g d h))
            a',
        omega (arith, b, c, length-Without f fs gs w),
        ground (arith, q.lower_files, o, length-Without f fs gs w, AreOpen-has f u fs gs w a),
      )

  -- Where no file was open, each file that was opened and not released has private data with a lower
  -- file, and the blocks from `kmalloc` in use are those of the start, one for each of these files, and
  -- the link texts that wait for their free; beyond the start each of these files has one reference to a
  -- lower file.
  pub Lifetimes-live :
      (s v : State W) (ds : List Dentry) (fs : List File) (n : ℕ)
      → Lifetimes k s ds fs n v
      → AreOpen v fs
        × (v.live ≡ s.live + length fs + n)
        × (v.lower_files ≡ s.lower_files + length fs)
  Lifetimes-live s v _ _ _ begin = (tt, omega arith, omega arith)
  Lifetimes-live s v _ _ _ (opened ds fs n u v' node f e p l h) =
      Counted-opened s u v fs n node f e l h (Lifetimes-live s u ds fs n p)
  Lifetimes-live s v _ _ _ (closed ds fs gs n u v' f e p w h) =
      Counted-closed s u v fs gs n f e w h (Lifetimes-live s u ds fs n p)
  Lifetimes-live s v _ _ _ (traced ds fs n u v' r e p plain h) =
      let q = Lifetimes-live s u ds fs n p in
      Counted-file_info s u v fs n n (serve-file_info k u v e r plain h)
        ((serve-IsBalanced k u v e r h).lower_files ∙ lower_files_after_plain u r e plain) q
        ((serve-IsBalanced k u v e r h).live ∙ live_after_plain r e u.live plain ∙ q.1)
  Lifetimes-live s v _ _ _ (untraced ds fs n u v' r e p h) =
      let (a, c, o) = Lifetimes-live s u ds fs n p in
      (
        AreOpen-SameLower u v fs
            (everywhere-SameLower u v fs (λ f. lower_of_info-serve_other k u v e r f h)) a,
        (serve_other-IsPassed k T u v e r h).live
            ∙ ap (live_with e) c
            ∙ live_with-add e (s.live + length fs) n,
        (serve_other-IsPassed k T u v e r h).lower_files ∙ o,
      )
  Lifetimes-live s _ _ _ _ (text_freed ds fs n u p) =
      let q = Lifetimes-live s u ds fs (suc n) p in
      Counted-file_info s u (record u { live = u.live - 1 }) fs (suc n) n refl refl q
        (omega (arith, q.1))
  Lifetimes-live s v _ _ _ (looked_up ds fs n u v' d r p m f h) =
      let q = Lifetimes-live s u ds fs n p in
      let l = trfs_lookup-IsLookedUp k F d u v r f h in
      Counted-file_info s u v fs n n l.file_info l.lower_files q (l.live ∙ q.1)
  Lifetimes-live s v _ _ _ (released ds es fs n u v' d p w h) =
      let q = Lifetimes-live s u ds fs n p in
      Counted-file_info s u v fs n n (file_info-trfs_d_release d u v h)
        (lower_files-trfs_d_release d u v h) q (live-trfs_d_release d u v h ∙ q.1)
  Lifetimes-live s _ _ _ _ (world_moves ds fs n u w p) =
      let q = Lifetimes-live s u ds fs n p in
      Counted-file_info s u (record u { world = w }) fs n n refl refl q (q.1)
