-- ===== src/Kernel.antt =====
-- The state that the module itself keeps, of fs/trfs/trfs.h, and the steps on it. The kernel's interface
-- is passed on.
mod Interface
pub use Interface.*
use trfs_stackable_filesyste.Common.{
  ℕ, ◌≡◌, refl, ◌⊎◌, inl, inr, ◌+◌, ◌-◌, Bool, true, false, Option, none, some, List, ℤ, ◌==◌,
}

-- `struct trfs_sb_info`, with the path of the trace file that its `mount_path` holds.
pub record SbInfo : Type 0 where
  pub lower_sb : ℕ
  pub tfile_path : List ℕ
  pub record_id : ℤ
  pub mask : ℕ

-- `struct trfs_file_info`
pub record FileInfo : Type 0 where
  pub lower_file : File
  pub lower_vm_ops : ℕ

-- What the module keeps, and what it holds of the kernel's: blocks from `kmalloc`, references,
-- locked directories, open trace files, and whether `set_fs(KERNEL_DS)` is in force.
pub record State (W : Type 0) : Type 0 where
  pub sb : SbInfo
  pub lower_path : Dentry → LowerPath
  pub file_info : File → Option FileInfo
  pub live : ℕ
  pub refs : ℕ
  pub locks : ℕ
  pub files : ℕ
  -- The references to open lower files.
  pub lower_files : ℕ
  pub kernel_ds : Bool
  -- Which dentries have private data, and how many of them there are.
  pub d_fsdata : Dentry → Bool
  pub infos : ℕ
  -- `sb->s_fs_info` is not NULL, `sb->s_root`, and what is held of the lower superblock's `s_active`.
  pub s_fs_info : Bool
  pub s_root : Dentry
  pub s_active : ℕ
  pub world : W

-- `oops`: an invalid pointer is used, and the kernel stops the task.
pub data Outcome (A : Type 0) : Type 0 where
  ok : A → Outcome A
  oops : Outcome A

pub Outcome-cases : {A : Type 0} (r : Outcome A) → (r ≡ oops) ⊎ ((a : A) × (r ≡ ok a))
Outcome-cases oops = inl refl
Outcome-cases (ok a) = inr (a, refl)

abbrev pub M : Type 0 → Type 0 → Type 0
M W A = State W → Outcome (A × State W)

abbrev pub pure : {W A : Type 0} → A → M W A
pure a s = ok (a, s)

infixl 5 ◌>>=◌ ◌>>◌
abbrev pub ◌>>=◌ : {W A B : Type 0} → M W A → (A → M W B) → M W B
◌>>=◌ m f s = elim (m s) [ oops ↦ oops | ok (a, s') ↦ f a s' ]

abbrev pub ◌>>◌ : {W B : Type 0} → M W (Unit {0}) → M W B → M W B
m >> k = m >>= λ _. k

-- `if (b) m;`
abbrev pub when : {W : Type 0} → Bool → M W (Unit {0}) → M W (Unit {0})
when true m = m
when false m = pure tt

-- `if (b) m else n`
abbrev pub branch : {W A : Type 0} → Bool → M W A → M W A → M W A
branch b m n s = elim b [ true ↦ m s | false ↦ n s ]

-- What a step says of the result and the world, without the rest of the state.
unfoldable pub world_of : {A W : Type 0} → Outcome (A × State W) → Outcome (A × W)
world_of oops = oops
world_of (ok (a, s)) = ok (a, s.world)

module _ {W : Type 0} where
  abbrev pub read_state : M W (State W)
  read_state s = ok (s, s)

  abbrev pub kfree : ℕ → M W (Unit {0})
  kfree n s = ok (tt, record s { live = s.live - n })

  abbrev pub set_fs : Bool → M W (Unit {0})
  set_fs b s = ok (tt, record s { kernel_ds = b })

  -- `trfs_get_lower_path`, which takes the lock in the dentry's private data, and `trfs_put_lower_path`
  -- (and `dget`, `dput` of a dentry).
  abbrev pub trfs_get_lower_path : Dentry → M W LowerPath
  trfs_get_lower_path d s = elim (s.d_fsdata d) [
    | false ↦ oops
    | true ↦ ok (s.lower_path d, record s { refs = s.refs + 1 })
  ]

  abbrev pub put_ref : M W (Unit {0})
  put_ref s = ok (tt, record s { refs = s.refs - 1 })

  abbrev pub get_ref : M W (Unit {0})
  get_ref s = ok (tt, record s { refs = s.refs + 1 })

  -- `file->private_data` is dereferenced.
  abbrev pub trfs_lower_file : File → M W File
  trfs_lower_file f s = elim (s.file_info f) [ none ↦ oops | some i ↦ ok (i.lower_file, s) ]

  -- The lower file, which the caller or the kernel's function that it is passed to dereferences.
  abbrev pub live_lower_file : File → M W File
  live_lower_file f s = elim (s.file_info f) [
    | none ↦ oops
    | some i ↦ elim (i.lower_file == 0) [ true ↦ oops | false ↦ ok (i.lower_file, s) ]
  ]

  abbrev pub unlock_dir : M W (Unit {0})
  unlock_dir s = ok (tt, record s { refs = s.refs - 1; locks = s.locks - 1 })

module _ {W : Type 0} (k : Kernel W) where
  abbrev pub call : Call → M W ℤ
  call c s = ok ((k.call c s.world).0, record s { world = (k.call c s.world).1 })

  abbrev pub effect : Effect → M W (Unit {0})
  effect e s = ok (tt, record s { world = k.effect e s.world })

  -- `get_file`, and `fput` of a lower file.
  abbrev pub get_lower_file : M W (Unit {0})
  get_lower_file s = ok (tt, record s { lower_files = s.lower_files + 1 })

  abbrev pub put_lower_file : File → M W (Unit {0})
  put_lower_file f s =
      ok (tt, record s { lower_files = s.lower_files - 1; world = k.effect (fput f) s.world })

  -- The code uses a block without a test for NULL.
  abbrev pub kmalloc : ℕ → M W (List ℕ)
  kmalloc n s = elim (k.kmalloc n s.world).0 [
    | none ↦ oops
    | some block ↦ ok (block, record s { live = s.live + 1; world = (k.kmalloc n s.world).1 })
  ]

  -- `dget_parent`
  abbrev pub get_parent : Dentry → M W Dentry
  get_parent d s = ok (k.dget_parent d s.world, record s { refs = s.refs + 1 })

  -- `lock_parent` takes a reference and the lock, `unlock_dir` drops both.
  abbrev pub lock_parent : Dentry → M W Dentry
  lock_parent d s =
      ok (k.dget_parent d s.world, record s { refs = s.refs + 1; locks = s.locks + 1 })
