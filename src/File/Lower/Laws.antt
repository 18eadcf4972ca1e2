-- ===== src/File/Lower/Laws.antt =====
-- What the untraced operations on open files of fs/trfs/file.c and fs/trfs/mmap.c return.
use trfs_stackable_filesyste.Common.{
  ℕ, ◌-◌, ◌^◌, ◌<◌, ◌≤◌, ◌≡◌, ◌≢◌, arith, Bool, true, some, ℤ, pos, negsuc, int32, bits32,
}
use trfs_stackable_filesyste.Kernel.{File, FileInfo, Kernel, State, oops, ok}
use trfs_stackable_filesyste.File.Lower.{trfs_mmap, trfs_fault, trfs_page_mkwrite, trfs_file_llseek}

module _ {W : Type 0} (k : Kernel W) where
  -- A seek that the upper file grants at an offset below 2^31 is asked of the lower file too, and the
  -- lower file's answer, if it is below 2^31 as well, is the result.
  pub trfs_file_llseek_small :
      (f : File) (offset : ℤ) (whence n m : ℕ) (i : FileInfo) (s : State W) (w w' : W)
      → s.file_info f ≡ some i
      → i.lower_file ≢ 0
      → k.generic_file_llseek f offset whence s.world ≡ (pos n, w)
      → n < 2 ^ 31
      → k.generic_file_llseek i.lower_file offset whence w ≡ (pos m, w')
      → m < 2 ^ 31
      → trfs_file_llseek k f offset whence s ≡ ok (pos m, record s { world = w' })
  unfolding trfs_file_llseek int32 bits32
  trfs_file_llseek_small f offset whence n m i s w w' h g e b e' b' = ground arith

  -- A seek that the upper file grants at an offset from 2^31 on, below 2^32, returns a negative number,
  -- though the upper file has moved; the lower file is not asked.
  pub trfs_file_llseek_big :
      (f : File) (offset : ℤ) (whence n : ℕ) (s : State W) (w : W)
      → k.generic_file_llseek f offset whence s.world ≡ (pos n, w)
      → 2 ^ 31 ≤ n
      → n < 2 ^ 32
      → trfs_file_llseek k f offset whence s ≡ ok (negsuc (2 ^ 32 - 1 - n), record s { world = w })
  unfolding trfs_file_llseek int32 bits32
  trfs_file_llseek_big f offset whence n s w e b b' = ground arith

  -- After a mapping that succeeded, a page fault and a write fault of that file, in whatever world they
  -- come, find the operations of the lower mapping and return, provided that the lower file system's
  -- mapping operation sets them and they have a page fault.
  pub trfs_fault-trfs_mmap :
      (f : File) (vma : ℕ) (willwrite : Bool) (s s' : State W) (w : W)
      → ((u : W) → k.vm_ops vma u ≢ 0)
      → ((ops : ℕ) (u : W) → k.has_fault ops u ≡ true)
      → trfs_mmap k f vma willwrite s ≡ ok (pos 0, s')
      → (trfs_fault k f (record s' { world = w }) ≢ oops)
        × (trfs_page_mkwrite k f (record s' { world = w }) ≢ oops)
  unfolding trfs_mmap trfs_fault trfs_page_mkwrite
  trfs_fault-trfs_mmap f vma willwrite s s' w g g' h =
      ((λ b. grind (arith, g, g')), (λ b. grind (arith, g, g')))
