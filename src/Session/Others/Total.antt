-- ===== src/Session/Others/Total.antt =====
-- When the handlers that log nothing return.
use trfs_stackable_filesyste.Common.{
  ℕ, ◌<◌, ◌≡◌, ◌≢◌, ◌⊎◌, inl, inr, arith, true, false, some, ℤ, pos, negsuc,
}
use trfs_stackable_filesyste.Kernel.{
  Dentry, Iattr, mmap_op, FileInfo, Kernel, State, oops, ok, Outcome-cases,
}
use trfs_stackable_filesyste.Tracing.{Tracing}
use trfs_stackable_filesyste.File.Lower.{
  trfs_readdir, trfs_compat_ioctl, trfs_mmap, trfs_flush, trfs_fsync, trfs_fasync, trfs_file_llseek,
  trfs_read_iter, trfs_write_iter, trfs_fault, trfs_page_mkwrite, trfs_direct_io,
}
use trfs_stackable_filesyste.Inode.Attributes.{
  trfs_readlink, trfs_get_link, trfs_permission, trfs_setattr, trfs_getattr, trfs_statfs,
}
use trfs_stackable_filesyste.Inode.Attributes.Parts.{resize-resized, change_lower-changed}
use trfs_stackable_filesyste.Inode.Xattr.{
  trfs_setxattr, trfs_getxattr, trfs_listxattr, trfs_removexattr,
}
use trfs_stackable_filesyste.Lookup.Dentries.{trfs_d_revalidate}
use trfs_stackable_filesyste.Lookup.Inodes.{trfs_iget-got}
use trfs_stackable_filesyste.Mount.Operations.{
  trfs_evict_inode, trfs_umount_begin, trfs_nfs_get_inode,
}
use trfs_stackable_filesyste.Ioctl.{trfs_command, trfs_unlocked_ioctl}
use trfs_stackable_filesyste.Session.Others.{
  Other, readdir, unlocked_ioctl, compat_ioctl, mmap, flush, fsync, fasync, llseek, read_iter,
  write_iter, fault, page_mkwrite, direct_io, readlink, get_link, permission, setattr, getattr,
  statfs, setxattr, getxattr, listxattr, removexattr, revalidate, evict_inode, umount_begin,
  nfs_get_inode, Reply, serve_other,
}
use trfs_stackable_filesyste.Session.Others.Passed.{live_with, IsPassed, serve_other-IsPassed}
use trfs_stackable_filesyste.Session.History.{HasInfo, HasLower, HasPath}

-- Leaves room for a final 0 in a page.
abbrev pub BelowPage : ℤ → Type 0
BelowPage (pos n) = n < 4096
BelowPage (negsuc n) = Unit

-- The file has its private data, in which the operations of the lower mapping were kept, and they have a
-- page fault.
abbrev pub HasVmOps : {W : Type 0} → Kernel W → State W → ℕ → Type 0
HasVmOps k s f =
    (i : FileInfo) × (s.file_info f ≡ some i)
    × (i.lower_vm_ops ≢ 0)
    × (k.has_fault i.lower_vm_ops s.world ≡ true)

-- The file has its private data, and its lower file can be mapped.
abbrev pub HasMmap : {W : Type 0} → Kernel W → State W → ℕ → Type 0
HasMmap k s f =
    (i : FileInfo) × (s.file_info f ≡ some i)
    × (i.lower_file ≢ 0)
    × (k.has_fop mmap_op i.lower_file s.world ≡ true)

-- A request that its handler can serve: dentries have their private data; open files have theirs, with a
-- lower file where it is used without a test, mapped ones with the operations of the lower mapping; a lower file that is to be mapped has the operation for it; lower inodes have
-- operations, where they are not tested; a lower link's text is shorter than a page; and there is a lower
-- inode of the number that an NFS handle gives.
abbrev pub OtherReady : {W : Type 0} → Kernel W → State W → Other → Type 0
OtherReady k s (readdir f) = HasLower s f
OtherReady k s (unlocked_ioctl f cmd arg) = HasInfo s f
OtherReady k s (compat_ioctl f cmd arg) = HasInfo s f
OtherReady k s (mmap f vma willwrite) = HasMmap k s f
OtherReady k s (flush f id) = HasInfo s f
OtherReady k s (fsync f a b datasync) = HasLower s f × HasPath s (k.f_dentry f)
OtherReady k s (fasync fd f flag) = HasLower s f
OtherReady k s (llseek f offset whence) = HasLower s f
OtherReady k s (read_iter f iocb) = HasLower s f
OtherReady k s (write_iter f iocb) = HasLower s f
OtherReady k s (fault f) = HasVmOps k s f
OtherReady k s (page_mkwrite f) = HasVmOps k s f
OtherReady {W} k s (get_link d) =
    HasPath s d
    × ((w : W)
        → BelowPage
            (k.call (trfs_stackable_filesyste.Kernel.readlink (s.lower_path d).dentry 4096) w).0)
OtherReady k s (setattr d ia) = HasPath s d × ((ia.attr_file ≡ false) ⊎ HasInfo s ia.ia_file)
OtherReady k s (setxattr d name value flags) =
    HasPath s d × (k.has_i_op (s.lower_path d).dentry s.world ≡ true)
OtherReady k s (getxattr d name size) =
    HasPath s d × (k.has_i_op (s.lower_path d).dentry s.world ≡ true)
OtherReady k s (listxattr d size) =
    HasPath s d × (k.has_i_op (s.lower_path d).dentry s.world ≡ true)
OtherReady k s (nfs_get_inode ino) = (i : ℕ) × (k.ilookup s.sb.lower_sb ino s.world ≡ some i)
OtherReady k s (removexattr d name) = HasPath s d
OtherReady k s (readlink d n) = HasPath s d
OtherReady k s (getattr d) = HasPath s d
OtherReady k s (statfs d) = HasPath s d
OtherReady k s (revalidate d flags) = HasPath s d
OtherReady k s _ = Unit

module _ {W : Type 0} (k : Kernel W) where
  serve_other-ne-oops : (r : Other) (s : State W) → OtherReady k s r → serve_other k r s ≢ oops
  unfolding trfs_readdir trfs_compat_ioctl trfs_mmap trfs_flush trfs_fsync trfs_fasync
      trfs_file_llseek trfs_read_iter trfs_write_iter trfs_fault trfs_page_mkwrite trfs_direct_io
      trfs_readlink trfs_get_link trfs_permission trfs_setattr trfs_getattr trfs_statfs
      trfs_setxattr trfs_getxattr trfs_listxattr trfs_removexattr trfs_command trfs_unlocked_ioctl
      trfs_d_revalidate trfs_evict_inode trfs_umount_begin trfs_nfs_get_inode
  serve_other-ne-oops (readdir f) s (i, h, g) = λ b. ground arith
  serve_other-ne-oops (unlocked_ioctl f cmd arg) s (i, h) = λ b. ground arith
  serve_other-ne-oops (compat_ioctl f cmd arg) s (i, h) = λ b. ground arith
  serve_other-ne-oops (mmap f vma willwrite) s (i, h, n, g) = λ b. ground arith
  serve_other-ne-oops (flush f id) s (i, h) = λ b. ground arith
  serve_other-ne-oops (fsync f start end datasync) s ((i, h, g), p) = λ b. ground arith
  serve_other-ne-oops (fasync fd f flag) s (i, h, g) = λ b. ground arith
  serve_other-ne-oops (llseek f offset whence) s (i, h, g) = λ b. ground arith
  serve_other-ne-oops (read_iter f iocb) s (i, h, g) = λ b. ground arith
  serve_other-ne-oops (write_iter f iocb) s (i, h, g) = λ b. ground arith
  serve_other-ne-oops (fault f) s (i, h, g, p) = λ b. ground arith
  serve_other-ne-oops (page_mkwrite f) s (i, h, g, p) = λ b. ground arith
  serve_other-ne-oops (direct_io iocb iter offset) s h = λ b. ground arith
  serve_other-ne-oops (get_link d) s (p, h) = λ b. grind (arith, h)
  serve_other-ne-oops (setattr d ia) s (p, inl h) =
      λ b. grind (arith, resize-resized k, change_lower-changed k)
  serve_other-ne-oops (setattr d ia) s (p, inr (i, h)) =
      λ b. grind (arith, resize-resized k, change_lower-changed k)
  serve_other-ne-oops (setxattr d name value flags) s (p, h) = λ b. ground arith
  serve_other-ne-oops (getxattr d name size) s (p, h) = λ b. ground arith
  serve_other-ne-oops (listxattr d size) s (p, h) = λ b. ground arith
  serve_other-ne-oops (removexattr d name) s h = λ b. ground arith
  serve_other-ne-oops (readlink d n) s h = λ b. ground arith
  serve_other-ne-oops (permission i mask) s h = λ b. ground arith
  serve_other-ne-oops (getattr d) s h = λ b. ground arith
  serve_other-ne-oops (evict_inode i) s h = λ b. ground arith
  serve_other-ne-oops umount_begin s h = λ b. ground arith
  serve_other-ne-oops (nfs_get_inode ino) s (i, h) = λ b. grind (arith, trfs_iget-got k)
  serve_other-ne-oops (statfs d) s h = λ b. ground arith
  serve_other-ne-oops (revalidate d flags) s h = λ b. ground arith

  -- A request that is not traced, and that its handler can serve, is answered. The handler has given back
  -- every reference, lock, trace file and address limit that it took, has as many blocks from `kmalloc`
  -- as before, but for the text of a link that is read, and has left the record id, the trace file's path
  -- and the trace file's bytes as they were.
  pub serve_other_passes :
      (T : Tracing k) (r : Other) (s : State W)
      → OtherReady k s r
      → (e : Reply) × (s' : State W) × (serve_other k r s ≡ ok (e, s'))
        × IsPassed T (live_with e s.live) s s'
  serve_other_passes T r s h = elim (Outcome-cases (serve_other k r s)) [
    | inl bad ↦ absurd (serve_other-ne-oops r s h bad)
    | inr ((e, s'), g) ↦ (e, s', g, serve_other-IsPassed k T s s' e r g)
  ]
