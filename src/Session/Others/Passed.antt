-- ===== src/Session/Others/Passed.antt =====
-- What the handlers that log nothing do to the module's state and to the trace file.
use trfs_stackable_filesyste.Common.{ℕ, ◌+◌, ◌≡◌, ap, arith, false, List}
use trfs_stackable_filesyste.Kernel.{Dentry, Iattr, ErrPtr, Kernel, State, ptr, ok}
use trfs_stackable_filesyste.Tracing.{Finds, Tracing, Naming}
use trfs_stackable_filesyste.File.Lower.{
  trfs_readdir, trfs_compat_ioctl, trfs_mmap, trfs_flush, trfs_fsync, trfs_fasync, trfs_file_llseek,
  trfs_read_iter, trfs_write_iter, trfs_fault, trfs_page_mkwrite, trfs_direct_io,
}
use trfs_stackable_filesyste.Inode.Attributes.{
  trfs_readlink, trfs_get_link, trfs_permission, trfs_setattr, trfs_getattr, trfs_statfs,
}
use trfs_stackable_filesyste.Inode.Attributes.Parts.{
  resize-resized, change_lower-changed, tfile-resized, tfile-changed,
}
use trfs_stackable_filesyste.Inode.Xattr.{
  trfs_setxattr, trfs_getxattr, trfs_listxattr, trfs_removexattr,
}
use trfs_stackable_filesyste.Lookup.Dentries.{trfs_d_revalidate}
use trfs_stackable_filesyste.Lookup.Names.{trfs_lookup}
use trfs_stackable_filesyste.Lookup.Balance.{trfs_lookup-IsLookedUp}
use trfs_stackable_filesyste.Lookup.Laws.{tfile-trfs_lookup}
use trfs_stackable_filesyste.Lookup.Inodes.{trfs_iget-got, tfile-got}
use trfs_stackable_filesyste.Mount.Operations.{
  trfs_evict_inode, trfs_umount_begin, trfs_nfs_get_inode,
}
use trfs_stackable_filesyste.Ioctl.{trfs_command, trfs_unlocked_ioctl}
use trfs_stackable_filesyste.Session.Log.{History, elsewhere, Served}
use trfs_stackable_filesyste.Session.Others.{
  Other, readdir, unlocked_ioctl, compat_ioctl, mmap, flush, fsync, fasync, llseek, read_iter,
  write_iter, fault, page_mkwrite, direct_io, readlink, get_link, permission, setattr, getattr,
  statfs, setxattr, getxattr, listxattr, removexattr, revalidate, evict_inode, umount_begin,
  nfs_get_inode, Reply, text, serve_other,
}

-- The blocks from `kmalloc` in use after a reply: the text of a link is one until its delayed free.
abbrev pub live_with : Reply → ℕ → ℕ
live_with (text (ptr p)) n = n + 1
live_with _ n = n

pub record IsPassed {W : Type 0} {k : Kernel W} (T : Tracing k) (n : ℕ) (s s' : State W)
    : Type 0 where
  pub live : s'.live ≡ n
  pub lower_files : s'.lower_files ≡ s.lower_files
  pub refs : s'.refs ≡ s.refs
  pub locks : s'.locks ≡ s.locks
  pub files : s'.files ≡ s.files
  pub kernel_ds : s'.kernel_ds ≡ s.kernel_ds
  pub record_id : s'.sb.record_id ≡ s.sb.record_id
  pub tfile_path : s'.sb.tfile_path ≡ s.sb.tfile_path
  pub tfile : T.tfile s'.world ≡ T.tfile s.world

module _ {W : Type 0} (k : Kernel W) (T : Tracing k) where
  trfs_setattr-IsPassed :
      (d : Dentry) (ia : Iattr) (s s' : State W) (e : Reply)
      → serve_other k (setattr d ia) s ≡ ok (e, s')
      → IsPassed T (live_with e s.live) s s'
  unfolding trfs_setattr
  trfs_setattr-IsPassed d ia s s' e h = grind (
    arith,
    T.call_tfile,
    resize-resized k,
    change_lower-changed k,
    tfile-resized k T,
    tfile-changed k T,
  )

module _ {W : Type 0} (k : Kernel W) (T : Tracing k) (s s' : State W) (e : Reply) where
  -- Whatever the kernel does, if one of the requests that are not traced returns, its handler has given
  -- back every reference, to lower files too, lock, trace file and address limit that it took, has as many blocks from
  -- `kmalloc` as before, but for the text of a link that is read, which is freed later, and has left the
  -- record id, the trace file's path and the trace file's bytes as they were.
  pub serve_other-IsPassed :
      (r : Other) → serve_other k r s ≡ ok (e, s') → IsPassed T (live_with e s.live) s s'
  unfolding trfs_readdir trfs_compat_ioctl trfs_mmap trfs_flush trfs_fsync trfs_fasync
      trfs_file_llseek trfs_read_iter trfs_write_iter trfs_fault trfs_page_mkwrite trfs_direct_io
      trfs_readlink trfs_get_link trfs_permission trfs_getattr trfs_statfs trfs_setxattr
      trfs_getxattr trfs_listxattr trfs_removexattr trfs_command trfs_unlocked_ioctl
      trfs_d_revalidate trfs_evict_inode trfs_umount_begin trfs_nfs_get_inode
  serve_other-IsPassed (readdir f) h = grind (arith, T.call_tfile, T.effect_tfile)
  serve_other-IsPassed (unlocked_ioctl f cmd arg) h = record {
    live = grind (arith, T.call_tfile, T.effect_tfile);
    lower_files = grind (arith, T.call_tfile, T.effect_tfile);
    refs = grind (arith, T.call_tfile, T.effect_tfile);
    locks = grind (arith, T.call_tfile, T.effect_tfile);
    files = grind (arith, T.call_tfile, T.effect_tfile);
    kernel_ds = grind (arith, T.call_tfile, T.effect_tfile);
    record_id = grind (arith, T.call_tfile, T.effect_tfile);
    tfile_path = grind (arith, T.call_tfile, T.effect_tfile);
    tfile = grind (arith, T.call_tfile, T.effect_tfile);
  }
  serve_other-IsPassed (compat_ioctl f cmd arg) h = grind (arith, T.call_tfile, T.effect_tfile)
  serve_other-IsPassed (mmap f vma willwrite) h = grind (arith, T.call_tfile, T.effect_tfile)
  serve_other-IsPassed (flush f id) h = grind (arith, T.call_tfile, T.effect_tfile)
  serve_other-IsPassed (fsync f a b datasync) h = grind (arith, T.call_tfile, T.effect_tfile)
  serve_other-IsPassed (fasync fd f flag) h = grind (arith, T.call_tfile, T.effect_tfile)
  serve_other-IsPassed (llseek f offset whence) h =
      grind (arith, T.generic_file_llseek_tfile, T.call_tfile, T.effect_tfile)
  serve_other-IsPassed (read_iter f iocb) h = grind (arith, T.call_tfile, T.effect_tfile)
  serve_other-IsPassed (write_iter f iocb) h = grind (arith, T.call_tfile, T.effect_tfile)
  serve_other-IsPassed (fault f) h = grind (arith, T.call_tfile, T.effect_tfile)
  serve_other-IsPassed (page_mkwrite f) h = grind (arith, T.call_tfile, T.effect_tfile)
  serve_other-IsPassed (direct_io iocb iter offset) h = grind arith
  serve_other-IsPassed (readlink d n) h = grind (arith, T.call_tfile, T.effect_tfile)
  serve_other-IsPassed (get_link d) h = grind (arith, T.kmalloc_tfile, T.call_tfile, T.effect_tfile)
  serve_other-IsPassed (permission i mask) h = grind (arith, T.call_tfile, T.effect_tfile)
  serve_other-IsPassed (setattr d ia) h = trfs_setattr-IsPassed k T d ia s s' e h
  serve_other-IsPassed (getattr d) h = grind (arith, T.call_tfile, T.effect_tfile)
  serve_other-IsPassed (revalidate d flags) h = grind (arith, T.call_tfile, T.effect_tfile)
  serve_other-IsPassed (evict_inode i) h = grind (arith, T.effect_tfile)
  serve_other-IsPassed umount_begin h = grind (arith, T.effect_tfile)
  serve_other-IsPassed (nfs_get_inode ino) h =
      grind (arith, T.effect_tfile, tfile-got k T, trfs_iget-got k)
  serve_other-IsPassed (statfs d) h = grind (arith, T.call_tfile, T.effect_tfile)
  serve_other-IsPassed (setxattr d name value flags) h = grind (arith, T.call_tfile, T.effect_tfile)
  serve_other-IsPassed (getxattr d name size) h = grind (arith, T.call_tfile, T.effect_tfile)
  serve_other-IsPassed (listxattr d size) h = grind (arith, T.call_tfile, T.effect_tfile)
  serve_other-IsPassed (removexattr d name) h = grind (arith, T.call_tfile, T.effect_tfile)

module _ {W : Type 0} (k : Kernel W) (T : Tracing k) where
  -- Between the traced requests, any of the others may be served: what is proved of the log stays true.
  History-serve_other :
      (s : State W) (ts : List Served) (u v : State W) (r : Other) (e : Reply)
      → History k T s ts u
      → serve_other k r u ≡ ok (e, v)
      → History k T s ts v
  History-serve_other s ts u v r e p h =
      let q = serve_other-IsPassed k T u v e r h in elsewhere p q.tfile q.record_id q.tfile_path

  -- A lookup of a new dentry, too, may be served between the traced requests, if what the kernel finds is
  -- not NULL.
  History-trfs_lookup :
      (N : Naming T) (F : Finds k) (s : State W) (ts : List Served) (u v : State W) (d : Dentry)
      (r : ErrPtr)
      → u.d_fsdata d ≡ false
      → History k T s ts u
      → trfs_lookup k d u ≡ ok (r, v)
      → History k T s ts v
  History-trfs_lookup N F s ts u v d r h p e =
      let q = trfs_lookup-IsLookedUp k F d u v r h e in
      elsewhere p (tfile-trfs_lookup k T N d u v r e) (ap (λ b. b.record_id) q.sb)
        (ap (λ b. b.tfile_path) q.sb)
