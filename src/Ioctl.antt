-- ===== src/Ioctl.antt =====
-- The control call of fs/trfs/file.c, `trfs_unlocked_ioctl`, with the commands of fs/trfs/trfs.h and
-- hw2/trctl.h.
pub mod Laws
use trfs_stackable_filesyste.Common.{ℕ, not, ◌||◌, ℤ, negsuc, is_error, ◌==◌, if◌then◌else◌}
use trfs_stackable_filesyste.Errno.{enotty}
use trfs_stackable_filesyste.Kernel.{
  File, file_inode, copy_to_user, unlocked_ioctl, copy_attr_all, Kernel, ok, M, branch, pure, ◌>>=◌,
  ◌>>◌, when, read_state, trfs_lower_file, call, effect,
}

-- `_IOW('G', n, unsigned long)` and `_IOR('G', 3, unsigned long *)`, with words of eight bytes.
abbrev pub cmd_all : ℕ
cmd_all = 0x40084700

abbrev pub cmd_none : ℕ
cmd_none = 0x40084701

abbrev pub cmd_hex : ℕ
cmd_hex = 0x40084702

abbrev pub cmd_ret : ℕ
cmd_ret = 0x80084703

module _ {W : Type 0} (k : Kernel W) where
  abbrev pub set_mask : ℕ → M W (Unit {0})
  set_mask m s = ok (tt, record s { sb = record (s.sb) { mask = m } })

  -- The `switch`; the result of `copy_to_user` is not looked at.
  unfoldable pub trfs_command : ℕ → ℕ → M W (Unit {0})
  trfs_command cmd arg = do
    s ← read_state
    branch (cmd == cmd_all || (cmd == cmd_none || cmd == cmd_hex)) (set_mask arg)
        (branch (cmd == cmd_ret) (call k (copy_to_user arg s.sb.mask) >>= λ _. pure tt) (pure tt))

  -- The lower file system's own control call, if it has one.
  abbrev pub lower_ioctl : File → ℕ → ℕ → M W ℤ
  lower_ioctl lower_file cmd arg = do
    s ← read_state
    branch (k.has_ioctl lower_file s.world) (call k (unlocked_ioctl lower_file cmd arg))
        (pure enotty)

  unfoldable pub trfs_unlocked_ioctl : File → ℕ → ℕ → M W ℤ
  unfolding trfs_command
  trfs_unlocked_ioctl file cmd arg = do
    trfs_command cmd arg
    lower_file ← trfs_lower_file file
    s ← read_state
    branch (lower_file == 0 || not (k.has_f_op lower_file s.world)) (pure enotty) (do
      err ← lower_ioctl lower_file cmd arg
      when (not (is_error err)) (effect k (copy_attr_all (file_inode file) (file_inode lower_file)))
      pure err)
