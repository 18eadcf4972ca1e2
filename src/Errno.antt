-- ===== src/Errno.antt =====
-- The error codes that the module returns. `negsuc n` is -(n + 1).
use trfs_stackable_filesyste.Common.{ℤ, negsuc}

abbrev pub enoent : ℤ
enoent = negsuc 1

abbrev pub echild : ℤ
echild = negsuc 9

abbrev pub enomem : ℤ
enomem = negsuc 11

abbrev pub eacces : ℤ
eacces = negsuc 12

abbrev pub ebusy : ℤ
ebusy = negsuc 15

abbrev pub exdev : ℤ
exdev = negsuc 17

abbrev pub einval : ℤ
einval = negsuc 21

abbrev pub enotty : ℤ
enotty = negsuc 24

abbrev pub enotempty : ℤ
enotempty = negsuc 38

abbrev pub eopnotsupp : ℤ
eopnotsupp = negsuc 94

abbrev pub estale : ℤ
estale = negsuc 115

-- Kept inside the kernel: an asynchronous request was queued.
abbrev pub eiocbqueued : ℤ
eiocbqueued = negsuc 528
