-- ===== src/Base/Errno.antt =====
-- The error numbers that the modelled code returns (negated in the source), and the result of a
-- function that returns 0 or an error.
pub data Errno : Type 0 where
  eperm esrch enomem eacces efault einval enodev enospc enoexec : Errno
  eagain epipe enxio erestartsys enotty ebusy emfile enfile enoent eexist enotdir eisdir : Errno
  eisconn econnrefused econnreset eloop enametoolong e2big : Errno

pub data Status : Type 0 where
  ok : Status
  err : Errno → Status
