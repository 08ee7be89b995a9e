-- ===== src/Base/Errno.antt =====
-- include/alcor2/errno.h: the error numbers that the models return. A C function that returns `-E...`
-- or a count returns a `Result`.

pub data Errno : Type 0 where
  enoent esrch echild eio ebadf enomem efault ebusy eexist enodev enotdir eisdir einval enfile
        emfile efbig espipe epipe enosys enotempty :
      Errno

pub data Result {ℓ} (A : Type ℓ) : Type ℓ where
  ok : A → Result A
  err : Errno → Result A
