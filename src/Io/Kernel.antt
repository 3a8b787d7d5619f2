-- ===== src/Io/Kernel.antt =====
-- What koios and the kernel do with a file, a list of bytes.
use frenzy_kv.Prelude.{ℕ, ◌≡◌, ◌++◌, take, drop}
use frenzy_kv.Bytes.{Bytes}

-- `uring::append_all` writes all the bytes at the end of a file opened with O_APPEND, and
-- `uring::read` delivers the bytes that there are, as many as the destination has room for.
pub record Kernel : Type 0 where
  pub append_all : Bytes → Bytes → Bytes
  pub read : ℕ → ℕ → Bytes → Bytes
  pub appended : (bytes file : Bytes) → append_all bytes file ≡ file ++ bytes
  pub delivered : (n offset : ℕ) (file : Bytes) → read n offset file ≡ take n (drop offset file)
