-- ===== src/Kernel.antt =====
-- What the driver uses of the Linux kernel and does not implement: `linux/circ_buf.h`, the copies
-- to and from user space. Each is a record of the operations with their documented behaviour; the
-- functions of the driver that use one take it as an argument.
use intel_xeon_phi_kernel_dr.Common.{ℕ, ◌+◌, ◌-◌, ◌%◌, ◌^◌, ◌<◌, ◌≡◌, Bool, true, List, length}

-- `CIRC_CNT(head, tail, size)` and `CIRC_SPACE(head, tail, size)`: the bytes between `tail` and
-- `head` in a ring whose size is a power of two, and the bytes that may still be put in, with one
-- slot always left free.
pub record CircBuf : Type 0 where
  pub circ_cnt : ℕ → ℕ → ℕ → ℕ
  pub circ_space : ℕ → ℕ → ℕ → ℕ
  pub circ_cnt_lem :
      (k head tail : ℕ)
      → head < 2 ^ k
      → tail < 2 ^ k
      → circ_cnt head tail (2 ^ k) ≡ (head + 2 ^ k - tail) % 2 ^ k
  pub circ_space_lem :
      (k head tail : ℕ)
      → head < 2 ^ k
      → tail < 2 ^ k
      → circ_space head tail (2 ^ k) ≡ (tail + 2 ^ k - (head + 1)) % 2 ^ k

-- `copy_from_user` and `copy_to_user`: what the destination holds after the call, and whether the
-- call returned 0. A call that fails may have copied a part and padded the rest.
pub record UserCopy : Type 0 where
  pub copy_user : List ℕ → List ℕ × Bool
  pub length-copy_user : (xs : List ℕ) → length (copy_user xs).0 ≡ length xs
  pub copy_user_ok : (xs : List ℕ) → (copy_user xs).1 ≡ true → (copy_user xs).0 ≡ xs
