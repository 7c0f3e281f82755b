-- ===== src/ScifRb/Pipe.antt =====
-- What a SCIF byte queue promises: a pipe of bytes in which the writer's bytes wait for a commit,
-- then for the reader, and hold their space until the reader gives it back.
use intel_xeon_phi_kernel_dr.Common.{
  ℕ, ◌+◌, ◌≤◌, ◌<◌, ◌≡◌, Bool, true, List, [], ◌++◌, length, take, drop,
}
use intel_xeon_phi_kernel_dr.Kernel.{UserCopy}

-- 0, -ENOMEM and -EFAULT of `micscif_rb_write`.
pub data Status : Type 0 where
  done enomem efault : Status

pub data Read : Type 0 where
  nothing : Read
  got : List ℕ → Read
  fault : Read

-- The calls of the two ends, in the order in which they happen. Each copy of user memory has its
-- own outcome.
pub data Op : Type 0 where
  write : UserCopy → List ℕ → Bool → Op
  commit : Op
  space : Op
  get_next : UserCopy → ℕ → Bool → Op
  update_read_ptr : Op

pub data Reply : Type 0 where
  wrote : Status → Reply
  room : ℕ → Reply
  read : Read → Reply
  none_given : Reply

-- Bytes consumed and not given back, bytes that the reader may have, bytes not yet committed.
pub record Pipe : Type 0 where
  pub held : ℕ
  pub unread : List ℕ
  pub pending : List ℕ

abbrev pub used : Pipe → ℕ
used p = p.held + length p.unread + length p.pending

-- The steps of a pipe over a ring of `size` bytes, of which one stays free.
pub data Step (size : ℕ) (p : Pipe) : Op → Reply → Pipe → Type 0 where
  accept :
      (u : UserCopy) (msg : List ℕ) (fromuser : Bool)
      → used p + length msg < size
      → Step size p (write u msg fromuser) (wrote done) (record p { pending = p.pending ++ msg })
  refuse :
      (u : UserCopy) (msg : List ℕ) (fromuser : Bool)
      → size ≤ used p + length msg
      → Step size p (write u msg fromuser) (wrote enomem) p
  write_fault :
      (u : UserCopy) (msg : List ℕ)
      → used p + length msg < size
      → Step size p (write u msg true) (wrote efault) p
  publish :
      Step size p commit none_given (record p { unread = p.unread ++ p.pending; pending = [] })
  ask : (n : ℕ) → n + used p + 1 ≡ size → Step size p space (room n) p
  deliver :
      (u : UserCopy) (n : ℕ) (touser : Bool)
      → n ≤ length p.unread
      → Step size p
          (get_next u n touser)
          (read (got (take n p.unread)))
          (record p { held = p.held + n; unread = drop n p.unread })
  starve :
      (u : UserCopy) (n : ℕ) (touser : Bool)
      → length p.unread < n
      → Step size p (get_next u n touser) (read nothing) p
  read_fault :
      (u : UserCopy) (n : ℕ)
      → n ≤ length p.unread
      → Step size p
          (get_next u n true)
          (read fault)
          (record p { held = p.held + n; unread = drop n p.unread })
  give_back : Step size p update_read_ptr none_given (record p { held = 0 })
