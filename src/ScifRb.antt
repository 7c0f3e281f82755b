-- ===== src/ScifRb.antt =====
-- micscif/micscif_rb.c and include/mic/micscif_rb.h: the byte ring of a SCIF queue pair. Two
-- `micscif_rb` form one queue, the writer's and the reader's; both point to the same bytes and the
-- same shared offsets, which are `Shared`. Offsets are uint32_t. The memory barriers and the
-- read-backs of CONFIG_ML1OM leave no state, and the second store of CONFIG_MK1OM writes the same
-- value again; none of these has a counterpart here.
pub mod Pipe
pub mod Round
pub mod Span
pub mod Copies
pub mod Inv
pub mod Offsets
pub mod WriteStep
pub mod ReadStep
pub mod Refine
pub mod Delivery
pub mod Effects
mod Examples
use intel_xeon_phi_kernel_dr.Common.{
  ℕ, ◌+◌, ◌-◌, ◌%◌, ◌^◌, bit_and, Bool, true, false, Option, none, some, List, [], ◌∷◌, ◌++◌,
  length, set, take, drop, ltb, leb, ◌==◌, if◌then◌else◌,
}
use intel_xeon_phi_kernel_dr.Kernel.{CircBuf, UserCopy}
use Pipe.{
  Status, done, enomem, efault, Read, nothing, got, fault, Op, write, commit, space, get_next,
  update_read_ptr, Reply, wrote, room, read, none_given,
}

-- `struct micscif_rb`, without the pointers.
pub record Rb : Type 0 where
  pub size : ℕ
  pub current_read_offset : ℕ
  pub current_write_offset : ℕ
  pub old_current_read_offset : ℕ
  pub old_current_write_offset : ℕ

-- What `rb_base`, `read_ptr` and `write_ptr` point to.
pub record Shared : Type 0 where
  pub rb_base : List ℕ
  pub read_ptr : ℕ
  pub write_ptr : ℕ

abbrev pub u32 : ℕ → ℕ
u32 n = n % 2 ^ 32

-- `none` is BUG_ON: the size is no power of two.
pub micscif_rb_init : Rb → Shared → ℕ → Option Rb
micscif_rb_init rb sh size =
    if bit_and size (u32 (size + 2 ^ 32 - 1)) == 0
    then some (record rb {
      size = size;
      current_read_offset = sh.read_ptr;
      current_write_offset = sh.write_ptr;
    })
    else none

pub micscif_rb_reset : Rb → Shared → Rb × Shared
micscif_rb_reset rb sh = (
  record rb { current_write_offset = 0; current_read_offset = 0 },
  record sh { read_ptr = 0; write_ptr = 0 },
)

-- A copy of bytes into memory, at an offset.
unfoldable pub write_at : List ℕ → ℕ → List ℕ → List ℕ
write_at mem off [] = mem
write_at mem off (x ∷ xs) = write_at (set mem off x) (off + 1) xs

unfoldable pub read_at : List ℕ → ℕ → ℕ → List ℕ
read_at mem off n = take n (drop off mem)

-- The two copies of a message that wraps, `msg` being its bytes. The flag is false for -EFAULT.
unfoldable pub memcpy_torb : UserCopy → Rb → List ℕ → ℕ → List ℕ → Bool → Bool × List ℕ
memcpy_torb u rb mem off msg fromuser =
    if leb rb.size (off + length msg)
    then (let size1 = rb.size - off in
        let (b1, ok1) = u.copy_user (take size1 msg) in
        let (b2, ok2) = u.copy_user (drop size1 msg) in
        if fromuser
        then (if ok1
            then (ok2, write_at (write_at mem off b1) 0 b2)
            else (false, write_at mem off b1))
        else (true, write_at (write_at mem off (take size1 msg)) 0 (drop size1 msg)))
    else (let (b, ok) = u.copy_user msg in
        if fromuser then (ok, write_at mem off b) else (true, write_at mem off msg))

-- The bytes that reach `msg`, or `none` for -EFAULT.
unfoldable pub memcpy_fromrb : UserCopy → Rb → List ℕ → ℕ → ℕ → Bool → Option (List ℕ)
memcpy_fromrb u rb mem off size touser =
    if leb rb.size (off + size)
    then (let size1 = rb.size - off in
        let m1 = read_at mem off size1 in
        let m2 = read_at mem 0 (size - size1) in
        let (b1, ok1) = u.copy_user m1 in
        let (b2, ok2) = u.copy_user m2 in
        if touser
        then (if ok1 then (if ok2 then some (b1 ++ b2) else none) else none)
        else some (m1 ++ m2))
    else (let m = read_at mem off size in
        let (b, ok) = u.copy_user m in if touser then (if ok then some b else none) else some m)

-- What `micscif_rb_get_next` returns of the copy.
unfoldable pub read_reply : Rb → Option (List ℕ) → Read × Rb
read_reply rb none = (fault, rb)
read_reply rb (some bytes) = (got bytes, rb)

-- `micscif_rb_get_next` behind the call of `micscif_rb_get`. The offset moves before the copy.
unfoldable pub take_packet : UserCopy → Rb → Shared → ℕ → Bool → Option ℕ → Read × Rb
take_packet u rb sh size touser none = (nothing, rb)
take_packet u rb sh size touser (some header) =
    let rb' = record rb {
      old_current_read_offset = rb.current_read_offset;
      current_read_offset = bit_and (u32 (rb.current_read_offset + size)) (rb.size - 1);
    } in
    read_reply rb' (memcpy_fromrb u rb' sh.rb_base header size touser)

module _ (c : CircBuf) where
  unfoldable pub micscif_rb_space : Rb → Shared → ℕ × Rb
  micscif_rb_space rb sh =
      let rb' = record rb {
        old_current_read_offset = rb.current_read_offset;
        current_read_offset = sh.read_ptr;
      } in
      (c.circ_space rb'.current_write_offset rb'.current_read_offset rb'.size, rb')

  -- `msg` is the `size` bytes at the C argument.
  unfoldable pub micscif_rb_write : UserCopy → Rb → Shared → List ℕ → Bool → Status × Rb × Shared
  unfolding micscif_rb_space
  micscif_rb_write u rb sh msg fromuser =
      let (free, rb') = micscif_rb_space rb sh in
      let (ok, mem) = memcpy_torb u rb' sh.rb_base rb'.current_write_offset msg fromuser in
      let sh' = record sh { rb_base = mem } in
      let off = rb'.current_write_offset in
      let rb'' = record rb' {
        old_current_write_offset = off;
        current_write_offset = bit_and (u32 (off + length msg)) (rb'.size - 1);
      } in
      if ltb free (length msg)
      then (enomem, rb', sh)
      else if ok
      then (done, rb'', sh')
      else (efault, rb', sh')

  unfoldable pub micscif_rb_count : Rb → Shared → ℕ → ℕ × Rb
  micscif_rb_count rb sh size =
      let rb' =
        if ltb (c.circ_cnt rb.current_write_offset rb.current_read_offset rb.size) size
        then record rb {
          old_current_write_offset = rb.current_write_offset;
          current_write_offset = sh.write_ptr;
        }
        else rb in
      (c.circ_cnt rb'.current_write_offset rb'.current_read_offset rb'.size, rb')

  -- The offset of the next packet, or `none` for NULL.
  unfoldable pub micscif_rb_get : Rb → Shared → ℕ → Option ℕ × Rb
  micscif_rb_get rb sh size =
      let (count, rb') = micscif_rb_count rb sh size in
      (if leb size count then some rb'.current_read_offset else none, rb')

  -- Returns 0 for `nothing`, `size` for `got`, -EFAULT for `fault`.
  unfoldable pub micscif_rb_get_next : UserCopy → Rb → Shared → ℕ → Bool → Read × Rb
  micscif_rb_get_next u rb sh size touser =
      let (header, rb') = micscif_rb_get rb sh size in take_packet u rb' sh size touser header

unfoldable pub micscif_rb_update_read_ptr : Rb → Shared → Shared
micscif_rb_update_read_ptr rb sh = record sh { read_ptr = rb.current_read_offset }

unfoldable pub micscif_rb_commit : Rb → Shared → Shared
micscif_rb_commit rb sh = record sh { write_ptr = rb.current_write_offset }

-- One queue: the writer's ring, the reader's ring, and what they share.
pub record Queue : Type 0 where
  pub writer : Rb
  pub reader : Rb
  pub shared : Shared

-- One call of either end.
pub step : CircBuf → Queue → Op → Reply × Queue
step c q (write u msg fromuser) =
    let (status, rb, sh) = micscif_rb_write c u q.writer q.shared msg fromuser in
    (wrote status, record q { writer = rb; shared = sh })
step c q commit = (none_given, record q { shared = micscif_rb_commit q.writer q.shared })
step c q space =
    let (n, rb) = micscif_rb_space c q.writer q.shared in (room n, record q { writer = rb })
step c q (get_next u n touser) =
    let (r, rb) = micscif_rb_get_next c u q.reader q.shared n touser in
    (read r, record q { reader = rb })
step c q update_read_ptr =
    (none_given, record q { shared = micscif_rb_update_read_ptr q.reader q.shared })

pub run : CircBuf → Queue → List Op → List Reply × Queue
run c q [] = ([], q)
run c q (op ∷ ops) = let (r, q') = step c q op in let (rs, q'') = run c q' ops in (r ∷ rs, q'')
