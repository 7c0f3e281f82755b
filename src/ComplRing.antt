-- ===== src/ComplRing.antt =====
-- include/mic/compl_buf_ring.h: the ring of entries that wait for the DMA engine. The interrupt
-- handler moves `tail` while a caller reads it again and again, so what the reads give is an
-- argument; the code assumes that a read or write of an int is atomic. Indices are not negative.
pub mod Space
mod Examples
use intel_xeon_phi_kernel_dr.Common.{
  ℕ, zero, suc, ◌+◌, ◌-◌, ◌%◌, ◌≡◌, Bool, true, false, not, ◌&&◌, ◌||◌, Option, none, some, ltb,
  leb, ◌==◌, if◌then◌else◌,
}

abbrev pub max_poll_tail_read_retries : ℕ
max_poll_tail_read_retries = 20

-- `struct compl_buf_ring`, without the places that the DMA engine writes.
pub record ComplBufRing : Type 0 where
  pub head : ℕ
  pub tail : ℕ
  pub size : ℕ

pub init_ring : ℕ → ComplBufRing
init_ring size = record { head = 0; tail = 0; size = size }

pub incr_rb_index : ℕ → ℕ → ℕ
incr_rb_index cur_index ring_size = (cur_index + 1) % ring_size

pub update_tail : ComplBufRing → ℕ → ComplBufRing
update_tail ring new_tail = record ring { tail = new_tail }

-- `location` is what the DMA engine has written at `tail_location`.
pub read_tail : ℕ → ComplBufRing → ℕ
read_tail location ring = incr_rb_index location ring.size

-- The entries from `head` round to `tail`.
pub count_to : ℕ → ℕ → ℕ → ℕ
count_to head tail size = if ltb tail head then tail + (size - head) else tail - head

-- The loop of `avail_space_in_ring`, with `retries` turns left: the `k`th read of `tail` is `tails k`.
pub space_from : ℕ → (ℕ → ℕ) → ℕ → ComplBufRing → ℕ
space_from zero tails k ring = 0
space_from (suc retries) tails k ring =
    let count = count_to ring.head (tails k) ring.size in
    let again = space_from retries tails (k + 1) ring in
    if ring.head == tails k then ring.size - 1 else if count == 1 then again else count - 1

-- The result is a bool: whether the space is not 0.
pub avail_space_in_ring : (ℕ → ℕ) → ComplBufRing → Bool
avail_space_in_ring tails ring = not (space_from max_poll_tail_read_retries tails 0 ring == 0)

pub is_entry_processed : ComplBufRing → ℕ → Bool
is_entry_processed ring index =
    if ltb ring.head ring.tail
    then leb ring.head index && ltb index ring.tail
    else leb ring.head index || ltb index ring.tail

pub incr_head : ComplBufRing → ComplBufRing
incr_head ring = record ring { head = incr_rb_index ring.head ring.size }

-- `none` is the result -1.
pub allocate_buffer : (ℕ → ℕ) → ComplBufRing → Option ℕ
allocate_buffer tails ring = if avail_space_in_ring tails ring then some ring.head else none
