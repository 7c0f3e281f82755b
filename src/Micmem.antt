-- ===== src/Micmem.antt =====
-- host/micmem.c: transfers between the memory of a board and a range of host pages, cut at the
-- contiguous chunks that the range is made of. The DMA library (dma/mic_dma_lib.c) is a parameter:
-- what `request_dma_channel`, `do_dma` and `poll_dma_completion` answer. `Engine` is what the code
-- has done to it: the copies that were accepted, in order, and the channels that are held.
--
-- The arrays `dma_addr` and `num_pages` of a range are one list of chunks, of the length
-- `nr_contig_chunks`; the loop index is the part of the list that begins there. A read past the
-- end is `none`.

pub mod Pieces
pub mod Outcome
pub mod Single
pub mod Dual
pub mod Transfer
pub mod Range
mod Examples
use intel_xeon_phi_kernel_dr.Common.{
  ℕ, zero, suc, ◌+◌, ◌-◌, ◌*◌, ◌%◌, ◌^◌, ◌≡◌, Bool, true, false, Option, none, some, List, [], ◌∷◌,
  ◌++◌, drop, ltb, leb, ◌==◌, if◌then◌else◌,
}
use intel_xeon_phi_kernel_dr.Common.Int.{ℤ, pos, negsuc}

-- `uint64_t` sums and differences.
abbrev pub add64 : ℕ → ℕ → ℕ
add64 a b = (a + b) % 2 ^ 64

abbrev pub sub64 : ℕ → ℕ → ℕ
sub64 a b = (a + 2 ^ 64 - b) % 2 ^ 64

abbrev pub einval : ℤ
einval = negsuc 21

abbrev pub ebusy : ℤ
ebusy = negsuc 15

abbrev pub is_neg : ℤ → Bool
is_neg (pos n) = false
is_neg (negsuc n) = true

abbrev pub is_zero : ℤ → Bool
is_zero (pos n) = n == 0
is_zero (negsuc n) = false

abbrev pub is_one : ℤ → Bool
is_one (pos n) = n == 1
is_one (negsuc n) = false

-- A place of the two arrays of a range.
pub record Chunk : Type 0 where
  pub dma_addr : ℕ
  pub num_pages : ℕ

pub record DmaMemRange : Type 0 where
  pub chunks : List Chunk
  pub size : ℕ

pub data DmaDir : Type 0 where
  host2dev : DmaDir
  dev2host : DmaDir

-- The four channels of `struct micmem_ctx`.
pub record MicmemCtx : Type 0 where
  pub h2d_ch : ℕ
  pub d2h_ch : ℕ
  pub h2d_ch2 : ℕ
  pub d2h_ch2 : ℕ

pub record Move : Type 0 where
  pub src : ℕ
  pub dst : ℕ
  pub size : ℕ

pub record Copy : Type 0 where
  pub channel : ℕ
  pub move : Move

pub record Engine : Type 0 where
  pub copies : List Copy
  pub held : List ℕ

-- What the DMA library answers: whether a channel is given (0), the cookie of a copy or a negative
-- error, and the polls of a cookie that are made before DMA_TO has passed.
pub record DmaLib : Type 0 where
  pub request : Engine → ℕ → ℤ
  pub program : Engine → Copy → ℤ
  pub polls : Engine → ℕ → ℤ → List ℤ

-- `num_pages << PAGE_SHIFT`: a shift of an `int`, whose value is then a `uint64_t`.
pub shift_pages : ℕ → ℕ
shift_pages n = let w = n * 4096 % 2 ^ 32 in if ltb w (2 ^ 31) then w else w + (2 ^ 64 - 2 ^ 32)

abbrev pub chunk_size : Chunk → ℕ
chunk_size c = shift_pages c.num_pages

pub remove : ℕ → List ℕ → List ℕ
remove ch [] = []
remove ch (x ∷ xs) = if x == ch then xs else x ∷ remove ch xs

pub free_dma_channel : ℕ → Engine → Engine
free_dma_channel ch e = record e { held = remove ch e.held }

pub hold : ℕ → Engine → Engine
hold ch e = record e { held = ch ∷ e.held }

-- The answer, the cookie, and the engine afterwards.
pub do_chunk_dma : DmaLib → ℕ → ℕ → ℕ → ℕ → Engine → ℤ × ℤ × Engine
do_chunk_dma lib ch src dst size e =
    let copy : Copy = record {
      channel = ch;
      move = record { src = src; dst = dst; size = size };
    } in
    let result = lib.program e copy in
    if is_neg result
    then (result, pos 0, e)
    else (pos 0, result, record e { copies = e.copies ++ copy ∷ [] })

pub do_chunk_dma_dir : DmaLib → ℕ → ℕ → ℕ → ℕ → DmaDir → Engine → ℤ × ℤ × Engine
do_chunk_dma_dir lib ch dev_pa host_pa size host2dev e = do_chunk_dma lib ch host_pa dev_pa size e
do_chunk_dma_dir lib ch dev_pa host_pa size dev2host e = do_chunk_dma lib ch dev_pa host_pa size e

pub wait_for_dma : List ℤ → ℤ
wait_for_dma [] = ebusy
wait_for_dma (p ∷ ps) = let rest = wait_for_dma ps in if is_one p then pos 0 else rest

-- The index of the chunk, the offset in it, and its size; `i` is the index of the first chunk of
-- the list and `size` the size of the chunk before it.
pub find_1st_chunk : List Chunk → ℕ → ℕ → ℕ → ℕ × ℕ × ℕ
find_1st_chunk [] i offset size = (0, offset, size)
find_1st_chunk (c ∷ cs) i offset size =
    let rest = find_1st_chunk cs (suc i) (offset - chunk_size c) (chunk_size c) in
    if ltb offset (chunk_size c) then (i, offset, chunk_size c) else rest

pub xfer_single_finish : DmaLib → ℕ → ℕ → ℕ → ℕ → ℕ → DmaDir → Engine → ℤ × Engine
xfer_single_finish lib ch chunk_pa chunk_offset card_pa remaining dir e =
    let (result, cookie, e1) =
      do_chunk_dma_dir lib ch card_pa (add64 chunk_pa chunk_offset) remaining dir e in
    let e2 = free_dma_channel ch e1 in
    if is_neg result then (result, e2) else (wait_for_dma (lib.polls e2 ch cookie), e2)

-- The last copy of a transfer, from the chunk at the head of the list.
pub single_last : DmaLib → ℕ → DmaDir → List Chunk → ℕ → ℕ → ℕ → Engine → Option (ℤ × Engine)
single_last lib ch dir [] off card_pa remaining e = none
single_last lib ch dir (c ∷ cs) off card_pa remaining e =
    some (xfer_single_finish lib ch c.dma_addr off card_pa remaining dir e)

-- The loop of `do_xfer_single`, and the last copy behind it.
pub single_from : DmaLib → ℕ → DmaDir → List Chunk → ℕ → ℕ → ℕ → Engine → Option (ℤ × Engine)
single_from lib ch dir [] off card_pa remaining e = none
single_from lib ch dir (c ∷ []) off card_pa remaining e =
    single_last lib ch dir (c ∷ []) off card_pa remaining e
single_from lib ch dir (c ∷ d ∷ cs) off card_pa remaining e =
    let chunk_remaining = sub64 (chunk_size c) off in
    let (result, _, e1) =
      do_chunk_dma_dir lib ch card_pa (add64 c.dma_addr off) chunk_remaining dir e in
    let rest =
      single_from lib ch dir (d ∷ cs) 0 (add64 card_pa chunk_remaining)
        (sub64 remaining chunk_remaining) e1 in
    if leb remaining chunk_remaining
    then single_last lib ch dir (c ∷ d ∷ cs) off card_pa remaining e
    else if is_neg result
    then some (result, free_dma_channel ch e1)
    else rest

abbrev pub channel : MicmemCtx → DmaDir → ℕ
channel ctx host2dev = ctx.h2d_ch
channel ctx dev2host = ctx.d2h_ch

abbrev pub channel2 : MicmemCtx → DmaDir → ℕ
channel2 ctx host2dev = ctx.h2d_ch2
channel2 ctx dev2host = ctx.d2h_ch2

pub do_xfer_single :
    DmaLib → MicmemCtx → ℕ → DmaMemRange → ℕ → ℕ → DmaDir → Engine → Option (ℤ × Engine)
do_xfer_single lib ctx card_pa range offset size dir e =
    let ch = channel ctx dir in
    let e1 = hold ch e in
    let (idx, off, first_size) = find_1st_chunk range.chunks 0 offset 0 in
    if is_zero (lib.request e ch)
    then if leb (add64 off size) first_size
      then single_last lib ch dir (drop idx range.chunks) off card_pa size e1
      else single_from lib ch dir (drop idx range.chunks) off card_pa size e1
    else some (lib.request e ch, e)

-- The answer of the wait on the first channel, or else that of the wait on the second.
pub wait_both : ℤ → ℤ → ℤ
wait_both first second = if is_zero first then second else first

-- Both waits are for the cookie of the first channel; that of the second is not used.
pub xfer_dual_finish : DmaLib → ℕ → ℕ → Chunk → Chunk → ℕ → ℕ → ℕ → DmaDir → Engine → ℤ × Engine
xfer_dual_finish lib ch ch2 c d chunk_offset remaining card_pa dir e =
    let chunk_remaining = sub64 (chunk_size c) chunk_offset in
    let (result, cookie, e1) =
      do_chunk_dma_dir lib ch card_pa (add64 c.dma_addr chunk_offset) chunk_remaining dir e in
    let e2 = free_dma_channel ch e1 in
    let (result2, _, e3) =
      do_chunk_dma_dir lib ch2 (add64 card_pa chunk_remaining) d.dma_addr
        (sub64 remaining chunk_remaining) dir e2 in
    let e4 = free_dma_channel ch2 e3 in
    if is_neg result
    then (result, free_dma_channel ch2 e2)
    else if is_neg result2
    then (result2, e4)
    else (
      wait_both (wait_for_dma (lib.polls e4 ch cookie)) (wait_for_dma (lib.polls e4 ch2 cookie)),
      e4,
    )

-- The loop of `do_xfer_dual` at the chunk `i`, and the last two copies behind it.
pub dual_from :
    DmaLib → ℕ → ℕ → DmaDir → List Chunk → ℕ → ℕ → ℕ → ℕ → ℕ → Engine → Option (ℤ × Engine)
dual_from lib ch ch2 dir [] i off chunk_remaining card_pa remaining e = none
dual_from lib ch ch2 dir (c ∷ []) i off chunk_remaining card_pa remaining e = none
dual_from lib ch ch2 dir (c ∷ d ∷ []) i off chunk_remaining card_pa remaining e =
    some (xfer_dual_finish lib ch ch2 c d off remaining card_pa dir e)
dual_from lib ch ch2 dir (c ∷ d ∷ f ∷ cs) i off chunk_remaining card_pa remaining e =
    let cur_ch = if i % 2 == 0 then ch2 else ch in
    let (result, _, e1) =
      do_chunk_dma_dir lib cur_ch card_pa (add64 c.dma_addr off) chunk_remaining dir e in
    let rest =
      dual_from lib ch ch2 dir (d ∷ f ∷ cs) (suc i) 0 (chunk_size d) (add64 card_pa chunk_remaining)
        (sub64 remaining chunk_remaining) e1 in
    if leb remaining (add64 chunk_remaining (chunk_size d))
    then some (xfer_dual_finish lib ch ch2 c d off remaining card_pa dir e)
    else if is_neg result
    then some (result, free_dma_channel ch2 (free_dma_channel ch e1))
    else rest

pub do_xfer_dual :
    DmaLib → MicmemCtx → ℕ → DmaMemRange → ℕ → ℕ → DmaDir → Engine → Option (ℤ × Engine)
do_xfer_dual lib ctx card_pa range offset size dir e =
    let ch = channel ctx dir in
    let ch2 = channel2 ctx dir in
    let e1 = hold ch e in
    let e2 = hold ch2 e1 in
    let (idx, off, first_size) = find_1st_chunk range.chunks 0 offset 0 in
    if is_zero (lib.request e ch)
    then if is_zero (lib.request e1 ch2)
      then if leb (add64 off size) first_size
        then single_last lib ch dir (drop idx range.chunks) off card_pa size
            (free_dma_channel ch2 e2)
        else dual_from lib ch ch2 dir (drop idx range.chunks) idx off (sub64 first_size off) card_pa
            size e2
      else some (lib.request e1 ch2, free_dma_channel ch e1)
    else some (lib.request e ch, e)

abbrev pub micmem_auto : ℕ
micmem_auto = 0

abbrev pub micmem_single : ℕ
micmem_single = 1

abbrev pub micmem_dual : ℕ
micmem_dual = 2

pub do_xfer :
    DmaLib → MicmemCtx → ℕ → DmaMemRange → ℕ → ℕ → DmaDir → ℕ → Engine → Option (ℤ × Engine)
do_xfer lib ctx card_pa range offset size dir flags e =
    if ltb range.size (add64 offset size)
    then some (einval, e)
    else if flags == micmem_single
    then do_xfer_single lib ctx card_pa range offset size dir e
    else if flags == micmem_dual
    then do_xfer_dual lib ctx card_pa range offset size dir e
    else if flags == micmem_auto
    then do_xfer_single lib ctx card_pa range offset size dir e
    else some (einval, e)

pub micmem_dev2host :
    DmaLib → MicmemCtx → DmaMemRange → ℕ → ℕ → ℕ → ℕ → Engine → Option (ℤ × Engine)
micmem_dev2host lib ctx dest range_offset source_dev size flags e =
    do_xfer lib ctx source_dev dest range_offset size dev2host flags e

pub micmem_host2dev :
    DmaLib → MicmemCtx → ℕ → DmaMemRange → ℕ → ℕ → ℕ → Engine → Option (ℤ × Engine)
micmem_host2dev lib ctx dest_dev src range_offset size flags e =
    do_xfer lib ctx dest_dev src range_offset size host2dev flags e
