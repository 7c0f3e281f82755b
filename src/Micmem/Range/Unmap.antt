-- ===== src/Micmem/Range/Unmap.antt =====
-- Mapping and unmapping of pinned pages: what is mapped is given back, and how many pages a range has.
use mathlib.Core.List.{append-nil, append_assoc}
use intel_xeon_phi_kernel_dr.Common.{
  ℕ, zero, suc, ◌+◌, ◌*◌, ◌/◌, ◌^◌, ◌<◌, ◌≡◌, ◌≢◌, refl, sym, ap, ◌∙◌, subst, inl, inr, Bool, false,
  some, List, [], ◌∷◌, ◌++◌, ◌&&◌, get_elem?, ltb, ◌==◌, ==_iff, Bool-cases, Option-cases,
  if◌then◌else◌, arith, leb,
}
use intel_xeon_phi_kernel_dr.Common.Int.{ℤ, pos}
use intel_xeon_phi_kernel_dr.Micmem.{Chunk, einval, is_neg}
use intel_xeon_phi_kernel_dr.Micmem.Pieces.{bytes, shift_pages_lem}
use intel_xeon_phi_kernel_dr.Micmem.Range.Turns.{
  skip, stop, more, coalesce-Turn, chunk_at-num_pages,
}
use intel_xeon_phi_kernel_dr.Micmem.Range.{
  PinnedPages, Mapping, MapSingle, Mapped, first_addr, pages_to_map, enomem, mapped_size,
  do_map_virt_into_aperture, do_unmap_from_aperture, range_add_chunk, coalesce,
  init_coalesce_range_pages, do_unmap_range_pages, MapAnswer, mapped_range, failed, map_answer,
  do_map_range_pages, micmem_map_range, micmem_unmap_range,
}

abbrev is_mapping : Mapping → Mapping → ℕ
is_mapping (a, s) (b, t) = if a == b && s == t then 1 else 0

count : Mapping → List Mapping → ℕ
count x [] = 0
count x (y ∷ ys) = is_mapping x y + count x ys

abbrev key : Chunk → Mapping
key c = (c.dma_addr, bytes c)

keys : List Chunk → List Mapping
keys [] = []
keys (c ∷ cs) = key c ∷ keys cs

-- Chunks that were mapped: an address, and a size below 2 GiB.
abbrev IsMapped : List Chunk → Type 0
IsMapped [] = Unit {0}
IsMapped (c ∷ cs) = (c.dma_addr ≢ 0) × (bytes c < 2 ^ 31) × IsMapped cs

-- The entry is taken out of the part of the list that has it.
unmap-append :
    (a s : ℕ) (ys ms : List Mapping)
    → 0 < count (a, s) ys
    → do_unmap_from_aperture a s (ys ++ ms) ≡ do_unmap_from_aperture a s ys ++ ms
unfolding do_unmap_from_aperture count
unmap-append a s [] ms h = absurd (omega arith)
unmap-append a s ((b, t) ∷ ys) ms h = ground (arith, unmap-append a s ys ms)

count-unmap :
    (a s : ℕ) (x : Mapping) (ys : List Mapping)
    → 0 < count (a, s) ys
    → count x (do_unmap_from_aperture a s ys) + is_mapping x (a, s) ≡ count x ys
unfolding do_unmap_from_aperture count
count-unmap a s (c, u) [] h = absurd (omega arith)
count-unmap a s (c, u) ((b, t) ∷ ys) h = ground (arith, count-unmap a s (c, u) ys)

none_left : (ys : List Mapping) → ((x : Mapping) → count x ys ≡ 0) → ys ≡ []
unfolding count
none_left [] h = refl
none_left ((a, s) ∷ ys) h = absurd (ground (arith, h (a, s)))

-- Unmapping the chunks takes exactly their entries, wherever they stand in front of `ms`.
unmap_all :
    (cs : List Chunk) (ys ms : List Mapping)
    → IsMapped cs
    → ((x : Mapping) → count x ys ≡ count x (keys cs))
    → do_unmap_range_pages cs (ys ++ ms) ≡ ms
unfolding do_unmap_range_pages keys count
unmap_all [] ys ms m same = ap (λ t. t ++ ms) (none_left ys same)
unmap_all (c ∷ cs) ys ms (there, small, rest) same =
    rw
      (
        has_address,
        shift_pages_lem c.num_pages small,
        unmap-append c.dma_addr (bytes c) ys ms present,
      )
      (unmap_all cs (do_unmap_from_aperture c.dma_addr (bytes c) ys) ms rest
        (λ x. omega (arith, count-unmap c.dma_addr (bytes c) x ys present, same x)))
  where
    has_address : (c.dma_addr == 0) ≡ false
    has_address = ground arith

    present : 0 < count (c.dma_addr, bytes c) ys
    present = ground (arith, same (c.dma_addr, bytes c))

-- What a call has added to a range and to the mappings.
record Grown (chunks : List Chunk) (mapped : List Mapping) (m : Mapped) : Type 0 where
  added : List Chunk
  entries : List Mapping
  chunks_after : m.chunks ≡ chunks ++ added
  mapped_after : m.mapped ≡ entries ++ mapped
  counted : (x : Mapping) → count x entries ≡ count x (keys added)
  each : IsMapped added

Grown-none :
    (chunks : List Chunk) (mapped : List Mapping) (err : ℤ)
    → Grown chunks mapped (record { err = err; chunks = chunks; mapped = mapped })
unfolding keys count
Grown-none chunks mapped err = record {
  added = [];
  entries = [];
  chunks_after = sym (append-nil chunks);
  mapped_after = refl;
  counted = λ x. refl;
  each = tt;
}

-- `range_add_chunk` fails and changes nothing, or adds one chunk with its entry.
pub data Adding (chunks : List Chunk) (pages : ℕ) (mapped : List Mapping) : Mapped → Type 0 where
  no_room :
      {m : Mapped}
      → m ≡ record { err = enomem; chunks = chunks; mapped = mapped }
      → Adding chunks pages mapped m
  added_one :
      {m : Mapped} (c : Chunk)
      → c.dma_addr ≢ 0
      → c.num_pages ≡ pages
      → m ≡ record { err = pos 0; chunks = chunks ++ c ∷ []; mapped = key c ∷ mapped }
      → Adding chunks pages mapped m

pub range_add_chunk-Adding :
    (map_single : MapSingle) (chunks : List Chunk) (addr pages : ℕ) (mapped : List Mapping)
    → pages * 4096 < 2 ^ 31
    → Adding chunks pages mapped (range_add_chunk map_single chunks addr pages mapped)
unfolding range_add_chunk do_map_virt_into_aperture
range_add_chunk-Adding map_single chunks addr pages mapped small =
    rw (size_eq, range_add_chunk)
      (elim (Bool-cases (address == 0)) [
        | inl z ↦ no_room (rw z refl)
        | inr z ↦
            added_one (record { dma_addr = address; num_pages = pages })
              (λ e. cc ((==_iff address 0).1 e)) refl (rw z refl)
      ])
  where
    size_eq : mapped_size pages ≡ pages * 4096
    size_eq = omega arith

    address : ℕ
    address = map_single mapped addr (pages * 4096)

-- Chunks below 2 GiB.
abbrev pub SmallChunks : PinnedPages → Type 0
SmallChunks p = (i n : ℕ) → get_elem? p.num_pages i ≡ some n → n * 4096 < 2 ^ 31

Grown-next :
    (chunks : List Chunk) (mapped : List Mapping) (c : Chunk) (m : Mapped)
    → c.dma_addr ≢ 0
    → bytes c < 2 ^ 31
    → Grown (chunks ++ c ∷ []) (key c ∷ mapped) m
    → Grown chunks mapped m
unfolding keys count
Grown-next chunks mapped c m there small g = record {
  added = c ∷ g.added;
  entries = g.entries ++ key c ∷ [];
  chunks_after = g.chunks_after ∙ append_assoc chunks (c ∷ []) g.added;
  mapped_after = g.mapped_after ∙ sym (append_assoc g.entries (key c ∷ []) mapped);
  counted = λ x. omega (arith, count-snoc x g.entries (key c), g.counted x);
  each = (there, small, g.each);
}
  where
    count-snoc :
        (x : Mapping) (ys : List Mapping) (y : Mapping)
        → count x (ys ++ y ∷ []) ≡ count x ys + is_mapping x y
    count-snoc x [] y = omega arith
    count-snoc x (z ∷ ys) y = omega (arith, count-snoc x ys y)

-- Giving up what an answer holds.
pub unmap_answer : MapAnswer → List Mapping → List Mapping
unmap_answer (mapped_range r) mapped = micmem_unmap_range r mapped
unmap_answer (failed err) mapped = mapped

coalesce-Grown :
    (map_single : MapSingle) (p : PinnedPages) (first last : ℕ)
    → SmallChunks p
    → (rounds i : ℕ) (chunks : List Chunk) (mapped : List Mapping) (m : Mapped)
    → coalesce map_single p first last rounds i chunks mapped ≡ some m
    → Grown chunks mapped m
unfolding coalesce
coalesce-Grown map_single p first last small zero i chunks mapped m h =
    let e : record { err = pos 0; chunks = chunks; mapped = mapped } ≡ m = cc in
    subst (Grown chunks mapped) e (Grown-none chunks mapped (pos 0))
coalesce-Grown map_single p first last small (suc rounds) i chunks mapped m h =
    elim (coalesce-Turn map_single p first last rounds i chunks mapped m h) [
      | skip page n at past rest ↦
          coalesce-Grown map_single p first last small rounds (i + n) chunks mapped m rest
      | stop page n at inside e reason ↦
          subst (Grown chunks mapped) e
            (Grown-one page n (small i n (chunk_at-num_pages p i page n at)))
      | more page n at inside clear not_last rest ↦
          Grown-more page n (small i n (chunk_at-num_pages p i page n at)) clear (
            coalesce-Grown map_single p first last small rounds (i + pages_to_map last i n)
              (one page n).chunks (one page n).mapped m rest)
    ]
  where
    one : ℕ → ℕ → Mapped
    one page n =
        range_add_chunk map_single chunks (first_addr first i page) (pages_to_map last i n) mapped

    few : (n : ℕ) → n * 4096 < 2 ^ 31 → pages_to_map last i n * 4096 < 2 ^ 31
    few n h = ground arith

    adding :
        (page n : ℕ) → n * 4096 < 2 ^ 31 → Adding chunks (pages_to_map last i n) mapped (one page n)
    adding page n h =
        range_add_chunk-Adding map_single chunks (first_addr first i page) (pages_to_map last i n)
          mapped (few n h)

    Grown-one : (page n : ℕ) → n * 4096 < 2 ^ 31 → Grown chunks mapped (one page n)
    Grown-one page n h = elim (adding page n h) [
      | no_room e ↦ subst (Grown chunks mapped) (sym e) (Grown-none chunks mapped enomem)
      | added_one c there pages e ↦ subst (Grown chunks mapped) (sym e) (
          Grown-next chunks mapped c _ there (omega (arith, few n h))
            (Grown-none (chunks ++ c ∷ []) (key c ∷ mapped) (pos 0)))
    ]

    Grown-more :
        (page n : ℕ)
        → n * 4096 < 2 ^ 31
        → is_neg (one page n).err ≡ false
        → Grown (one page n).chunks (one page n).mapped m
        → Grown chunks mapped m
    Grown-more page n h clear g = elim (adding page n h) [
      | no_room e ↦ absurd (ground (arith, ap (λ t. is_neg t.err) e))
      | added_one c there pages e ↦
          Grown-next chunks mapped c m there (omega (arith, few n h))
            (subst (λ t. Grown t.chunks t.mapped m) e g)
    ]

Grown-unmapped :
    (mapped : List Mapping) (m : Mapped)
    → Grown [] mapped m
    → do_unmap_range_pages m.chunks m.mapped ≡ mapped
Grown-unmapped mapped m g =
    rw (g.chunks_after, g.mapped_after) (unmap_all g.added g.entries mapped g.each g.counted)

map_answer-unmapped :
    (len : ℕ) (mapped : List Mapping) (m : Mapped)
    → Grown [] mapped m
    → unmap_answer (map_answer len m).0 (map_answer len m).1 ≡ mapped
unfolding map_answer unmap_answer micmem_unmap_range
map_answer-unmapped len mapped m g = elim (Bool-cases (is_neg m.err)) [
  | inl n ↦ rw n (Grown-unmapped mapped m g)
  | inr n ↦ rw n (Grown-unmapped mapped m g)
]

init_coalesce_range_pages-Grown :
    (map_single : MapSingle) (p : PinnedPages) (offset len : ℕ) (mapped : List Mapping) (m : Mapped)
    → SmallChunks p
    → init_coalesce_range_pages map_single p offset len mapped ≡ some m
    → Grown [] mapped m
unfolding init_coalesce_range_pages
init_coalesce_range_pages-Grown map_single p offset len mapped m small h =
    let last_page = offset / 4096 + len / 4096 in
    elim (Bool-cases (leb (2 ^ 31) last_page)) [
      | inl large ↦ absurd (ground (arith, large))
      | inr small_pages ↦ elim (Bool-cases (ltb p.nr_pages last_page)) [
        | inl past ↦
            subst (Grown [] mapped) (ground (arith, small_pages, past))
              (Grown-none [] mapped einval)
        | inr inside ↦
            coalesce-Grown map_single p (offset / 4096) last_page small p.nr_contig_chunks 0 []
              mapped m (ground (arith, small_pages, inside))
      ]
    ]

-- Where all pinned chunks are below 2 GiB, whatever `mic_map_single` answers: when
-- `micmem_map_range` fails, at whatever chunk, it leaves the mappings for the device as they were;
-- when it gives a range, `micmem_unmap_range` of that range does.
pub micmem_unmap_range-micmem_map_range :
    (map_single : MapSingle) (memory : Bool) (p : PinnedPages) (offset len : ℕ)
    (mapped mapped' : List Mapping) (answer : MapAnswer)
    → SmallChunks p
    → micmem_map_range map_single memory p offset len mapped ≡ some (answer, mapped')
    → unmap_answer answer mapped' ≡ mapped
unfolding micmem_map_range do_map_range_pages unmap_answer
micmem_unmap_range-micmem_map_range map_single memory p offset len mapped mapped' answer small h =
    elim (Option-cases (init_coalesce_range_pages map_single p offset len mapped)) [
      | inl none_there ↦ ground (arith, none_there)
      | inr (m, e) ↦ ground (
        arith,
        e,
        map_answer-unmapped len mapped m
            (init_coalesce_range_pages-Grown map_single p offset len mapped m small e),
      )
    ]
