-- ===== src/Micmem/Pieces.antt =====
-- The copies that a transfer should make: one for each part of a chunk that it touches, in order.
use intel_xeon_phi_kernel_dr.Common.{
  ℕ, suc, ◌+◌, ◌-◌, ◌*◌, ◌^◌, ◌≤◌, ◌<◌, ◌≡◌, refl, ap, ◌∙◌, inl, inr, List, [], ◌∷◌, drop, subst,
  ltb, leb, Bool-cases, leb→le, ltb→lt, ltb_false→le, le→leb, lt→leb_false, leb_false→lt, lt→ltb,
  le→ltb_false, if◌then◌else◌, arith,
}
use intel_xeon_phi_kernel_dr.Micmem.{
  Chunk, DmaDir, host2dev, dev2host, Move, shift_pages, find_1st_chunk,
}

abbrev pub bytes : Chunk → ℕ
bytes c = c.num_pages * 4096

abbrev pub span : List Chunk → ℕ
span [] = 0
span (c ∷ cs) = bytes c + span cs

-- Chunks that are not empty and smaller than 2 GiB, and end below 2^64.
abbrev pub Fits : List Chunk → Type 0
Fits [] = Unit {0}
Fits (c ∷ cs) = (0 < c.num_pages) × (bytes c < 2 ^ 31) × (c.dma_addr + bytes c ≤ 2 ^ 64) × Fits cs

-- The address for the device of the byte at `x` of the range.
pub host_byte : List Chunk → ℕ → ℕ
host_byte [] x = 0
host_byte (c ∷ cs) x = if ltb x (bytes c) then c.dma_addr + x else host_byte cs (x - bytes c)

unfoldable pub move_of : DmaDir → ℕ → ℕ → ℕ → Move
move_of host2dev host card size = record { src = host; dst = card; size = size }
move_of dev2host host card size = record { src = card; dst = host; size = size }

abbrev pub host_end : DmaDir → Move → ℕ
host_end host2dev m = m.src
host_end dev2host m = m.dst

abbrev pub card_end : DmaDir → Move → ℕ
card_end host2dev m = m.dst
card_end dev2host m = m.src

-- The moves take, in order and without a gap, the `size` bytes from `x` of the host memory that
-- `host` names to or from the `size` bytes from `card` of the board.
abbrev pub Copies : (ℕ → ℕ) → DmaDir → ℕ → ℕ → ℕ → List Move → Type 0
Copies host dir card x size [] = size ≡ 0
Copies host dir card x size (m ∷ ms) =
    (0 < m.size)
    × (m.size ≤ size)
    × (card_end dir m ≡ card)
    × ((k : ℕ) → k < m.size → host_end dir m + k ≡ host (x + k))
    × Copies host dir (card + m.size) (x + m.size) (size - m.size) ms

pub plan : DmaDir → List Chunk → ℕ → ℕ → ℕ → List Move
plan dir [] off card size = []
plan dir (c ∷ cs) off card size =
    let n = bytes c - off in
    let skip = plan dir cs (off - bytes c) card size in
    let rest = plan dir cs 0 (card + n) (size - n) in
    if leb (bytes c) off
    then skip
    else if leb (off + size) (bytes c)
    then move_of dir (c.dma_addr + off) card size ∷ []
    else move_of dir (c.dma_addr + off) card n ∷ rest

pub shift_pages_lem : (n : ℕ) → n * 4096 < 2 ^ 31 → shift_pages n ≡ n * 4096
unfolding shift_pages
shift_pages_lem n h = ground arith

Copies-shift :
    (f g : ℕ → ℕ) (dir : DmaDir) (card x n size : ℕ) (ms : List Move)
    → ((y : ℕ) → f y ≡ g (y + n))
    → Copies f dir card x size ms
    → Copies g dir card (x + n) size ms
Copies-shift f g dir card x n size [] e h = h
Copies-shift f g dir card x n size (m ∷ ms) e (some_bytes, fits, at, same, rest) = (
  some_bytes,
  fits,
  at,
  λ k below. same k below ∙ e (x + k) ∙ ap g (omega arith),
  subst (λ t. Copies g dir (card + m.size) t (size - m.size) ms) (omega arith)
      (Copies-shift f g dir (card + m.size) (x + m.size) n (size - m.size) ms e rest),
)

host_byte-past :
    (c : Chunk) (cs : List Chunk) (y : ℕ) → host_byte cs y ≡ host_byte (c ∷ cs) (y + bytes c)
unfolding host_byte
host_byte-past c cs y =
    rw (le→ltb_false (y + bytes c) (bytes c) (omega arith)) (ap (host_byte cs) (omega arith))

host_byte-in :
    (c : Chunk) (cs : List Chunk) (x : ℕ) → x < bytes c → host_byte (c ∷ cs) x ≡ c.dma_addr + x
unfolding host_byte
host_byte-in c cs x h = rw (lt→ltb x (bytes c) h)

-- A move from the chunk at the head of the list, with the moves behind it.
Copies-cons :
    (dir : DmaDir) (c : Chunk) (cs : List Chunk) (card off n size : ℕ) (ms : List Move)
    → 0 < n
    → n ≤ size
    → off + n ≤ bytes c
    → Copies (host_byte (c ∷ cs)) dir (card + n) (off + n) (size - n) ms
    → Copies (host_byte (c ∷ cs)) dir card off size (move_of dir (c.dma_addr + off) card n ∷ ms)
unfolding move_of
Copies-cons host2dev c cs card off n size ms some_bytes fits inside rest = (
  some_bytes,
  fits,
  refl,
  λ k below. omega (arith, host_byte-in c cs (off + k) (omega arith)),
  rest,
)
Copies-cons dev2host c cs card off n size ms some_bytes fits inside rest = (
  some_bytes,
  fits,
  refl,
  λ k below. omega (arith, host_byte-in c cs (off + k) (omega arith)),
  rest,
)

pub plan-Copies :
    (dir : DmaDir) (cs : List Chunk) (off card size : ℕ)
    → 0 < size
    → off + size ≤ span cs
    → Copies (host_byte cs) dir card off size (plan dir cs off card size)
unfolding plan
plan-Copies dir [] off card size h inside = absurd (omega arith)
plan-Copies dir (c ∷ cs) off card size h inside = elim (Bool-cases (leb (bytes c) off)) [
  | inl e ↦
      let below : bytes c ≤ off = leb→le (bytes c) off e in
      rw e (
        subst
          (λ t. Copies (host_byte (c ∷ cs)) dir card t size (plan dir cs (off - bytes c) card size))
          (omega arith)
          (Copies-shift (host_byte cs) (host_byte (c ∷ cs)) dir card (off - bytes c) (bytes c) size
            (plan dir cs (off - bytes c) card size) (host_byte-past c cs)
            (plan-Copies dir cs (off - bytes c) card size h (omega arith))))
  | inr e ↦
      let above : off < bytes c = leb_false→lt (bytes c) off e in
      elim (Bool-cases (leb (off + size) (bytes c))) [
        | inl f ↦
            rw (e, f)
              (Copies-cons dir c cs card off size size [] h (omega arith)
                (leb→le (off + size) (bytes c) f) (omega arith))
        | inr f ↦
            let over : bytes c < off + size = leb_false→lt (off + size) (bytes c) f in
            rw (e, f)
              (Copies-cons dir c cs card off (bytes c - off) size
                (plan dir cs 0 (card + (bytes c - off)) (size - (bytes c - off))) (omega arith)
                (omega arith) (omega arith)
                (subst
                  (λ t.
                    Copies (host_byte (c ∷ cs)) dir (card + (bytes c - off)) t
                      (size - (bytes c - off))
                      (plan dir cs 0 (card + (bytes c - off)) (size - (bytes c - off))))
                  (omega arith)
                  (Copies-shift (host_byte cs) (host_byte (c ∷ cs)) dir (card + (bytes c - off)) 0
                    (bytes c) (size - (bytes c - off))
                    (plan dir cs 0 (card + (bytes c - off)) (size - (bytes c - off)))
                    (host_byte-past c cs)
                    (plan-Copies dir cs 0 (card + (bytes c - off)) (size - (bytes c - off))
                      (omega arith) (omega arith)))))
      ]
]

pub plan-last :
    (dir : DmaDir) (c : Chunk) (cs : List Chunk) (off card size : ℕ)
    → off < bytes c
    → off + size ≤ bytes c
    → plan dir (c ∷ cs) off card size ≡ move_of dir (c.dma_addr + off) card size ∷ []
unfolding plan
plan-last dir c cs off card size below inside =
    rw (lt→leb_false (bytes c) off below, le→leb (off + size) (bytes c) inside) refl

pub plan-more :
    (dir : DmaDir) (c : Chunk) (cs : List Chunk) (off card size : ℕ)
    → off < bytes c
    → bytes c < off + size
    → plan dir (c ∷ cs) off card size
      ≡ move_of dir (c.dma_addr + off) card (bytes c - off)
        ∷ plan dir cs 0 (card + (bytes c - off)) (size - (bytes c - off))
unfolding plan
plan-more dir c cs off card size below over =
    rw (lt→leb_false (bytes c) off below, lt→leb_false (off + size) (bytes c) over) refl

-- What `find_1st_chunk` finds for an offset inside the range.
pub record Found (cs : List Chunk) (i off : ℕ) (o : ℕ × ℕ × ℕ) : Type 0 where
  pub skipped : ℕ
  pub first : Chunk
  pub behind : List Chunk
  pub inner : ℕ
  pub found : o ≡ (i + skipped, inner, bytes first)
  pub from : drop skipped cs ≡ first ∷ behind
  pub below : inner < bytes first
  pub fits : Fits (first ∷ behind)
  pub left : off + span (first ∷ behind) ≡ inner + span cs
  pub inner_le : inner ≤ off
  pub same :
      (dir : DmaDir) (card size : ℕ)
      → plan dir cs off card size ≡ plan dir (first ∷ behind) inner card size

pub find_1st_chunk-Found :
    (cs : List Chunk) (i off size : ℕ)
    → Fits cs
    → off < span cs
    → Found cs i off (find_1st_chunk cs i off size)
unfolding find_1st_chunk plan
find_1st_chunk-Found [] i off size fits inside = absurd (omega arith)
find_1st_chunk-Found (c ∷ cs) i off size (some_pages, small, ends, fits) inside =
    elim (Bool-cases (ltb off (bytes c))) [
      | inl e ↦ record {
        skipped = 0;
        first = c;
        behind = cs;
        inner = off;
        found =
            rw (shift_pages_lem c.num_pages small, e) (ap (λ t. (t, off, bytes c)) (omega arith));
        from = refl;
        below = ltb→lt off (bytes c) e;
        fits = (some_pages, small, ends, fits);
        left = omega arith;
        inner_le = omega arith;
        same = λ dir card size. refl;
      }
      | inr e ↦
          let above : bytes c ≤ off = ltb_false→le off (bytes c) e in
          let rest = find_1st_chunk-Found cs (suc i) (off - bytes c) (bytes c) fits (omega arith) in
          record {
            skipped = suc rest.skipped;
            first = rest.first;
            behind = rest.behind;
            inner = rest.inner;
            found =
                rw (shift_pages_lem c.num_pages small, e)
                  (rest.found ∙ ap (λ t. (t, rest.inner, bytes rest.first)) (omega arith));
            from = rest.from;
            below = rest.below;
            fits = rest.fits;
            left = omega (arith, rest.left);
            inner_le = omega (arith, rest.inner_le);
            same = λ dir card size. rw (le→leb (bytes c) off above) (rest.same dir card size);
          }
    ]
