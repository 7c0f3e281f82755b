-- ===== src/Ports.antt =====
-- micscif/micscif_ports.c: the reservation of SCIF ports in a bit array. A 64-bit word of
-- `port_bits` is the list of its bits, lowest first; the bit instructions (bsf, btr, bts) act on one
-- bit of it. A call runs under `port_lock`, so each is one step.
pub mod Bits
pub mod Spec
pub mod Calls
pub mod Search
pub mod Blocked
pub mod Held
mod Examples
use intel_xeon_phi_kernel_dr.Common.{
  ℕ, ◌+◌, ◌-◌, ◌*◌, ◌/◌, ◌%◌, ◌^◌, Bool, true, false, not, ◌&&◌, List, [], ◌∷◌, get_or, set, drop,
  replicate, ltb, leb, ◌==◌, if◌then◌else◌,
}

abbrev pub Word : Type 0
Word = List Bool

abbrev pub scif_port_rsvd : ℕ
scif_port_rsvd = 1088

abbrev pub ports_array_size : ℕ
ports_array_size = 1024

abbrev pub bits_pr_port : ℕ
bits_pr_port = 64

-- The static data of the file. SCIF_PORT_BASE is 0.
pub record Ports : Type 0 where
  pub init_array : Bool
  pub first_free : ℕ
  pub port_bits : List Word
  pub port_rsvd : ℕ
  pub port_free : ℕ
  pub port_err : ℕ

abbrev pub u16 : ℕ → ℕ
u16 n = n % 2 ^ 16

abbrev pub incr : ℕ → ℕ
incr n = (n + 1) % 2 ^ 64

-- The first set bit of a word, from 1, or 0.
pub ffs : Word → ℕ
ffs [] = 0
ffs (b ∷ bs) = let rest = ffs bs in if b then 1 else if rest == 0 then 0 else rest + 1

pub scif_ffsclr : Word → ℕ × Word
scif_ffsclr word =
    let bit = ffs word in if bit == 0 then (0, word) else (bit, set word (bit - 1) false)

pub scif_clrbit : Word → ℕ → ℕ × Word
scif_clrbit word bit = (if get_or word (bit - 1) false then bit else 0, set word (bit - 1) false)

pub scif_setbit : Word → ℕ → Word
scif_setbit word bit = set word (bit - 1) true

-- `port_bits[0] ^= 1`
flip_first : List Word → List Word
flip_first [] = []
flip_first ([] ∷ ws) = [] ∷ ws
flip_first ((b ∷ bs) ∷ ws) = (not b ∷ bs) ∷ ws

-- `for (i = 0; i < n; i++) port_bits[i] = ~0`
all_ones : ℕ → List Word
all_ones n = replicate n (replicate bits_pr_port true)

pub init_scif_array : Ports → Ports
init_scif_array st =
    if st.init_array
    then record st {
      port_bits = flip_first (all_ones ports_array_size);
      first_free = scif_port_rsvd / bits_pr_port;
      port_rsvd = 0;
      port_free = 0;
      port_err = 0;
      init_array = false;
    }
    else st

-- `!word`
pub is_zero : Word → Bool
is_zero [] = true
is_zero (b ∷ bs) = not b && is_zero bs

-- `while (first_free < PORTS_ARRAY_SIZE && !port_bits[first_free]) first_free++`, over the words from
-- `first_free` on.
pub skip_zero : List Word → ℕ → ℕ
skip_zero [] n = n
skip_zero (w ∷ ws) n = let rest = skip_zero ws (n + 1) in if is_zero w then rest else n

pub word_at : Ports → ℕ → Word
word_at st i = get_or st.port_bits i []

pub rsrv_scif_port : ℕ → Ports → ℕ × Ports
rsrv_scif_port port st =
    let s = init_scif_array st in
    let port_ix = port / bits_pr_port in
    let (bit, word) = scif_clrbit (word_at s port_ix) (1 + port % bits_pr_port) in
    let t = record s { port_bits = set s.port_bits port_ix word } in
    if port == 0
    then (0, record st { port_err = incr st.port_err })
    else if bit == 0
    then (0, record t { port_err = incr t.port_err })
    else (u16 (bit - 1 + bits_pr_port * port_ix), record t { port_rsvd = incr t.port_rsvd })

pub get_scif_port : Ports → ℕ × Ports
get_scif_port st =
    let s = init_scif_array st in
    let (bit, word) = scif_ffsclr (word_at s s.first_free) in
    let bits = set s.port_bits s.first_free word in
    if s.first_free == ports_array_size
    then (0, record s { port_err = incr s.port_err })
    else if bit == 0
    then (0, record s { port_err = incr s.port_err })
    else (
      u16 (bit - 1 + bits_pr_port * s.first_free),
      record s {
        port_bits = bits;
        first_free = skip_zero (drop s.first_free bits) s.first_free;
        port_rsvd = incr s.port_rsvd;
      },
    )

pub put_scif_port : ℕ → Ports → Ports
put_scif_port port st =
    let port_ix = port / bits_pr_port in
    if port == 0 then record st { port_err = incr st.port_err } else record st {
      port_bits =
          set st.port_bits port_ix (scif_setbit (word_at st port_ix) (1 + port % bits_pr_port));
      first_free =
          if leb scif_port_rsvd port && ltb port_ix st.first_free then port_ix else st.first_free;
      port_free = incr st.port_free;
    }
