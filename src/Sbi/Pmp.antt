-- ===== src/Sbi/Pmp.antt =====
-- The physical memory protection that src/arch/src/riscv64/sbi/hart_csr_utils.rs reads and prints.
pub mod Ports
pub mod Napot
pub mod Lines
use upstream_oreboot.Prelude.{
  ℕ, zero, suc, ◌+◌, ◌-◌, ◌*◌, ◌/◌, ◌%◌, ◌^◌, Bool, true, false, not, ◌&&◌,
}
use upstream_oreboot.Prelude.{
  Option, none, some, List, [], ◌∷◌, ◌++◌, ltb, leb, ◌==◌, if◌then◌else◌,
}
use upstream_oreboot.Prelude.{u64, ◌<<<◌, ◌>>>◌, bit_and, bit_or}
use upstream_oreboot.Sbi.Riscv.{Hart}

abbrev pub pmp_count : ℕ
pmp_count = 16

abbrev pub pmp_shift : ℕ
pmp_shift = 2

abbrev pub pmp_r : ℕ
pmp_r = 0x01

abbrev pub pmp_w : ℕ
pmp_w = 0x02

abbrev pub pmp_x : ℕ
pmp_x = 0x04

abbrev pub pmp_a : ℕ
pmp_a = 0x18

abbrev pub pmp_a_tor : ℕ
pmp_a_tor = 0x08

abbrev pub pmp_a_napot : ℕ
pmp_a_napot = 0x18

abbrev pub pmp_l : ℕ
pmp_l = 0x80

-- `usize::MAX`, and `!x` on 64 bits.
abbrev pub usize_max : ℕ
usize_max = 2 ^ 64 - 1

abbrev pub bit_not : ℕ → ℕ
bit_not x = usize_max - x

-- The loop of `ctz`, with `fuel` rounds at most; `none` means that they were not enough.
unfoldable pub ctz_loop : ℕ → ℕ → ℕ → Option ℕ
ctz_loop zero x ret = none
ctz_loop (suc fuel) x ret =
    let rest = ctz_loop fuel (x >>> 1) (ret + 1) in if bit_and x 1 == 0 then some ret else rest

-- A 64-bit word has at most 64 ones to shift out.
unfoldable pub ctz : ℕ → Option ℕ
ctz x = ctz_loop 65 x 0

abbrev pub pmpcfg0 : ℕ
pmpcfg0 = 0x3a0

abbrev pub pmpcfg2 : ℕ
pmpcfg2 = 0x3a2

-- `pmpaddr0` to `pmpaddr15` are consecutive CSRs; the `match` gives 0 for any other index.
abbrev pub pmpaddr : Hart → ℕ → ℕ
pmpaddr h n = if ltb n 16 then h.csr (0x3b0 + n) else 0

-- The configuration byte that is read for entry `n`.
unfoldable pub pmp_port : Hart → ℕ → ℕ
pmp_port h n =
    let pmpcfg_shift = bit_and n 7 <<< 3 in
    let cfgmask = u64 (0xff <<< pmpcfg_shift) in
    let pmpcfg = bit_and (if leb n 8 then h.csr pmpcfg0 else h.csr pmpcfg2) cfgmask in
    pmpcfg >>> pmpcfg_shift

pub record PmpEntry : Type 0 where
  pub port : ℕ
  pub addr : ℕ
  pub log2len : ℕ

-- The entry for a counted length; a count is always there, for `ctz` ends.
abbrev pub napot_range : ℕ → ℕ → Option ℕ → Option PmpEntry
napot_range port addr none = none
napot_range port addr (some t1) = some (record {
  port = port;
  addr = u64 (bit_and addr (bit_not (u64 (1 <<< t1) - 1)) <<< pmp_shift);
  log2len = t1 + pmp_shift + 1;
})

-- The base and the size of a NAPOT entry, from its address word with the low nine bits set.
unfoldable pub napot_entry : ℕ → ℕ → Option PmpEntry
napot_entry port addr =
    if addr == usize_max
    then some (record { port = port; addr = 0; log2len = 64 })
    else napot_range port addr (ctz (bit_not addr))

unfoldable pub pmp_get : Hart → ℕ → Option PmpEntry
pmp_get h n =
    let port = pmp_port h n in
    let addr = pmpaddr h n in
    if leb pmp_count n
    then none
    else if bit_and port pmp_a == pmp_a_napot
    then napot_entry port (bit_or addr 0x1ff)
    else some (record { port = port; addr = u64 (addr <<< pmp_shift); log2len = pmp_shift })

-- A printed line: the index, whether the form for TOR is used, the two bounds, and the flags.
pub record PmpLine : Type 0 where
  pub index : ℕ
  pub is_tor : Bool
  pub low : ℕ
  pub high : ℕ
  pub locked : Bool
  pub readable : Bool
  pub writable : Bool
  pub executable : Bool

abbrev pub size_of : ℕ → ℕ
size_of log2len = if ltb log2len 64 then u64 (1 <<< log2len) else 0

-- The start of a TOR range: the address before, or 0.
abbrev pub previous_pmpaddr : Hart → ℕ → ℕ
previous_pmpaddr h zero = 0
previous_pmpaddr h (suc i) = pmpaddr h i

unfoldable pub pmp_line : Hart → ℕ → PmpEntry → PmpLine
pmp_line h i e =
    let is_tor = bit_and e.port pmp_a_tor == pmp_a_tor in
    record {
      index = i;
      is_tor = is_tor;
      low = if is_tor then u64 (previous_pmpaddr h i <<< pmp_shift) else e.addr;
      high = if is_tor then e.addr else u64 (e.addr + size_of e.log2len + usize_max);
      locked = not (bit_and e.port pmp_l == 0);
      readable = not (bit_and e.port pmp_r == 0);
      writable = not (bit_and e.port pmp_w == 0);
      executable = not (bit_and e.port pmp_x == 0);
    }

-- What one round prints: nothing for an entry that is off.
abbrev pub entry_lines : Hart → ℕ → Option PmpEntry → List PmpLine
entry_lines h i none = []
entry_lines h i (some e) = if bit_and e.port pmp_a == 0 then [] else pmp_line h i e ∷ []

unfoldable pub pmp_round : Hart → ℕ → List PmpLine
pmp_round h i = entry_lines h i (pmp_get h i)

-- The loop over `i..i + n`.
unfoldable pub pmp_rounds : Hart → ℕ → ℕ → List PmpLine
pmp_rounds h zero i = []
pmp_rounds h (suc n) i = pmp_round h i ++ pmp_rounds h n (i + 1)

unfoldable pub print_hart_pmp : Hart → List PmpLine
print_hart_pmp h = pmp_rounds h pmp_count 0
