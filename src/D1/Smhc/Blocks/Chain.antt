-- ===== src/D1/Smhc/Blocks/Chain.antt =====
-- The chain of descriptors, as the DMA controller walks it.
use upstream_oreboot.Prelude.{
  ℕ, zero, suc, ◌+◌, ◌-◌, ◌*◌, ◌/◌, ◌%◌, ◌^◌, ◌≤◌, ◌<◌, ◌≡◌, refl, sym, ap, ◌∙◌, arith, ◌⊎◌, inl,
  inr,
}
use mathlib.Core.Path.{subst}
use upstream_oreboot.Prelude.{
  Bool, true, false, not, Option, none, some, List, [], ◌∷◌, ◌==◌, if◌then◌else◌,
}
use upstream_oreboot.Prelude.{bit_and, u32, ◌>>>◌, length, get_or, set}
use upstream_oreboot.Prelude.{length-set, get_or-set_self, get_or-set_ne}
use upstream_oreboot.D1.Smhc.Idmac.{Descriptor, Prepared, try_from, is_owned, next_word}
use upstream_oreboot.D1.Smhc.Host.{Host, Outcome, pure, and_then}
use upstream_oreboot.D1.Smhc.Commands.{Proto}
use upstream_oreboot.D1.Smhc.Blocks.{
  descriptor_size, zero_descriptor, map_err, block_config, chain_loop, blocks_to_descriptors,
}

-- The controller's walk: from the descriptor at `addr`, which it must own, to the one whose bit
-- 2 marks the end, a list of the addresses and sizes that it transfers.
abbrev add_entry : Bool → ℕ × ℕ → Option (List (ℕ × ℕ)) → Option (List (ℕ × ℕ))
add_entry true entry next = some (entry ∷ [])
add_entry false entry none = none
add_entry false entry (some entries) = some (entry ∷ entries)

abbrev is_last : Descriptor → Bool
is_last d = not (bit_and d.des0 4 == 0)

abbrev visit : Descriptor → Option (List (ℕ × ℕ)) → Option (List (ℕ × ℕ))
visit d next = if is_owned d then add_entry (is_last d) (d.des2 * 4, d.des1) next else none

unfoldable pub walk : (ℕ → Descriptor) → ℕ → ℕ → Option (List (ℕ × ℕ))
walk memory zero addr = none
walk memory (suc fuel) addr = visit (memory addr) (walk memory fuel ((memory addr).des3 * 4))

-- A table of descriptors in memory.
abbrev pub in_memory : ℕ → List Descriptor → ℕ → Descriptor
in_memory table ds addr = get_or ds ((addr - table) / descriptor_size) zero_descriptor

-- `count` blocks of 512 bytes, from block `i` on, in order and without a gap.
abbrev pub blocks_from : ℕ → ℕ → ℕ → List (ℕ × ℕ)
blocks_from buffer i zero = []
blocks_from buffer i (suc count) = (buffer + i * 512, 512) ∷ blocks_from buffer (suc i) count

eq_or_above : (i j : ℕ) → i ≤ j → (i ≡ j) ⊎ (suc i ≤ j)
eq_or_above i j h = omega arith

flags : Bool → Bool → ℕ
flags true true = 0x8000001c
flags true false = 0x80000018
flags false true = 0x80000014
flags false false = 0x80000010

entry : Bool → Bool → ℕ → Option ℕ → Descriptor
entry first last addr next = record {
  des0 = flags first last;
  des1 = 512;
  des2 = u32 addr >>> 2;
  des3 = next_word next;
}

word_address : (addr : ℕ) → addr % 4 ≡ 0 → addr < 2 ^ 32 → (u32 addr >>> 2) * 4 ≡ addr
word_address addr aligned fits = omega arith

visit-entry :
    (first last : Bool) (addr : ℕ) (next : Option ℕ) (others : Option (List (ℕ × ℕ)))
    → addr % 4 ≡ 0
    → addr < 2 ^ 32
    → visit (entry first last addr next) others ≡ add_entry last (addr, 512) others
unfolding entry flags is_owned
visit-entry true true addr next others h l =
    ap (λ (a : ℕ). some ((a, 512) ∷ [])) (word_address addr h l)
visit-entry true false addr next others h l =
    ap (λ (a : ℕ). add_entry false (a, 512) others) (word_address addr h l)
visit-entry false true addr next others h l =
    ap (λ (a : ℕ). some ((a, 512) ∷ [])) (word_address addr h l)
visit-entry false false addr next others h l =
    ap (λ (a : ℕ). add_entry false (a, 512) others) (word_address addr h l)

module _ (proto : Proto) (sized : proto.block_len ≡ 512) where
  try_from-entry :
      (first last : Bool) (addr : ℕ) (next : Option ℕ)
      → try_from (block_config proto first last addr next)
        ≡ Prepared.ok (entry first last addr next)
  unfolding try_from entry flags
  try_from-entry true true addr next = rw sized refl
  try_from-entry true false addr next = rw sized refl
  try_from-entry false true addr next = rw sized refl
  try_from-entry false false addr next = rw sized refl

  module _ (buffer table : ℕ) where
    link : ℕ → Descriptor
    link i =
        entry (i == 0) false (buffer + i * proto.block_len) (some (table + suc i * descriptor_size))

    final : ℕ → Descriptor
    final i = entry (i == 0) true (buffer + i * proto.block_len) none

    fill : ℕ → ℕ → List Descriptor → List Descriptor
    fill zero i ds = ds
    fill (suc remaining) i ds = fill remaining (suc i) (set ds i (link i))

    chain_loop-fill :
        (remaining i : ℕ) (ds : List Descriptor) (h : Host)
        → chain_loop proto buffer table remaining i ds h ≡ Outcome.done (fill remaining i ds) h
    unfolding chain_loop fill link
    chain_loop-fill zero i ds h = refl
    chain_loop-fill (suc remaining) i ds h =
        ap
          (λ r.
            and_then (map_err r h)
              (λ d. chain_loop proto buffer table remaining (suc i) (set ds i d)))
          (try_from-entry (i == 0) false (buffer + i * proto.block_len)
            (some (table + suc i * descriptor_size)))
        ∙ chain_loop-fill remaining (suc i) (set ds i (link i)) h

    blocks_to_descriptors-fill :
        (n : ℕ) (ds : List Descriptor) (h : Host)
        → blocks_to_descriptors proto buffer table (suc n) ds h
          ≡ Outcome.done (set (fill n 0 ds) n (final n)) h
    unfolding blocks_to_descriptors final
    blocks_to_descriptors-fill n ds h =
        let one_less : suc n - 1 ≡ n = omega arith in
        rw (one_less, chain_loop-fill n 0 ds h)
          (ap (λ r. and_then (map_err r h) (λ d. pure (set (fill n 0 ds) n d)))
            (try_from-entry (n == 0) true (buffer + n * proto.block_len) none))

    -- Behind the check of the size, the descriptors are prepared.
    pub blocks_to_descriptors_returns :
        (n : ℕ) (ds : List Descriptor) (h : Host)
        → (filled : List Descriptor) × (blocks_to_descriptors proto buffer table (suc n) ds h
            ≡ Outcome.done filled h)
    blocks_to_descriptors_returns n ds h =
        (set (fill n 0 ds) n (final n), blocks_to_descriptors-fill n ds h)

    length-fill : (n i : ℕ) (ds : List Descriptor) → length (fill n i ds) ≡ length ds
    unfolding fill
    length-fill zero i ds = refl
    length-fill (suc n) i ds = length-fill n (suc i) (set ds i (link i)) ∙ length-set ds i (link i)

    fill_below :
        (n i j : ℕ) (ds : List Descriptor)
        → j < i
        → get_or (fill n i ds) j zero_descriptor ≡ get_or ds j zero_descriptor
    unfolding fill
    fill_below zero i j ds h = refl
    fill_below (suc n) i j ds h =
        fill_below n (suc i) j (set ds i (link i)) (omega arith)
        ∙ get_or-set_ne ds i j (link i) zero_descriptor (omega arith)

    fill_at :
        (n i j : ℕ) (ds : List Descriptor)
        → i ≤ j
        → j < i + n
        → i + n ≤ length ds
        → get_or (fill n i ds) j zero_descriptor ≡ link j
    unfolding fill
    fill_at zero i j ds low high fits = absurd (omega arith)
    fill_at (suc n) i j ds low high fits = elim (eq_or_above i j low) [
      | inl same ↦
          fill_below n (suc i) j (set ds i (link i)) (omega arith)
          ∙ ap (λ (k : ℕ). get_or (set ds i (link i)) k zero_descriptor) (sym same)
          ∙ get_or-set_self ds i (link i) zero_descriptor (omega arith)
          ∙ ap link same
      | inr above ↦
          fill_at n (suc i) j (set ds i (link i)) above (omega arith)
            (omega (arith, length-set ds i (link i)))
    ]

    module _ (aligned : table % 4 ≡ 0) (table_fits : table + 256 ≤ 2 ^ 32)
        (even : buffer % 4 ≡ 0) where
      at :
          (i : ℕ) (ds : List Descriptor)
          → in_memory table ds (table + i * 16) ≡ get_or ds i zero_descriptor
      at i ds =
          let index : (table + i * 16 - table) / descriptor_size ≡ i = omega arith in
          ap (λ (j : ℕ). get_or ds j zero_descriptor) index

      next_address : (i : ℕ) → i < 15 → (link i).des3 * 4 ≡ table + suc i * 16
      unfolding link entry
      next_address i h = omega arith

      visit_block :
          (i : ℕ) (last : Bool) (next : Option ℕ) (others : Option (List (ℕ × ℕ)))
          → buffer + suc i * 512 ≤ 2 ^ 32
          → visit (entry (i == 0) last (buffer + i * proto.block_len) next) others
            ≡ add_entry last (buffer + i * 512, 512) others
      visit_block i last next others fits =
          ap (λ (b : ℕ). visit (entry (i == 0) last (buffer + i * b) next) others) sized
          ∙ visit-entry (i == 0) last (buffer + i * 512) next others (omega arith) (omega arith)

      -- From descriptor `i` on, the walk passes over `k` links and ends.
      walk_links :
          (k i : ℕ) (ds : List Descriptor)
          → i + k < 16
          → buffer + (i + suc k) * 512 ≤ 2 ^ 32
          → ((j : ℕ) → i ≤ j → j < i + k → get_or ds j zero_descriptor ≡ link j)
          → get_or ds (i + k) zero_descriptor ≡ final (i + k)
          → walk (in_memory table ds) (suc k) (table + i * 16) ≡ some (blocks_from buffer i (suc k))
      unfolding walk final link
      walk_links zero i ds few fits links last =
          let only : i + 0 ≡ i = omega arith in
          ap (λ d. visit d none)
            (at i ds
              ∙ ap (λ (j : ℕ). get_or ds j zero_descriptor) (sym only)
              ∙ last
              ∙ ap final only)
          ∙ visit_block i true none none (omega arith)
      walk_links (suc k) i ds few fits links last =
          ap (λ d. visit d (walk (in_memory table ds) (suc k) (d.des3 * 4)))
            (at i ds ∙ links i (omega arith) (omega arith))
          ∙ ap (λ (a : ℕ). visit (link i) (walk (in_memory table ds) (suc k) a))
              (next_address i (omega arith))
          ∙ ap (visit (link i)) (
              walk_links k (suc i) ds (omega arith) (omega arith)
                (λ j low high. links j (omega arith) (omega arith))
                (let shift : suc i + k ≡ i + suc k = omega arith in rw shift last))
          ∙ visit_block i false (some (table + suc i * descriptor_size))
              (some (blocks_from buffer (suc i) (suc k))) (omega arith)

      -- For 1 to 16 blocks of 512 bytes, in a buffer and with a table of 16 descriptors that are
      -- aligned to words below 4 GiB, the descriptors are prepared without an error, and the
      -- controller's walk from the first one transfers the blocks in order and without a gap.
      pub walk-blocks_to_descriptors :
          (count : ℕ) (ds : List Descriptor) (h : Host)
          → 0 < count
          → count ≤ 16
          → length ds ≡ 16
          → buffer + count * 512 ≤ 2 ^ 32
          → (filled : List Descriptor) × (blocks_to_descriptors proto buffer table count ds h
              ≡ Outcome.done filled h)
            × (walk (in_memory table filled) count table ≡ some (blocks_from buffer 0 count))
      walk-blocks_to_descriptors zero ds h some_block few sixteen fits = absurd (omega arith)
      walk-blocks_to_descriptors (suc n) ds h some_block few sixteen fits = (
        set (fill n 0 ds) n (final n),
        blocks_to_descriptors-fill n ds h,
        let base : table + 0 * 16 ≡ table = omega arith in
            subst
              (λ (a : ℕ).
                walk (in_memory table (set (fill n 0 ds) n (final n))) (suc n) a
                ≡ some (blocks_from buffer 0 (suc n)))
              base
              (walk_links n 0 (set (fill n 0 ds) n (final n)) (omega arith) (omega arith)
                (λ j low high.
                  get_or-set_ne (fill n 0 ds) n j (final n) zero_descriptor (omega arith)
                  ∙ fill_at n 0 j ds low high (omega arith))
                (let none_before : 0 + n ≡ n = omega arith in
                  rw none_before (
                    get_or-set_self (fill n 0 ds) n (final n) zero_descriptor
                      (omega (arith, length-fill n 0 ds))))),
      )
