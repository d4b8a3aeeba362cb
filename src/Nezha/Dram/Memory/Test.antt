-- ===== src/Nezha/Dram/Memory/Test.antt =====
-- What the test of the memory finds, src/mainboard/sunxi/nezha/bt0/src/mctl.rs.
use native.Mathlib.Decide.{dec_lt}
use native.Mathlib.Nat.{mod-eq_of_lt}
use upstream_oreboot.Prelude.{
  ℕ, zero, suc, ◌+◌, ◌-◌, ◌%◌, ◌*◌, ◌^◌, ◌<◌, ◌≤◌, ◌≡◌, ◌≢◌, ◌∙◌, refl, sym, ap, arith,
}
use upstream_oreboot.Prelude.{◌>>>◌, u32, eqb_refl, differing}
use upstream_oreboot.Nezha.Dram.Bus.{Bus, Board, Proc, done, failed, base, for_range}
use upstream_oreboot.Nezha.Dram.Registers.{ram_base}
use upstream_oreboot.Nezha.Dram.Size.{
  check_word, write_patterns, check_patterns, dramc_simple_wr_test,
}
use upstream_oreboot.Nezha.Dram.Memory.{
  low_word, high_word, IsMemory, AreDistinct, one_written, written, for_range-written,
  written_frame, one_written-high, one_written-low,
}

module _ {S : Type 0} (bus : Bus S) (offs : ℕ) (line : ℕ → ℕ) (mem : IsMemory bus line) where
  -- Each word that was written is there after the writes of all.
  module _ (len : ℕ) (words : AreDistinct line offs len) where
    written-high :
        (count i k : ℕ) (w : S)
        → i ≤ k
        → k < i + count
        → i + count ≤ len
        → bus.value (high_word offs k) (written bus offs count i w) ≡ u32 (0xfedcba98 + k)
    written-high zero i k w p q fits = absurd (omega arith)
    written-high (suc count) i k w p q fits = elim (dec_lt i k) [
      | yes later ↦
          written-high count (suc i) k (one_written bus offs i w) later (omega arith) (omega arith)
      | no now ↦
          let e : k ≡ i = omega arith in
          rw e (
            written_frame bus offs line mem count (suc i) (high_word offs i) _ (omega arith)
              (λ j r t same. words.apart j i (omega arith) (omega arith) same)
              (λ j r t same.
                absurd (omega (arith, words.high j i (omega arith) (omega arith) same)))
            ∙ one_written-high bus offs line mem i w)
    ]

    written-low :
        (count i k : ℕ) (w : S)
        → i ≤ k
        → k < i + count
        → i + count ≤ len
        → bus.value (low_word k) (written bus offs count i w) ≡ u32 (0x01234567 + k)
    written-low zero i k w p q fits = absurd (omega arith)
    written-low (suc count) i k w p q fits = elim (dec_lt i k) [
      | yes later ↦
          written-low count (suc i) k (one_written bus offs i w) later (omega arith) (omega arith)
      | no now ↦
          let e : k ≡ i = omega arith in
          rw e (
            written_frame bus offs line mem count (suc i) (low_word i) _ (omega arith)
              (λ j r t same. absurd (omega (arith, words.low j i (omega arith) (omega arith) same)))
              (λ j r t same. words.apart i j (omega arith) (omega arith) (sym same))
            ∙ one_written-low bus offs line mem i w (words.apart i i (omega arith) (omega arith)))
    ]

  after_check : ℕ → Board S → Board S
  after_check i b = record b {
    world = bus.after_read (high_word offs i) (bus.after_read (low_word i) b.world);
  }

  check_word_passes :
      (i : ℕ) (b : Board S)
      → bus.value (low_word i) b.world ≡ u32 (0x01234567 + i)
      → bus.value (high_word offs i) b.world ≡ u32 (0xfedcba98 + i)
      → check_word bus offs i b ≡ done tt (after_check i b)
  unfolding check_word after_check
  check_word_passes i b low high =
      let still : bus.value (high_word offs i) (bus.after_read (low_word i) b.world)
          ≡ u32 (0xfedcba98 + i) =
        mem.reads (low_word i) (high_word offs i) b.world (omega arith) (omega arith) ∙ high in
      rw (low, eqb_refl, still) (rw eqb_refl refl)

  after_check-value :
      (a i : ℕ) (b : Board S)
      → ram_base ≤ a
      → bus.value a (after_check i b).world ≡ bus.value a b.world
  unfolding after_check
  after_check-value a i b fits =
      mem.reads (high_word offs i) a _ (omega arith) fits
      ∙ mem.reads (low_word i) a _ (omega arith) fits

  for_range-checked :
      (count i : ℕ) (b : Board S)
      → ((k : ℕ) → i ≤ k → k < i + count → bus.value (low_word k) b.world ≡ u32 (0x01234567 + k))
      → ((k : ℕ)
          → i ≤ k
          → k < i + count
          → bus.value (high_word offs k) b.world ≡ u32 (0xfedcba98 + k))
      → (b' : Board S) × (for_range count i (check_word bus offs) b ≡ done tt b')
  unfolding for_range
  for_range-checked zero i b low high = (b, refl)
  for_range-checked (suc count) i b low high =
      let rest =
        for_range-checked count (suc i) (after_check i b)
          (λ k p q.
            after_check-value (low_word k) i b (omega arith) ∙ low k (omega arith) (omega arith))
          (λ k p q.
            after_check-value (high_word offs k) i b (omega arith)
            ∙ high k (omega arith) (omega arith)) in
      (
        rest.0,
        rw
            (check_word_passes i b (low i (omega arith) (omega arith))
              (high i (omega arith) (omega arith)))
            rest.1,
      )

  check_word_fails :
      (i : ℕ) (b : Board S)
      → bus.value (low_word i) b.world ≢ u32 (0x01234567 + i)
      → (b' : Board S) × (check_word bus offs i b ≡ failed base b')
  unfolding check_word
  check_word_fails i b differs = (
    record b { world = bus.after_read (low_word i) b.world },
    ap (λ (m : Proc S). m (record b { world = bus.after_read (low_word i) b.world }))
        (differing _ _ _ _ differs),
  )

  -- After the writes the first word is that of the second region.
  mirrored_word :
      (more : ℕ) (w : S)
      → line (high_word offs 0) ≡ line (low_word 0)
      → ((k : ℕ) → 0 < k → k < suc more → line (low_word k) ≢ line (low_word 0))
      → ((k : ℕ) → 0 < k → k < suc more → line (high_word offs k) ≢ line (low_word 0))
      → bus.value (low_word 0) (written bus offs (suc more) 0 w) ≡ u32 (0xfedcba98 + 0)
  mirrored_word more w same low high =
      written_frame bus offs line mem more 1 (low_word 0) _ (omega arith)
        (λ k p q. low k (omega arith) (omega arith)) (λ k p q. high k (omega arith) (omega arith))
      ∙ mem.writes (high_word offs 0) (low_word 0) _ _ (omega arith) (omega arith)
      ∙ rw (same, eqb_refl) refl

first_fails :
    {S : Type 0} (bus : Bus S) (offs more : ℕ) (b : Board S) {b' : Board S}
    → check_word bus offs 0 b ≡ failed base b'
    → for_range (suc more) 0 (check_word bus offs) b ≡ failed base b'
unfolding for_range
first_fails bus offs more b e = rw e refl

-- An eighth of the size, in bytes, for an even number of MB.
abbrev pub eighth : ℕ → ℕ
eighth mem_mb = (mem_mb >>> 1) * 2 ^ 18

module _ {S : Type 0} (bus : Bus S) (line : ℕ → ℕ) (mem_mb : ℕ) where
  -- On a memory where the tested words, `len` from the beginning and `len` from an eighth of the size
  -- on, `mem_mb / 2 * 2 ^ 18` bytes, are different words, the test succeeds.
  pub dramc_simple_wr_test_passes :
      (len : ℕ) (b : Board S)
      → IsMemory bus line
      → AreDistinct line (eighth mem_mb) len
      → (b' : Board S) × (dramc_simple_wr_test bus mem_mb len b ≡ done tt b')
  unfolding dramc_simple_wr_test write_patterns check_patterns
  dramc_simple_wr_test_passes len b mem words =
      let checked =
        for_range-checked bus (eighth mem_mb) line mem len 0
          (record b { world = written bus (eighth mem_mb) len 0 b.world })
          (λ k p q.
            written-low bus (eighth mem_mb) line mem len words len 0 k b.world p q (omega arith))
          (λ k p q.
            written-high bus (eighth mem_mb) line mem len words len 0 k b.world p q
              (omega arith)) in
      (checked.0, rw (for_range-written bus (eighth mem_mb) len 0 b) checked.1)

  -- On a memory that shows its first word again at an eighth of its size, and no other tested word
  -- there, the test of at least one word fails with the error of the first words.
  pub dramc_simple_wr_test_mirrored :
      (more : ℕ) (b : Board S)
      → IsMemory bus line
      → line (high_word (eighth mem_mb) 0) ≡ line (low_word 0)
      → ((k : ℕ) → 0 < k → k < suc more → line (low_word k) ≢ line (low_word 0))
      → ((k : ℕ) → 0 < k → k < suc more → line (high_word (eighth mem_mb) k) ≢ line (low_word 0))
      → (b' : Board S) × (dramc_simple_wr_test bus mem_mb (suc more) b ≡ failed base b')
  unfolding dramc_simple_wr_test write_patterns check_patterns
  dramc_simple_wr_test_mirrored more b mem same low high =
      let b1 = record b { world = written bus (eighth mem_mb) (suc more) 0 b.world } in
      let fails = check_word_fails bus (eighth mem_mb) line mem 0 b1 (λ e. absurd (
        omega (arith, e, mirrored_word bus (eighth mem_mb) line mem more b.world same low high))) in
      (
        fails.0,
        rw (for_range-written bus (eighth mem_mb) (suc more) 0 b)
            (first_fails bus (eighth mem_mb) more b1 fails.1),
      )

-- The place of an address in a memory of half of the size, which is seen twice.
abbrev pub half_line : ℕ → ℕ → ℕ
half_line mem_mb a = (a - ram_base) % ((mem_mb >>> 1) * 2 ^ 20)

half_line_below :
    (mem_mb a : ℕ) → a - ram_base < (mem_mb >>> 1) * 2 ^ 20 → half_line mem_mb a ≡ a - ram_base
half_line_below mem_mb a h = mod-eq_of_lt h

half_line-AreDistinct :
    (mem_mb len : ℕ)
    → 2 ≤ mem_mb
    → len ≤ 2 ^ 16
    → AreDistinct (half_line mem_mb) (eighth mem_mb) len
half_line-AreDistinct mem_mb len some_memory few = record {
  low = λ i j p q e. omega (
    arith,
    e,
    half_line_below mem_mb (low_word i) (omega arith),
    half_line_below mem_mb (low_word j) (omega arith),
  );
  high = λ i j p q e. omega (
    arith,
    e,
    half_line_below mem_mb (high_word (eighth mem_mb) i) (omega arith),
    half_line_below mem_mb (high_word (eighth mem_mb) j) (omega arith),
  );
  apart = λ i j p q e. absurd (
      omega (
        arith,
        e,
        half_line_below mem_mb (low_word i) (omega arith),
        half_line_below mem_mb (high_word (eighth mem_mb) j) (omega arith),
      ));
}

-- The test does not see that half of the memory is missing: when the words of the second half are
-- those of the first, it succeeds for the full size, with up to 2 ^ 16 words, which are more than
-- `init_dram` tests.
pub dramc_simple_wr_test_blind :
    {S : Type 0} (bus : Bus S) (mem_mb len : ℕ) (b : Board S)
    → 2 ≤ mem_mb
    → len ≤ 2 ^ 16
    → IsMemory bus (half_line mem_mb)
    → (b' : Board S) × (dramc_simple_wr_test bus mem_mb len b ≡ done tt b')
dramc_simple_wr_test_blind bus mem_mb len b some_memory few mem =
    dramc_simple_wr_test_passes bus (half_line mem_mb) mem_mb len b mem
      (half_line-AreDistinct mem_mb len some_memory few)
