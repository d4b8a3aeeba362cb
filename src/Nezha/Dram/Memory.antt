-- ===== src/Nezha/Dram/Memory.antt =====
-- A memory behind the bus, and the words that the test writes, src/mainboard/sunxi/nezha/bt0/src/mctl.rs.
pub mod Test
use upstream_oreboot.Prelude.{
  ℕ, zero, suc, ◌+◌, ◌*◌, ◌^◌, ◌<◌, ◌≤◌, ◌≡◌, ◌≢◌, ◌∙◌, refl, sym, ap, arith, Bool, not, ◌==◌,
  ==_iff,
}
use upstream_oreboot.Prelude.{if◌then◌else◌, ◌>>>◌, u32, eqb_refl}
use upstream_oreboot.Nezha.Dram.Bus.{Bus, Board, Run, done, failed, base, for_range, and_then}
use upstream_oreboot.Nezha.Dram.Registers.{ram_base}
use upstream_oreboot.Nezha.Dram.Size.{
  write_word, check_word, write_patterns, check_patterns, dramc_simple_wr_test,
}

abbrev pub low_word : ℕ → ℕ
low_word i = ram_base + 4 * i

abbrev pub high_word : ℕ → ℕ → ℕ
high_word offs i = ram_base + 4 * i + offs

module _ {S : Type 0} where
  -- Above `ram_base` the bus is a memory whose words are named by `line`; a read changes no word.
  pub record IsMemory (bus : Bus S) (line : ℕ → ℕ) : Type 0 where
    pub reads :
        (a a' : ℕ) (w : S)
        → ram_base ≤ a
        → ram_base ≤ a'
        → bus.value a' (bus.after_read a w) ≡ bus.value a' w
    pub writes :
        (a a' v : ℕ) (w : S)
        → ram_base ≤ a
        → ram_base ≤ a'
        → bus.value a' (bus.after_write a v w) ≡ (if line a == line a' then v else bus.value a' w)

-- The words of the test are different words.
pub record AreDistinct (line : ℕ → ℕ) (offs len : ℕ) : Type 0 where
  pub low : (i j : ℕ) → i < len → j < len → line (low_word i) ≡ line (low_word j) → i ≡ j
  pub high :
      (i j : ℕ) → i < len → j < len → line (high_word offs i) ≡ line (high_word offs j) → i ≡ j
  pub apart : (i j : ℕ) → i < len → j < len → line (low_word i) ≢ line (high_word offs j)

module _ {S : Type 0} (bus : Bus S) (offs : ℕ) where
  abbrev pub one_written : ℕ → S → S
  one_written i w =
      bus.after_write (high_word offs i) (u32 (0xfedcba98 + i))
        (bus.after_write (low_word i) (u32 (0x01234567 + i)) w)

  abbrev pub written : ℕ → ℕ → S → S
  written zero i w = w
  written (suc count) i w = written count (suc i) (one_written i w)

  pub for_range-written :
      (count i : ℕ) (b : Board S)
      → for_range count i (write_word bus offs) b
        ≡ done tt (record b { world = written count i b.world })
  unfolding for_range write_word
  for_range-written zero i b = refl
  for_range-written (suc count) i b =
      for_range-written count (suc i) (record b { world = one_written i b.world })

  module _ (line : ℕ → ℕ) (mem : IsMemory bus line) where
    pub one_written_frame :
        (a i : ℕ) (w : S)
        → ram_base ≤ a
        → line (low_word i) ≢ line a
        → line (high_word offs i) ≢ line a
        → bus.value a (one_written i w) ≡ bus.value a w
    one_written_frame a i w fits low high = ground (
      arith,
      mem.writes (high_word offs i) a (u32 (0xfedcba98 + i))
          (bus.after_write (low_word i) (u32 (0x01234567 + i)) w),
      mem.writes (low_word i) a (u32 (0x01234567 + i)) w,
    )

    -- The words that a later round leaves alone.
    pub written_frame :
        (count i a : ℕ) (w : S)
        → ram_base ≤ a
        → ((k : ℕ) → i ≤ k → k < i + count → line (low_word k) ≢ line a)
        → ((k : ℕ) → i ≤ k → k < i + count → line (high_word offs k) ≢ line a)
        → bus.value a (written count i w) ≡ bus.value a w
    written_frame zero i a w fits low high = refl
    written_frame (suc count) i a w fits low high =
        written_frame count (suc i) a (one_written i w) fits
          (λ k p q. low k (omega arith) (omega arith)) (λ k p q. high k (omega arith) (omega arith))
        ∙ one_written_frame a i w fits (low i (omega arith) (omega arith))
            (high i (omega arith) (omega arith))

    pub one_written-high :
        (i : ℕ) (w : S) → bus.value (high_word offs i) (one_written i w) ≡ u32 (0xfedcba98 + i)
    one_written-high i w =
        mem.writes (high_word offs i) (high_word offs i) _ _ (omega arith) (omega arith)
        ∙ rw (eqb_refl (line (high_word offs i))) refl

    pub one_written-low :
        (i : ℕ) (w : S)
        → line (low_word i) ≢ line (high_word offs i)
        → bus.value (low_word i) (one_written i w) ≡ u32 (0x01234567 + i)
    one_written-low i w apart = ground (
      arith,
      mem.writes (high_word offs i) (low_word i) (u32 (0xfedcba98 + i))
          (bus.after_write (low_word i) (u32 (0x01234567 + i)) w),
      mem.writes (low_word i) (low_word i) (u32 (0x01234567 + i)) w,
    )
