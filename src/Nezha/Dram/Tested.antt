-- ===== src/Nezha/Dram/Tested.antt =====
-- The memory that is reported has been tested, src/mainboard/sunxi/nezha/bt0/src/mctl.rs.
use upstream_oreboot.Prelude.{ℕ, ◌≡◌, ◌⊎◌, inl, inr, refl, true, false, not, ◌==◌}
use upstream_oreboot.Prelude.{if_ind, any_of, ◌&&&◌}
use upstream_oreboot.Nezha.Dram.Bus.{Bus, Board, Run, Step, done, failed, waiting, and_then, pure}
use upstream_oreboot.Nezha.Dram.Ends.{seen}
use upstream_oreboot.Nezha.Dram.Params.{DramParameters}
use upstream_oreboot.Nezha.Dram.Channel.{mctl_core_init}
use upstream_oreboot.Nezha.Dram.Init.{memory_size}
use upstream_oreboot.Nezha.Dram.Kept.{
  Gives, and_then-Gives_any, branch-Gives, IsKept, mctl_core_init-Gives,
}
use upstream_oreboot.Nezha.Dram.Init.{
  try_init_dram, init_dram, zero_on_error, calibrate, tune, final_test,
}
use upstream_oreboot.Nezha.Dram.Size.{dramc_simple_wr_test, dramc_get_dram_size}
use upstream_oreboot.Nezha.Dram.Registers.{some_status}
use upstream_oreboot.Nezha.Dram.Clock.{dram_vol_set, dram_enable_all_master}

-- A size of zero, or one that a test of twice 4096 words has just passed, which left the board as it
-- is.
abbrev pub IsTested : {S : Type 0} → Bus S → ℕ → Board S → Type 0
IsTested bus size b' =
    (size ≡ 0) ⊎ ((b : Board _) × (dramc_simple_wr_test bus size 4096 b ≡ done tt b'))

-- What a run returns and leaves, if it returns.
abbrev Leaves : {S A : Type 0} → (A → Board S → Type 0) → Run S A → Type 0
Leaves P (done a b) = P a b
Leaves P (failed e b) = Unit {0}
Leaves P waiting = Unit {0}

module _ {S A B : Type 0} where
  and_then-Leaves :
      (Q : A → Type 0) (P : B → Board S → Type 0) (r : Run S A) (k : A → Step S B)
      → Gives Q r
      → ((a : A) (b : Board S) → Q a → Leaves P (k a b))
      → Leaves P (and_then r k)
  and_then-Leaves Q P (done a b) k q rest = rest a b q
  and_then-Leaves Q P (failed e b) k q rest = tt
  and_then-Leaves Q P waiting k q rest = tt

  and_then-Leaves_any :
      (P : B → Board S → Type 0) (r : Run S A) (k : A → Step S B)
      → ((a : A) (b : Board S) → Leaves P (k a b))
      → Leaves P (and_then r k)
  and_then-Leaves_any P (done a b) k rest = rest a b
  and_then-Leaves_any P (failed e b) k rest = tt
  and_then-Leaves_any P waiting k rest = tt

module _ {S : Type 0} (bus : Bus S) where
  passed :
      (size : ℕ) (b : Board S) (r : Run S (Unit {0}))
      → dramc_simple_wr_test bus size 4096 b ≡ r
      → Leaves (IsTested bus) (and_then r (λ _. pure size))
  passed size b (done tt b') e = inr (b, e)
  passed size b (failed e' b') e = tt
  passed size b waiting e = tt

  final_test-Leaves :
      (para : DramParameters) (size : ℕ) (b : Board S)
      → any_of para.dram_tpr13 0x10000000 ≡ true
      → Leaves (IsTested bus) (final_test bus para size b)
  unfolding final_test
  final_test-Leaves para size b set = rw set (
      if_ind (λ (m : Step S ℕ). Leaves (IsTested bus) (m (seen bus some_status b)))
        (any_of (bus.value some_status b.world) 0x10000) (inl refl)
        (passed size (seen bus some_status b)
          (dramc_simple_wr_test bus size 4096 (seen bus some_status b)) refl))

  memory_size-Gives :
      (para : DramParameters) (b : Board S)
      → Gives (λ sized. sized.1.dram_tpr13 ≡ para.dram_tpr13) (memory_size bus para b)
  unfolding memory_size
  memory_size-Gives para b =
      branch-Gives (λ sized. sized.1.dram_tpr13 ≡ para.dram_tpr13) (not (para.dram_para2 == 0)) _ _
        b refl
        (and_then-Gives_any (λ sized. sized.1.dram_tpr13 ≡ para.dram_tpr13)
          (dramc_get_dram_size bus b) _ (λ rc b1. refl))

module _ {S : Type 0} where
  of_pair : (P : ℕ → Board S → Type 0) {n m : ℕ} {b c : Board S} → n ≡ m → b ≡ c → P n b → P m c
  of_pair P e f given = rw (← e, ← f) given

  from_run :
      (P : ℕ → Board S → Type 0) (r : Run S ℕ) {size : ℕ} {b : Board S}
      → ((b' : Board S) → P 0 b')
      → Leaves P r
      → zero_on_error r ≡ done size b
      → P size b
  from_run P (done n b') zero_case given e = of_pair P (cc) (cc) given
  from_run P (failed e' b') zero_case given e = of_pair P (cc) (cc) (zero_case b')
  from_run P waiting zero_case given e = cc

module _ {S : Type 0} (bus : Bus S) (fuel : ℕ) (para : DramParameters) where
  try_init_dram-Leaves :
      (b : Board S)
      → ((para.dram_tpr13 &&& 0x1) == 0) ≡ false
      → any_of para.dram_tpr13 0x10000000 ≡ true
      → Leaves (IsTested bus) (try_init_dram bus fuel para b)
  unfolding try_init_dram dram_vol_set dram_enable_all_master
  try_init_dram-Leaves b known tested =
      and_then-Leaves_any (IsTested bus) (calibrate bus para b) _ (λ _ b1. rw known (
        and_then-Leaves (IsKept para) (IsTested bus) (mctl_core_init bus fuel para _) _
          (mctl_core_init-Gives bus fuel para _)
          (λ para2 b2 kept.
            and_then-Leaves (λ sized. sized.1.dram_tpr13 ≡ para2.dram_tpr13) (IsTested bus)
              (memory_size bus para2 b2) _ (memory_size-Gives bus para2 b2)
              (λ sized b3 same.
                and_then-Leaves_any (IsTested bus) (tune bus sized.1 b3) _ (λ _ b4.
                  final_test-Leaves bus sized.1 sized.0 _ (rw (same, kept.tpr13) tested))))))

  -- When the sizes are known (bit 0 of `dram_tpr13`) and the test is asked for (bit 28), the size that
  -- `init_dram` returns is 0, or the last thing it did was a test for that size that succeeded: of
  -- 4096 words from the beginning of the memory and 4096 words from an eighth of that size on,
  -- `size / 2 * 2 ^ 18` bytes.
  pub init_dram-IsTested :
      (b : Board S) {size : ℕ} {b' : Board S}
      → ((para.dram_tpr13 &&& 0x1) == 0) ≡ false
      → any_of para.dram_tpr13 0x10000000 ≡ true
      → init_dram bus fuel para b ≡ done size b'
      → IsTested bus size b'
  unfolding init_dram
  init_dram-IsTested b known tested e =
      from_run (IsTested bus) (try_init_dram bus fuel para b) (λ _. inl refl)
        (try_init_dram-Leaves b known tested) e
