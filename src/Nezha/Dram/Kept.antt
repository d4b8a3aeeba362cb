-- ===== src/Nezha/Dram/Kept.antt =====
-- What the set-up of the core leaves as it was, src/mainboard/sunxi/nezha/bt0/src/mctl.rs.
use upstream_oreboot.Prelude.{ℕ, ◌≡◌, ◌∙◌, refl, Bool, true, false}
use upstream_oreboot.Prelude.{if◌then◌else◌, if_ind, any_of, ◌>>>◌}
use upstream_oreboot.Nezha.Dram.Bus.{Bus, Board, Run, Step, done, failed, waiting, and_then}
use mathlib.Core.Path.{subst}
use upstream_oreboot.Nezha.Dram.Params.{DramParameters}
use upstream_oreboot.Nezha.Dram.Clock.{
  ccm_set_pll_ddr_clk, stop_clocks, start_clocks, dram_disable_all_master, mctl_sys_init,
}
use upstream_oreboot.Nezha.Dram.Setup.{mctl_vrefzq_init, mctl_com_init, mctl_phy_ac_remapping}
use upstream_oreboot.Nezha.Dram.Timing.{Timings, choose_timings, store_timings}
use upstream_oreboot.Nezha.Dram.Modes.{auto_set_timing_para}
use upstream_oreboot.Nezha.Dram.Channel.{mctl_channel_init, mctl_core_init}

-- What a run returns, if it returns.
abbrev pub Gives : {S A : Type 0} → (A → Type 0) → Run S A → Type 0
Gives P (done a b) = P a
Gives P (failed e b) = Unit {0}
Gives P waiting = Unit {0}

module _ {S A B : Type 0} where
  pub and_then-Gives :
      (Q : A → Type 0) (P : B → Type 0) (r : Run S A) (k : A → Step S B)
      → Gives Q r
      → ((a : A) (b : Board S) → Q a → Gives P (k a b))
      → Gives P (and_then r k)
  and_then-Gives Q P (done a b) k q rest = rest a b q
  and_then-Gives Q P (failed e b) k q rest = tt
  and_then-Gives Q P waiting k q rest = tt

  -- Whatever is returned.
  pub and_then-Gives_any :
      (P : B → Type 0) (r : Run S A) (k : A → Step S B)
      → ((a : A) (b : Board S) → Gives P (k a b))
      → Gives P (and_then r k)
  and_then-Gives_any P (done a b) k rest = rest a b
  and_then-Gives_any P (failed e b) k rest = tt
  and_then-Gives_any P waiting k rest = tt

module _ {S A : Type 0} where
  pub branch-Gives :
      (P : A → Type 0) (test : Bool) (m n : Step S A) (b : Board S)
      → Gives P (m b)
      → Gives P (n b)
      → Gives P ((if test then m else n) b)
  branch-Gives P true m n b p q = p
  branch-Gives P false m n b p q = q

-- The set-up changes neither the flags nor the addresses.
pub record IsKept (para para' : DramParameters) : Type 0 where
  pub tpr13 : para'.dram_tpr13 ≡ para.dram_tpr13
  pub para1 : para'.dram_para1 ≡ para.dram_para1
  pub para2 : para'.dram_para2 ≡ para.dram_para2

choose_timings-IsKept : (para : DramParameters) → IsKept para (choose_timings para).1
unfolding choose_timings store_timings
choose_timings-IsKept para =
    if_ind (λ (c : Timings × DramParameters). IsKept para c.1) (any_of para.dram_tpr13 0x2)
      (record { tpr13 = refl; para1 = refl; para2 = refl })
      (record { tpr13 = refl; para1 = refl; para2 = refl })

clock-IsKept : (para : DramParameters) (clk : ℕ) → IsKept para (record para { dram_clk = clk })
clock-IsKept para clk = record { tpr13 = refl; para1 = refl; para2 = refl }

IsKept-trans :
    {para para1 para2 : DramParameters} → IsKept para para1 → IsKept para1 para2 → IsKept para para2
IsKept-trans p q = record {
  tpr13 = q.tpr13 ∙ p.tpr13;
  para1 = q.para1 ∙ p.para1;
  para2 = q.para2 ∙ p.para2;
}

module _ {S : Type 0} (bus : Bus S) (fuel : ℕ) where
  mctl_sys_init-Gives :
      (para : DramParameters) (b : Board S) → Gives (IsKept para) (mctl_sys_init bus fuel para b)
  unfolding mctl_sys_init stop_clocks start_clocks dram_disable_all_master
  mctl_sys_init-Gives para b =
      and_then-Gives_any (IsKept para) (ccm_set_pll_ddr_clk bus fuel para _) _
        (λ clk b1. clock-IsKept para (clk >>> 1))

  auto_set_timing_para-Gives :
      (para : DramParameters) (b : Board S) → Gives (IsKept para) (auto_set_timing_para bus para b)
  unfolding auto_set_timing_para
  auto_set_timing_para-Gives para b =
      let kept = choose_timings-IsKept para in
      record { tpr13 = kept.tpr13; para1 = kept.para1; para2 = kept.para2 }

  pub mctl_core_init-Gives :
      (para : DramParameters) (b : Board S) → Gives (IsKept para) (mctl_core_init bus fuel para b)
  unfolding mctl_core_init
  mctl_core_init-Gives para b =
      and_then-Gives (IsKept para) (IsKept para) _ _ (mctl_sys_init-Gives para b) (λ para1 b1 kept1.
        and_then-Gives_any (IsKept para) (mctl_vrefzq_init bus para1 b1) _ (λ _ b2.
          and_then-Gives_any (IsKept para) (mctl_com_init bus para1 b2) _ (λ _ b3.
            and_then-Gives_any (IsKept para) (mctl_phy_ac_remapping bus para1 b3) _ (λ _ b4.
              and_then-Gives (IsKept para1) (IsKept para) (auto_set_timing_para bus para1 b4) _
                (auto_set_timing_para-Gives para1 b4)
                (λ para2 b5 kept2.
                  and_then-Gives_any (IsKept para) (mctl_channel_init bus fuel para2 b5) _
                    (λ _ b6. IsKept-trans kept1 kept2))))))

module _ {S A : Type 0} where
  pub Gives-done :
      (P : A → Type 0) (r : Run S A) {a : A} {b : Board S} → r ≡ done a b → Gives P r → P a
  Gives-done P r e given = subst (Gives P) (e) given
