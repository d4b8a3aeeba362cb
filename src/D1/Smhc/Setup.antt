-- ===== src/D1/Smhc/Setup.antt =====
-- The set-up of the host controller, src/soc/src/sunxi/d1/smhc/mod.rs.
pub mod Clock
use upstream_oreboot.Prelude.{
  ℕ, zero, suc, ◌+◌, ◌-◌, ◌*◌, ◌/◌, ◌^◌, Bool, true, false, List, [], ◌∷◌, ◌++◌,
}
use upstream_oreboot.Prelude.{◌==◌, ltb, if◌then◌else◌}
use upstream_oreboot.D1.Smhc.Host.{
  Reg, CmdFields, CardWidth, Write, Device, Host, Outcome, Driver, pure, and_then, ◌>>=◌, ◌>>◌,
  write, spin,
}
use upstream_oreboot.D1.Smhc.Commands.{Proto}

abbrev pub abs_diff : ℕ → ℕ → ℕ
abs_diff a b = if ltb a b then b - a else a - b

-- The best divisors so far, n before m, and their error.
pub record Best : Type 0 where
  pub err : ℕ
  pub best_n : ℕ
  pub best_m : ℕ

-- The divisors in the order of the loops: m from `m` on, `count` of them, and n of 1, 2, 4, 8.
abbrev pub dividers_from : ℕ → ℕ → List (ℕ × ℕ)
dividers_from m zero = []
dividers_from m (suc count) = (1, m) ∷ (2, m) ∷ (4, m) ∷ (8, m) ∷ dividers_from (suc m) count

abbrev pub dividers : List (ℕ × ℕ)
dividers = dividers_from 1 16

abbrev pub distance : ℕ → ℕ → ℕ × ℕ → ℕ
distance psi freq (n, m) = abs_diff (psi / n / m) freq

abbrev pub try_divider : ℕ → ℕ → ℕ × ℕ → Best → Best
try_divider psi freq d best =
    let e = distance psi freq d in
    if ltb e best.err then record { err = e; best_n = d.0; best_m = d.1 } else best

unfoldable pub search_dividers : ℕ → ℕ → List (ℕ × ℕ) → Best → Best
search_dividers psi freq [] best = best
search_dividers psi freq (d ∷ rest) best =
    search_dividers psi freq rest (try_divider psi freq d best)

abbrev pub best_dividers : ℕ → ℕ → Best
best_dividers psi freq =
    search_dividers psi freq dividers (record { err = psi; best_n = 0; best_m = 0 })

-- `match best_n`: the field value of `FACTOR_N_A` is the exponent of n.
abbrev pub is_factor_n : ℕ → Bool
is_factor_n best_n =
    if best_n == 1
    then true
    else if best_n == 2
    then true
    else if best_n == 4
    then true
    else best_n == 8

abbrev pub update_fields : CmdFields
update_fields = record {
  cmd_load = true;
  wait_pre_over = true;
  prg_clk = true;
  stop_cmd_flag = false;
  data_trans = false;
  trans_dir = false;
  chk_resp_crc = false;
  long_resp = false;
  resp_rcv = false;
  cmd_idx = 0;
}

module _ (proto : Proto) (dev : Device) where
  unfoldable pub update_clk : ℕ → Driver (Unit {0})
  update_clk fuel = do
    write (Write.cmd update_fields)
    spin dev fuel Reg.cmd_reg dev.cmd_load_is_set
    write (Write.clear_rintsts 0xffffffff)

  -- Behind the choice of the divisors; the clock's fields are written as the chosen n, and m - 1.
  unfoldable pub start_host : ℕ → ℕ → ℕ → Driver (Unit {0})
  start_host fuel best_n best_m = do
    write Write.assert_reset
    write Write.gating_mask
    write (Write.module_clock best_n (best_m - 1))
    write Write.deassert_reset
    write Write.gating_pass
    write Write.soft_reset
    spin dev fuel Reg.ctrl dev.soft_rst_is_reset
    write Write.fifo_reset
    spin dev fuel Reg.ctrl dev.fifo_rst_is_reset
    write Write.interrupts_off
    update_clk fuel
    write (Write.cclk_div (2 - 1))
    write (Write.sample_delay 0)
    write Write.cclk_on
    update_clk fuel
    write (Write.ctype CardWidth.b1)
    write (Write.blksiz proto.block_len)

  -- `unreachable!` panics if no divisor has been chosen.
  abbrev pub start_or_panic : Bool → ℕ → Best → Driver (Unit {0})
  start_or_panic true fuel best = start_host fuel best.best_n best.best_m
  start_or_panic false fuel best = λ h. Outcome.panicked

  -- `new`
  unfoldable pub new_smhc : ℕ → ℕ → ℕ → Driver (Unit {0})
  new_smhc fuel freq psi = do
    write Write.cclk_off
    let best = best_dividers psi freq
    start_or_panic (is_factor_n best.best_n) fuel best
