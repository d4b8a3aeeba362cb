-- ===== src/Nezha/SbiPlatform/Reset.antt =====
-- A reset call, from the supervisor's registers to the end of the SBI's loop.
use upstream_oreboot.Prelude.{u32, arith, ap, ℕ, ◌+◌, ◌*◌, ◌^◌, ◌<◌, ◌≡◌, ◌∙◌}
use upstream_oreboot.Prelude.Bits.{bit_or_fields, bit_or_comm}
use upstream_oreboot.Prelude.{◌≢◌, List, [], ◌∷◌, some}
use upstream_oreboot.Sbi.Riscv.{Hart, Riscv, Rustsbi}
use upstream_oreboot.Sbi.Feature.{preprocess_supervisor_external}
use upstream_oreboot.Sbi.Runtime.{MachineTrap, resume}
use upstream_oreboot.Sbi.Execute.{finished, run, ecall_oreboot}
use upstream_oreboot.Sbi.Execute.Exits.{run_finishes}
use upstream_oreboot.Nezha.SbiPlatform.{reset_magic, system_reset}

-- The error word of a reset carries the type below the magic number.
pub system_reset_word :
    (ty reason : ℕ) → ty < 2 ^ 32 → (system_reset ty reason).error ≡ 0x114514 * 2 ^ 32 + ty
unfolding system_reset
system_reset_word ty reason h =
    let whole : u32 ty ≡ ty = omega arith in
    rw whole (bit_or_comm ty reset_magic ∙ bit_or_fields 32 0x114514 ty h)

-- The crate `rustsbi` answers the call with number `eid` and function 0 by the registered handler, for
-- a type and a reason that are words of 32 bits.
abbrev pub ForwardsReset : Rustsbi → ℕ → Type 0
ForwardsReset sbi eid =
    (ty reason a2 a3 a4 a5 : ℕ) (h : Hart)
    → ty < 2 ^ 32
    → reason < 2 ^ 32
    → sbi.ecall eid 0 (ty ∷ reason ∷ a2 ∷ a3 ∷ a4 ∷ a5 ∷ []) h ≡ (system_reset ty reason, h)

module _ ⦃api : Riscv⦄ (sbi : Rustsbi) where
  -- A supervisor that calls for a reset, with a type in a0 and a reason in a1 that are words
  -- of 32 bits, ends the SBI's loop with that type and that reason, whatever it would have done later.
  pub reset_leaves_loop :
      (eid : ℕ) (guest : Hart → Hart) (rest : List (Hart → Hart)) (h h1 : Hart)
      → ForwardsReset sbi eid
      → eid ≢ ecall_oreboot
      → eid ≢ sbi.legacy_console_putchar
      → resume guest h ≡ some (MachineTrap.sbi_call, h1)
      → h1.context.a7 ≡ eid
      → h1.context.a6 ≡ 0
      → h1.context.a0 < 2 ^ 32
      → h1.context.a1 < 2 ^ 32
      → run sbi (guest ∷ rest) h
        ≡ finished h1.context.a0 h1.context.a1 (preprocess_supervisor_external h1)
  unfolding system_reset
  reset_leaves_loop eid guest rest h h1 forwards no_ore no_console traps called function fits
        reason_fits =
      let c = h1.context in
      let value : u32 c.a1 ≡ c.a1 = omega arith in
      run_finishes sbi guest rest h h1 (system_reset c.a0 c.a1) c.a0 traps (rw called no_ore)
        (rw called no_console)
        (λ g. rw (called, function) (forwards c.a0 c.a1 c.a2 c.a3 c.a4 c.a5 g fits reason_fits))
        (system_reset_word c.a0 c.a1 fits) fits
      ∙ ap (λ (v : ℕ). finished c.a0 v (preprocess_supervisor_external h1)) value
