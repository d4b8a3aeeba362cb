-- ===== src/Sbi/Execute/Exits.antt =====
-- When the loop of execute.rs ends.
use upstream_oreboot.Prelude.{ℕ, ◌+◌, ◌*◌, ◌/◌, ◌%◌, ◌^◌, ◌<◌, ◌≡◌, ◌≢◌, inl, inr, refl, arith}
use upstream_oreboot.Prelude.{
  Bool, true, false, ◌==◌, Option, some, none, ap, ◌∙◌, if_ind, no_test, not, ◌&&◌,
}
use upstream_oreboot.Prelude.{List, [], ◌∷◌, u16, get_or, sym}
use mathlib.Core.Path.{subst}
use upstream_oreboot.Sbi.Csr
use upstream_oreboot.Sbi.Riscv.{Hart, Riscv, Rustsbi, SbiRet, Trap}
use upstream_oreboot.Sbi.Runtime.{MachineTrap, resume}
use upstream_oreboot.Sbi.Feature.{
  preprocess_supervisor_external, should_transfer_trap, do_transfer_trap,
}
use upstream_oreboot.Sbi.Execute.{
  Outcome, running, finished, panicked, finish_call, ore_sbi, putchar, params, dispatch_call,
  handle_call, handle_illegal, handle, after_resume, round, run, or_else_transfer, ecall_oreboot,
  is_readable, get_vaddr_u32, emulate_illegal_instruction, ebreak, after_round,
}
use upstream_oreboot.Sbi.Execute.Calls.{finish_call_lem}
use upstream_oreboot.Sbi.Execute.Illegal.{past_ebreak}

-- The outcome is no return from the loop: it runs on, or the SBI has panicked.
abbrev pub Stays : Outcome → Type 0
Stays result = (e v : ℕ) (h : Hart) → result ≢ finished e v h

-- An error word that does not ask for an exit.
abbrev pub IsPlain : SbiRet → Type 0
IsPlain ans = (ans.error < 2 ^ 64) × (ans.error / 2 ^ 32 ≢ 0x114514)

running-Stays : (h : Hart) → Stays (running h)
running-Stays h e v h' eq = cc

panicked-Stays : Stays panicked
panicked-Stays e v h' eq = cc

finish_call-Stays : (ans : SbiRet) (h : Hart) → IsPlain ans → Stays (finish_call ans h)
finish_call-Stays ans h plain = elim (finish_call_lem ans h plain.0) [
  | inl magic ↦ absurd (plain.1 magic.0)
  | inr goes ↦ rw goes.1 (running-Stays _)
]

IsPlain-of_small :
    (error value : ℕ) → error < 2 ^ 32 → IsPlain (record { error = error; value = value })
IsPlain-of_small error value h = omega arith

ore_sbi-IsPlain : (method : ℕ) (args : List ℕ) (h : Hart) → IsPlain (ore_sbi method args h)
unfolding ore_sbi
ore_sbi-IsPlain method args h =
    if_ind IsPlain (method == 0x023adc52)
      (if_ind IsPlain (is_readable (get_or args 0 0))
        (IsPlain-of_small 0 (h.csr (get_or args 0 0)) (omega arith))
        (IsPlain-of_small 1 0 (omega arith)))
      (IsPlain-of_small 1 0 (omega arith))

module _ ⦃api : Riscv⦄ where
  or_else_transfer-Stays : (r : Option (Hart × Bool)) → Stays (or_else_transfer r)
  or_else_transfer-Stays none = panicked-Stays
  or_else_transfer-Stays (some (h1, true)) = running-Stays h1
  or_else_transfer-Stays (some (h1, false)) =
      if_ind Stays (should_transfer_trap h1.context)
        (running-Stays (do_transfer_trap h1 Trap.illegal_instruction)) panicked-Stays

  handle_illegal-Stays : (h : Hart) → Stays (handle_illegal h)
  unfolding handle_illegal
  handle_illegal-Stays h =
      let ins = get_vaddr_u32 h h.context.mepc in
      if_ind Stays (u16 ins == ebreak) (running-Stays (past_ebreak h))
        (or_else_transfer-Stays (emulate_illegal_instruction h ins))

after_round-Stays :
    (r : Outcome) (k : Hart → Outcome)
    → Stays r
    → ((h : Hart) → Stays (k h))
    → Stays (after_round r k)
after_round-Stays (running h) k stays next = next h
after_round-Stays (finished e v h) k stays next = absurd (stays e v h refl)
after_round-Stays panicked k stays next = panicked-Stays

-- The crate never asks for an exit: no reset handler is registered, or none is called.
abbrev pub IsQuiet : Rustsbi → Type 0
IsQuiet sbi = (eid fid : ℕ) (args : List ℕ) (h : Hart) → IsPlain (sbi.ecall eid fid args h).0

module _ ⦃api : Riscv⦄ (sbi : Rustsbi) (quiet : IsQuiet sbi) where
  dispatch_call-IsPlain : (h : Hart) → IsPlain (dispatch_call sbi h).0
  unfolding dispatch_call putchar
  dispatch_call-IsPlain h =
      let c = h.context in
      if_ind (λ (r : SbiRet × Hart). IsPlain r.0) (c.a7 == ecall_oreboot)
        (ore_sbi-IsPlain c.a6 (params c) h)
        (if_ind (λ (r : SbiRet × Hart). IsPlain r.0) (c.a7 == sbi.legacy_console_putchar)
          (IsPlain-of_small 0 0 (omega arith)) (quiet c.a7 c.a6 (params c) h))

  handle-Stays : (trap : MachineTrap) (h : Hart) → Stays (handle sbi trap h)
  unfolding handle handle_call
  handle-Stays MachineTrap.sbi_call h =
      let r = dispatch_call sbi (preprocess_supervisor_external h) in
      finish_call-Stays r.0 r.1 (dispatch_call-IsPlain (preprocess_supervisor_external h))
  handle-Stays MachineTrap.illegal_instruction h = handle_illegal-Stays h
  handle-Stays _ h = running-Stays _

  after_resume-Stays : (r : Option (MachineTrap × Hart)) → Stays (after_resume sbi r)
  after_resume-Stays none = panicked-Stays
  after_resume-Stays (some (trap, h1)) = handle-Stays trap h1

  round-Stays : (guest : Hart → Hart) (h : Hart) → Stays (round sbi guest h)
  unfolding round
  round-Stays guest h = after_resume-Stays (resume guest h)

  -- If no answer of the crate carries the magic number, the loop never returns a type and a reason,
  -- whatever the supervisor does: after any number of turns it runs on or the SBI has panicked, as it
  -- does at an unknown cause and at an illegal instruction in machine mode.
  pub run-Stays : (guests : List (Hart → Hart)) (h : Hart) → Stays (run sbi guests h)
  unfolding run
  run-Stays [] h = running-Stays h
  run-Stays (guest ∷ rest) h =
      after_round-Stays (round sbi guest h) (run sbi rest) (round-Stays guest h) (run-Stays rest)

module _ ⦃api : Riscv⦄ (sbi : Rustsbi) where
  call_finishes :
      (ans : SbiRet) (e : ℕ) (h : Hart)
      → ans.error ≡ 0x114514 * 2 ^ 32 + e
      → e < 2 ^ 32
      → finish_call ans h ≡ finished e ans.value h
  call_finishes ans e h word fits = elim (finish_call_lem ans h (omega arith)) [
    | inl (magic, done) ↦
        let low : ans.error % 2 ^ 32 ≡ e = omega arith in
        done ∙ ap (λ t. finished t ans.value h) low
    | inr (no_magic, _) ↦ absurd (no_magic (omega arith))
  ]

  preprocess-context : (h : Hart) → (preprocess_supervisor_external h).context ≡ h.context
  unfolding preprocess_supervisor_external
  preprocess-context h =
      if_ind (λ (g : Hart). g.context ≡ h.context) (h.context.a7 == 0)
        (if_ind (λ (g : Hart). g.context ≡ h.context)
          (api.mtimer_pending (h.csr Csr.mip) && not (h.devintrentry == 0)) refl refl)
        refl

  dispatch_passes :
      (h : Hart)
      → h.context.a7 ≢ ecall_oreboot
      → h.context.a7 ≢ sbi.legacy_console_putchar
      → dispatch_call sbi h ≡ sbi.ecall h.context.a7 h.context.a6 (params h.context) h
  unfolding dispatch_call
  dispatch_passes h no_ore no_console =
      no_test h.context.a7 ecall_oreboot sbi.legacy_console_putchar _ _ _ no_ore no_console

  -- The call is dispatched with the context that trapped.
  dispatched :
      (h1 : Hart) (ans : SbiRet)
      → h1.context.a7 ≢ ecall_oreboot
      → h1.context.a7 ≢ sbi.legacy_console_putchar
      → ((g : Hart) → sbi.ecall h1.context.a7 h1.context.a6 (params h1.context) g ≡ (ans, g))
      → dispatch_call sbi (preprocess_supervisor_external h1)
        ≡ (ans, preprocess_supervisor_external h1)
  dispatched h1 ans no_ore no_console answers =
      let g = preprocess_supervisor_external h1 in
      let same : h1.context ≡ g.context = sym (preprocess-context h1) in
      dispatch_passes g (subst (λ c. c.a7 ≢ ecall_oreboot) same no_ore)
        (subst (λ c. c.a7 ≢ sbi.legacy_console_putchar) same no_console)
      ∙ subst (λ c. sbi.ecall c.a7 c.a6 (params c) g ≡ (ans, g)) same (answers g)

  -- A call that is passed to the crate, and answered by the magic number above a 32-bit word,
  -- ends the loop at once with that word and the value of the answer.
  pub run_finishes :
      (guest : Hart → Hart) (rest : List (Hart → Hart)) (h h1 : Hart) (ans : SbiRet) (e : ℕ)
      → resume guest h ≡ some (MachineTrap.sbi_call, h1)
      → h1.context.a7 ≢ ecall_oreboot
      → h1.context.a7 ≢ sbi.legacy_console_putchar
      → ((g : Hart) → sbi.ecall h1.context.a7 h1.context.a6 (params h1.context) g ≡ (ans, g))
      → ans.error ≡ 0x114514 * 2 ^ 32 + e
      → e < 2 ^ 32
      → run sbi (guest ∷ rest) h ≡ finished e ans.value (preprocess_supervisor_external h1)
  unfolding run round handle handle_call
  run_finishes guest rest h h1 ans e traps no_ore no_console answers word fits =
      ap (λ r. after_round (after_resume sbi r) (run sbi rest)) traps
      ∙ ap (λ (r : SbiRet × Hart). after_round (finish_call r.0 r.1) (run sbi rest))
          (dispatched h1 ans no_ore no_console answers)
      ∙ ap (λ r. after_round r (run sbi rest))
          (call_finishes ans e (preprocess_supervisor_external h1) word fits)
