-- ===== src/Sbi/Execute.antt =====
-- src/arch/src/riscv64/sbi/execute.rs: the loop that serves the supervisor's traps.
pub mod Calls
pub mod Illegal
pub mod Exits
use upstream_oreboot.Prelude.{ℕ, ◌+◌, ◌*◌, ◌^◌, Bool, true, false, not, ◌&&◌, Option, none, some}
use upstream_oreboot.Prelude.{List, [], ◌∷◌, ◌++◌, get_or, ◌==◌, if◌then◌else◌, bit_and, bit_or}
use upstream_oreboot.Prelude.{u8, u16, u32, wrapping_add, ◌<<<◌}
use upstream_oreboot.Sbi.Context.{SupervisorContext}
use upstream_oreboot.Sbi.Csr
use upstream_oreboot.Sbi.Riscv.{Hart, write_csr, Riscv, Rustsbi, SbiRet, Trap}
use upstream_oreboot.Sbi.Feature.{
  emulate_rdtime, emulate_sfence_vma, preprocess_supervisor_external,
}
use upstream_oreboot.Sbi.Feature.{should_transfer_trap, do_transfer_trap}
use upstream_oreboot.Sbi.Runtime
use upstream_oreboot.Sbi.Runtime.{MachineTrap, resume, new_sbi_supervisor}

abbrev pub ecall_oreboot : ℕ
ecall_oreboot = 0x0a023b00

abbrev pub ebreak : ℕ
ebreak = 0x9002

-- The four CSRs that a call may read.
abbrev pub is_readable : ℕ → Bool
is_readable csr =
    if csr == 0x7c0
    then true
    else if csr == 0x7c1
    then true
    else if csr == 0x7c2
    then true
    else csr == 0x7c5

unfoldable pub ore_sbi : ℕ → List ℕ → Hart → SbiRet
ore_sbi method args h =
    let csr = get_or args 0 0 in
    let failed : SbiRet = record { error = 1; value = 0 } in
    if method == 0x023adc52
    then (if is_readable csr then record { error = 0; value = h.csr csr } else failed)
    else failed

-- `args[0] as u8 as char`, printed.
unfoldable pub putchar : List ℕ → Hart → SbiRet × Hart
putchar args h =
    (record { error = 0; value = 0 }, record h { console = h.console ++ u8 (get_or args 0 0) ∷ [] })

-- The two loads of half-words with MPRV set, at an address that the supervisor could fetch from; a
-- load that faults, in machine mode, is not modelled.
unfoldable pub get_vaddr_u32 : Hart → ℕ → ℕ
get_vaddr_u32 h vaddr = bit_or (u16 (h.lhu vaddr)) (u32 (u16 (h.lhu (wrapping_add vaddr 2)) <<< 16))

-- The second attempt, after the first one.
abbrev pub or_else_fence : Option (Hart × Bool) → ℕ → Option (Hart × Bool)
or_else_fence none ins = none
or_else_fence (some (h1, done)) ins =
    if done then some (h1, true) else some (emulate_sfence_vma h1 ins)

unfoldable pub emulate_illegal_instruction : Hart → ℕ → Option (Hart × Bool)
emulate_illegal_instruction h ins = or_else_fence (emulate_rdtime h ins) ins

-- After a trap the loop goes on, or breaks with two words, or the SBI panics.
pub data Outcome : Type 0 where
  running : Hart → Outcome
  finished : ℕ → ℕ → Hart → Outcome
  panicked : Outcome

-- Only a hart that is still running goes on to the next round.
abbrev pub after_round : Outcome → (Hart → Outcome) → Outcome
after_round (running h) continue = continue h
after_round (finished error value h) continue = finished error value h
after_round panicked continue = panicked

abbrev pub exit_mask : ℕ
exit_mask = 0xffffffff * 2 ^ 32

abbrev pub exit_magic : ℕ
exit_magic = 0x114514 * 2 ^ 32

unfoldable pub finish_call : SbiRet → Hart → Outcome
finish_call ans h =
    if bit_and ans.error exit_mask == exit_magic
    then finished (bit_and ans.error 0xffffffff) ans.value h
    else running (record h {
      context = record h.context {
        a0 = ans.error;
        a1 = ans.value;
        mepc = wrapping_add h.context.mepc 4;
      };
    })

abbrev pub params : SupervisorContext → List ℕ
params c = c.a0 ∷ c.a1 ∷ c.a2 ∷ c.a3 ∷ c.a4 ∷ c.a5 ∷ []

module _ ⦃api : Riscv⦄ where
  -- A word that is not emulated: the trap is the supervisor's, or the machine's own.
  abbrev pub or_else_transfer : Option (Hart × Bool) → Outcome
  or_else_transfer none = panicked
  or_else_transfer (some (h1, done)) =
      if done
      then running h1
      else if should_transfer_trap h1.context
      then running (do_transfer_trap h1 Trap.illegal_instruction)
      else panicked

  unfoldable pub handle_illegal : Hart → Outcome
  handle_illegal h =
      let ins = get_vaddr_u32 h h.context.mepc in
      if u16 ins == ebreak
      then running
          (record h { context = record h.context { mepc = wrapping_add h.context.mepc 2 } })
      else or_else_transfer (emulate_illegal_instruction h ins)

module _ ⦃api : Riscv⦄ (sbi : Rustsbi) where
  unfoldable pub dispatch_call : Hart → SbiRet × Hart
  dispatch_call h =
      let c = h.context in
      if c.a7 == ecall_oreboot
      then (ore_sbi c.a6 (params c) h, h)
      else if c.a7 == sbi.legacy_console_putchar
      then putchar (params c) h
      else sbi.ecall c.a7 c.a6 (params c) h

  unfoldable pub handle_call : Hart → Outcome
  handle_call h =
      let (ans, h1) = dispatch_call (preprocess_supervisor_external h) in finish_call ans h1

  -- The `match` of the loop on what `resume` yields.
  unfoldable pub handle : MachineTrap → Hart → Outcome
  handle MachineTrap.sbi_call h = handle_call h
  handle MachineTrap.illegal_instruction h = handle_illegal h
  handle MachineTrap.external_interrupt h = running h
  handle MachineTrap.machine_timer h =
      running (write_csr Csr.mip (api.set_stimer (h.csr Csr.mip)) h)
  handle MachineTrap.machine_soft h = running h
  handle (MachineTrap.instruction_fault _) h = running h
  handle (MachineTrap.load_fault _) h = running h
  handle (MachineTrap.load_page_fault _) h = running h
  handle (MachineTrap.store_page_fault _) h = running h
  handle (MachineTrap.store_fault _) h = running h
  handle (MachineTrap.instruction_page_fault _) h = running h

  abbrev pub after_resume : Option (MachineTrap × Hart) → Outcome
  after_resume none = panicked
  after_resume (some (trap, h1)) = handle trap h1

  -- One round of the loop.
  unfoldable pub round : (Hart → Hart) → Hart → Outcome
  round guest h = after_resume (resume guest h)

  -- The loop, over what the supervisor does in each round; `running` at the end means that the
  -- supervisor holds the hart.
  unfoldable pub run : List (Hart → Hart) → Hart → Outcome
  run [] h = running h
  run (guest ∷ rest) h = let continue = run rest in after_round (round guest h) continue

  unfoldable pub execute_supervisor : ℕ → ℕ → ℕ → List (Hart → Hart) → Hart → Outcome
  execute_supervisor supervisor_mepc a0 a1 guests h =
      run guests (new_sbi_supervisor supervisor_mepc a0 a1 h)
