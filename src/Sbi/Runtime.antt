-- ===== src/Sbi/Runtime.antt =====
-- src/arch/src/riscv64/sbi/runtime.rs: the runtime around the supervisor. What the supervisor does
-- between two traps is a function on harts, given from outside.
use upstream_oreboot.Prelude.{ℕ, ◌+◌, Option, none, some, ◌==◌, if◌then◌else◌, bit_and}
use upstream_oreboot.Sbi.Context.{zeroed}
use upstream_oreboot.Sbi.Csr
use upstream_oreboot.Sbi.Riscv.{Hart, write_csr, Riscv, Mpp, Trap}

pub data MachineTrap : Type 0 where
  sbi_call illegal_instruction external_interrupt machine_timer machine_soft : MachineTrap
  instruction_fault load_fault store_fault : ℕ → MachineTrap
  instruction_page_fault load_page_fault store_page_fault : ℕ → MachineTrap

-- The `match` of `resume`; `none` is its panic on a cause that is not handled.
unfoldable pub machine_trap : Trap → ℕ → Option MachineTrap
machine_trap Trap.supervisor_env_call mtval = some sbi_call
machine_trap Trap.illegal_instruction mtval = some illegal_instruction
machine_trap Trap.instruction_fault mtval = some (instruction_fault mtval)
machine_trap Trap.breakpoint mtval = some illegal_instruction
machine_trap Trap.load_fault mtval = some (load_fault mtval)
machine_trap Trap.store_fault mtval = some (store_fault mtval)
machine_trap Trap.machine_external mtval = some external_interrupt
machine_trap Trap.machine_timer mtval = some machine_timer
machine_trap Trap.machine_soft mtval = some machine_soft
machine_trap Trap.instruction_page_fault mtval = some (instruction_page_fault mtval)
machine_trap Trap.load_page_fault mtval = some (load_page_fault mtval)
machine_trap Trap.store_page_fault mtval = some (store_page_fault mtval)
machine_trap Trap.other_exception mtval = none
machine_trap Trap.other_interrupt mtval = none

-- `addr` is the address of `from_supervisor_save`; the mode `Direct` is 0.
unfoldable pub trap_vector : ℕ → ℕ
trap_vector addr = if bit_and addr 0x2 == 0 then addr else addr + 0x2

module _ ⦃api : Riscv⦄ where
  -- `do_resume` runs the supervisor, `guest`, up to its next trap.
  unfoldable pub resume : (Hart → Hart) → Hart → Option (MachineTrap × Hart)
  resume guest h =
      let h1 = guest h in
      elim (machine_trap (api.cause (h1.csr Csr.mcause)) (h1.csr Csr.mtval)) [
        | none ↦ none
        | some trap ↦ some (trap, h1)
      ]

  unfoldable pub reset : Hart → Hart
  reset h =
      let h1 = write_csr Csr.mstatus (api.set_mpp Mpp.supervisor (h.csr Csr.mstatus)) h in
      record h1 {
        context = record h1.context {
          mstatus = h1.csr Csr.mstatus;
          machine_stack = 0x2333333366666666;
        };
      }

  unfoldable pub prepare_supervisor : ℕ → Hart → Hart
  unfolding reset
  prepare_supervisor new_mepc h =
      let h1 = reset h in record h1 { context = record h1.context { mepc = new_mepc } }

  unfoldable pub new_sbi_supervisor : ℕ → ℕ → ℕ → Hart → Hart
  unfolding prepare_supervisor
  new_sbi_supervisor supervisor_mepc a0 a1 h =
      let h1 = prepare_supervisor supervisor_mepc (record h { context = zeroed }) in
      record h1 { context = record h1.context { a0 = a0; a1 = a1 } }
