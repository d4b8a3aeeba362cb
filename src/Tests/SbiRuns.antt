-- ===== src/Tests/SbiRuns.antt =====
-- The supervisor binary interface at concrete inputs.
use upstream_oreboot.Prelude.{ℕ, ◌*◌, ◌^◌, ◌%◌, ◌/◌, ◌≡◌, ◌≢◌, ◌⊎◌, inr, refl, arith, some}
use upstream_oreboot.Prelude.{[], ◌∷◌, true, false, ◌≤◌, ◌<◌, bit_or, u64, leb, if◌then◌else◌}
use upstream_oreboot.Sbi.Context.{SupervisorContext, zeroed}
use upstream_oreboot.Sbi.Csr
use upstream_oreboot.Sbi.Riscv.{Hart, SbiRet}
use upstream_oreboot.Sbi.Feature.{
  emulate_rdtime, emulate_sfence_vma, preprocess_supervisor_external,
}
use upstream_oreboot.Sbi.Feature.Reads.{IsRead, emulate_rdtime-IsRead, emulate_rdtime_refuses}
use upstream_oreboot.Sbi.Feature.Fence.{
  IsFenced, sfence_vma, emulate_sfence_vma-IsFenced, emulate_sfence_vma_refuses,
}
use upstream_oreboot.Sbi.Runtime.{resume, machine_trap}
use upstream_oreboot.Sbi.Execute.{
  running, finished, finish_call, handle_illegal, get_vaddr_u32, run,
}
use upstream_oreboot.Sbi.Execute.Calls.{answered, finish_call_lem}
use upstream_oreboot.Sbi.Execute.Illegal.{IsServed, handle_illegal-IsServed}
use upstream_oreboot.Sbi.Execute.Exits.{Stays, run-Stays}
use upstream_oreboot.Sbi.Pmp.{pmp_get, pmp_port, napot_entry, ctz, ctz_loop, pmp_round}
use upstream_oreboot.Sbi.Pmp.Ports.{cfg_byte, pmp_port_eighth}
use upstream_oreboot.Sbi.Pmp.Napot.{pmp_get_napot, pmp_get_napot_wrong, napot_log2len}
use upstream_oreboot.Sbi.Pmp.Lines.{tor_line, pmp_round_tor}
use upstream_oreboot.Sbi.Switch.{to_supervisor_restore, Cpu, exec, from_supervisor_save}
use upstream_oreboot.Sbi.Switch.Resume.{IsResumed, to_supervisor_restore-IsResumed}
use upstream_oreboot.Sbi.Switch.Entry.{IsEntered, from_supervisor_save-IsEntered}
use upstream_oreboot.Nezha.SbiPlatform.{Board, set_timer, init_pmp}
use upstream_oreboot.Nezha.SbiPlatform.Timer.{mtimecmp, set_timer_lem}
use upstream_oreboot.Nezha.SbiPlatform.Reset.{reset_leaves_loop}
use upstream_oreboot.Tests.Hardware.{layout, srst, resetting, refusing, fresh, trapping}

-- A call for a warm reboot (2) with reason 1.
abbrev reboot : SupervisorContext
reboot = record zeroed { a0 = 2; a1 = 1; a6 = 0; a7 = srst }

reset_leaves_loop_example :
    run resetting (trapping 9 reboot ∷ []) fresh
    ≡ finished 2 1 (preprocess_supervisor_external (trapping 9 reboot fresh))
unfolding resume machine_trap
reset_leaves_loop_example =
    reset_leaves_loop resetting srst (trapping 9 reboot) [] fresh (trapping 9 reboot fresh)
      (λ ty reason a2 a3 a4 a5 h p q. refl) (omega arith) (omega arith) refl refl refl (omega arith)
      (omega arith)

run-Stays_example : Stays (run refusing (trapping 9 reboot ∷ trapping 2 zeroed ∷ []) fresh)
run-Stays_example =
    run-Stays refusing (λ eid fid args h. (omega arith, omega arith))
      (trapping 9 reboot ∷ trapping 2 zeroed ∷ []) fresh

-- A hart whose supervisor is stopped at `rdtime a0`.
abbrev stopped : Hart
stopped = record fresh {
  context = record zeroed { mstatus = 0x800; mepc = 0x80200000 };
  lhu = λ a. if leb a 0x80200000 then 0x2573 else 0xc010;
}

handle_illegal-IsServed_example :
    IsServed stopped (get_vaddr_u32 stopped 0x80200000) (handle_illegal stopped)
handle_illegal-IsServed_example = handle_illegal-IsServed stopped (λ e. cc) (omega arith)

emulate_rdtime-IsRead_example : IsRead stopped 10 77 (emulate_rdtime stopped 0xc0102573)
emulate_rdtime-IsRead_example =
    emulate_rdtime-IsRead stopped 10 0xc0102573 (omega arith) Csr.time (inr refl) refl

emulate_sfence_vma-IsFenced_example : IsFenced stopped (emulate_sfence_vma stopped (sfence_vma 0))
emulate_sfence_vma-IsFenced_example =
    emulate_sfence_vma-IsFenced stopped 0 (omega arith) (omega arith)

emulate_rdtime_refuses_example : emulate_rdtime stopped 0x00000013 ≡ some (stopped, false)
emulate_rdtime_refuses_example =
    emulate_rdtime_refuses stopped 0x00000013 (omega arith) (λ rd h e. omega arith)
      (λ rd h e. omega arith)

abbrev success : SbiRet
success = record { error = 0; value = 9 }

finish_call_lem_example :
    (◌≡◌ {A = ℕ} (0 / 2 ^ 32) 0x114514
      × (finish_call success fresh ≡ finished (0 % 2 ^ 32) 9 fresh))
    ⊎ (◌≢◌ {A = ℕ} (0 / 2 ^ 32) 0x114514
        × (finish_call success fresh ≡ running (answered success fresh)))
finish_call_lem_example = finish_call_lem success fresh (omega arith)

abbrev board : Board
board = record { hart = fresh; mmio = λ a. 0 }

set_timer_lem_example :
    (mtimecmp (set_timer 50 board) ≡ 50)
    × (50 < 77 → layout.stimer_pending ((set_timer 50 board).hart.csr Csr.mip) ≡ true)
    × (77 ≤ 50 → layout.stimer_pending ((set_timer 50 board).hart.csr Csr.mip) ≡ false)
    × (50 < 77 → (set_timer 50 board).hart.csr Csr.mie ≡ fresh.csr Csr.mie)
    × (77 ≤ 50 → (set_timer 50 board).hart.csr Csr.mie ≡ layout.set_mtimer (fresh.csr Csr.mie))
    × ((set_timer 50 board).hart.context ≡ zeroed)
    × ((n : ℕ) → n ≢ Csr.mip → n ≢ Csr.mie → (set_timer 50 board).hart.csr n ≡ fresh.csr n)
    × ((a : ℕ) → a ≢ 0x04004000 → a ≢ 0x04004004 → (set_timer 50 board).mmio a ≡ 0)
set_timer_lem_example = set_timer_lem 50 board (omega arith)

-- The hart after the board has set its five ranges.
abbrev guarded : Hart
guarded = unfold init_pmp in init_pmp fresh

pmp_port_eighth_example :
    (pmp_port guarded 8 ≡ cfg_byte guarded 0)
    × (cfg_byte guarded 8 ≢ cfg_byte guarded 0 → pmp_port guarded 8 ≢ cfg_byte guarded 8)
pmp_port_eighth_example = pmp_port_eighth guarded

pmp_round_tor_example : pmp_round guarded 2 ≡ tor_line guarded 1 ∷ []
unfolding pmp_port init_pmp
pmp_round_tor_example = pmp_round_tor guarded 1 (omega arith) (omega arith) (omega arith)

-- A NAPOT range of 2 ^ 15 bytes in entry 0.
abbrev aligned : Hart
aligned = record fresh { csr = λ n. if leb n 0x3a0 then 0x1f else 0x20000fff }

pmp_get_napot_example :
    pmp_get aligned 0
    ≡ some (record {
      port = pmp_port aligned 0;
      addr = u64 (bit_or 0x20000fff 0x1ff * 4);
      log2len = 3;
    })
unfolding pmp_port
pmp_get_napot_example = pmp_get_napot aligned 0 (omega arith) refl (omega arith) (omega arith)

pmp_get_napot_wrong_example : ◌≢◌ {A = ℕ} 3 (napot_log2len 12)
unfolding pmp_port pmp_get napot_entry ctz ctz_loop
pmp_get_napot_wrong_example =
    pmp_get_napot_wrong aligned 0 12 0x10000
      (record { port = 0x1f; addr = 0x80003ffc; log2len = 3 }) (omega arith) refl (omega arith)
      (omega arith) (omega arith) (omega arith) refl

emulate_sfence_vma_refuses_example : emulate_sfence_vma stopped 0x00000013 ≡ (stopped, false)
emulate_sfence_vma_refuses_example =
    emulate_sfence_vma_refuses stopped 0x00000013 (omega arith) (λ rs h e. omega arith)

-- A machine whose context stands at 0x1000.
abbrev cpu : Cpu
cpu = record { x = λ r. r * 3; mem = λ a. 0; mscratch = 0x1000; mstatus = 5; mepc = 6 }

from_supervisor_save-IsEntered_example : IsEntered 0x1000 cpu (exec from_supervisor_save cpu)
from_supervisor_save-IsEntered_example = from_supervisor_save-IsEntered cpu (omega arith)

to_supervisor_restore-IsResumed_example :
    IsResumed 0x1000
      (record cpu { x = λ r. 0x1000 })
      (exec to_supervisor_restore (record cpu { x = λ r. 0x1000 }))
to_supervisor_restore-IsResumed_example =
    to_supervisor_restore-IsResumed (record cpu { x = λ r. 0x1000 }) (omega arith)
