-- ===== src/Sbi/Feature.antt =====
-- src/arch/src/riscv64/sbi/feature: emulated instructions, the check before a call, and the
-- transfer of a trap to the supervisor. `none` is a panic.
pub mod Decode
pub mod Reads
pub mod Fence
pub mod Transfer
use upstream_oreboot.Prelude.{ℕ, ◌^◌, ◌*◌, Bool, true, false, not, ◌&&◌, Option, none, some}
use upstream_oreboot.Prelude.{◌==◌, if◌then◌else◌, u8, u64, wrapping_add, ◌>>>◌, bit_and, bit_or}
use upstream_oreboot.Sbi.Context.{SupervisorContext, set_register_xi}
use upstream_oreboot.Sbi.Csr
use upstream_oreboot.Sbi.Riscv.{Hart, update, write_csr, Riscv, Mpp, Spp, Trap}

-- Skips the current instruction, after the write of its target register.
abbrev pub skip_after : Hart → Option SupervisorContext → Option (Hart × Bool)
skip_after h none = none
skip_after h (some c) =
    some (record h { context = record c { mepc = wrapping_add c.mepc 4 } }, true)

-- The read of `value` into the target register of `ins`.
abbrev pub finish_read : Hart → ℕ → ℕ → Option (Hart × Bool)
finish_read h ins value =
    skip_after h (set_register_xi h.context (u8 (bit_and (ins >>> 7) 0x1f)) value)

unfoldable pub emulate_rdtime : Hart → ℕ → Option (Hart × Bool)
emulate_rdtime h ins =
    if bit_and ins 0xfffff07f == 0xc0002073
    then finish_read h ins (h.csr Csr.cycle)
    else if bit_and ins 0xfffff07f == 0xc0102073
    then finish_read h ins (h.csr Csr.time)
    else some (h, false)

-- `mstatus_bits &= !0x1F00_0000; mstatus_bits |= 9 << 24` on a 64-bit word.
abbrev pub with_vm_sv39 : ℕ → ℕ
with_vm_sv39 m = bit_or (bit_and m 0xffff_ffff_e0ff_ffff) (9 * 2 ^ 24)

-- The `sfence.vm` instruction itself changes no register.
unfoldable pub emulate_sfence_vma : Hart → ℕ → Hart × Bool
emulate_sfence_vma h ins =
    let ppn = bit_and (h.csr Csr.satp) 0xfff_ffff_ffff in
    let sptbr_bits = bit_and ppn 0x3f_ffff_ffff in
    let h1 = write_csr Csr.satp sptbr_bits h in
    let h2 = write_csr Csr.mstatus (with_vm_sv39 (h1.csr Csr.mstatus)) h1 in
    let c = record h.context {
      mstatus = h2.csr Csr.mstatus;
      mepc = wrapping_add h.context.mepc 4;
    } in
    if bit_and ins 0xfe007fff == 0x12000073 then (record h2 { context = c }, true) else (h, false)

module _ ⦃api : Riscv⦄ where
  unfoldable pub preprocess_supervisor_external : Hart → Hart
  preprocess_supervisor_external h =
      if h.context.a7 == 0
      then (if api.mtimer_pending (h.csr Csr.mip) && not (h.devintrentry == 0)
          then write_csr Csr.mie (api.set_mext (h.csr Csr.mie)) h
          else h)
      else h

  abbrev pub is_machine : Mpp → Bool
  is_machine Mpp.machine = true
  is_machine _ = false

  unfoldable pub should_transfer_trap : SupervisorContext → Bool
  should_transfer_trap c = not (is_machine (api.mpp c.mstatus))

  -- The word of mstatus after the four field writes, in their order.
  abbrev pub transferred_mstatus : ℕ → ℕ
  transferred_mstatus m =
      let m1 = api.set_spp Spp.supervisor (api.set_mpp Mpp.supervisor m) in
      api.clear_sie (if api.sie m1 then api.set_spie m1 else m1)

  unfoldable pub do_transfer_trap : Hart → Trap → Hart
  do_transfer_trap h cause =
      let h1 = write_csr Csr.scause (api.scause_word cause) h in
      let h2 = write_csr Csr.stval (h1.csr Csr.mtval) h1 in
      let h3 = write_csr Csr.sepc h2.context.mepc h2 in
      let h4 = write_csr Csr.mstatus (transferred_mstatus (h3.csr Csr.mstatus)) h3 in
      record h4 {
        context = record h4.context {
          mstatus = h4.csr Csr.mstatus;
          mepc = api.stvec_address (h4.csr Csr.stvec);
        };
      }
