-- ===== src/Sbi/Feature/Transfer.antt =====
-- What feature/transfer_trap.rs hands to the supervisor.
use upstream_oreboot.Prelude.{ℕ, ◌≡◌, ◌≢◌, refl, arith, true, false, if◌then◌else◌}
use upstream_oreboot.Sbi.Context.{registers}
use upstream_oreboot.Sbi.Csr
use upstream_oreboot.Sbi.Riscv.{other_status, Hart, Riscv, Mpp, Spp, Trap}
use upstream_oreboot.Sbi.Feature.{transferred_mstatus, do_transfer_trap}

module _ ⦃api : Riscv⦄ where
  -- The status word of a supervisor's trap entry: the previous mode is supervisor at both levels,
  -- interrupts are off, and SPIE is set if they were on; no other field has changed.
  pub record IsEntry (before after : ℕ) : Type 0 where
    pub mpp : api.mpp after ≡ Mpp.supervisor
    pub spp : api.spp after ≡ Spp.supervisor
    pub sie : api.sie after ≡ false
    pub spie_on : api.sie before ≡ true → api.spie after ≡ true
    pub spie_kept : api.sie before ≡ false → api.spie after ≡ api.spie before
    pub other_fields : other_status after ≡ other_status before

  transferred-IsEntry : (m : ℕ) → IsEntry m (transferred_mstatus m)
  transferred-IsEntry m =
      let m1 = api.set_spp Spp.supervisor (api.set_mpp Mpp.supervisor m) in
      let m2 = if api.sie m1 then api.set_spie m1 else m1 in
      let a = api.set_mpp Mpp.supervisor m in
      record {
        mpp = ground (
          arith,
          api.mpp-clear_sie m2,
          api.mpp-set_spie m1,
          api.mpp-set_spp Spp.supervisor a,
          api.mpp-set_mpp Mpp.supervisor m,
        );
        spp =
            ground
              (arith, api.spp-clear_sie m2, api.spp-set_spie m1, api.spp-set_spp Spp.supervisor a);
        sie = api.sie-clear_sie m2;
        spie_on = λ on. ground (
          arith,
          api.spie-clear_sie m2,
          api.spie-set_spie m1,
          api.sie-set_spp Spp.supervisor a,
          api.sie-set_mpp Mpp.supervisor m,
        );
        spie_kept = λ off. ground (
          arith,
          api.spie-clear_sie m2,
          api.spie-set_spp Spp.supervisor a,
          api.spie-set_mpp Mpp.supervisor m,
          api.sie-set_spp Spp.supervisor a,
          api.sie-set_mpp Mpp.supervisor m,
        );
        other_fields = ground (
          arith,
          api.other-clear_sie m2,
          api.other-set_spie m1,
          api.other-set_spp Spp.supervisor a,
          api.other-set_mpp Mpp.supervisor m,
        );
      }

  -- `after` is `before` with the trap delivered to the supervisor.
  pub record IsDelivered (cause : Trap) (before after : Hart) : Type 0 where
    pub cause_word : after.csr Csr.scause ≡ api.scause_word cause
    pub instruction : after.csr Csr.stval ≡ before.csr Csr.mtval
    pub resumes : after.csr Csr.sepc ≡ before.context.mepc
    pub entry : IsEntry (before.csr Csr.mstatus) (after.csr Csr.mstatus)
    pub status : after.context.mstatus ≡ after.csr Csr.mstatus
    pub handler : after.context.mepc ≡ api.stvec_address (before.csr Csr.stvec)
    pub same_registers : registers after.context ≡ registers before.context
    pub others :
        (n : ℕ)
        → n ≢ Csr.scause
        → n ≢ Csr.stval
        → n ≢ Csr.sepc
        → n ≢ Csr.mstatus
        → after.csr n ≡ before.csr n

  pub do_transfer_trap-IsDelivered :
      (h : Hart) (cause : Trap) → IsDelivered cause h (do_transfer_trap h cause)
  unfolding do_transfer_trap
  do_transfer_trap-IsDelivered h cause = record {
    cause_word = refl;
    instruction = refl;
    resumes = refl;
    entry = transferred-IsEntry (h.csr Csr.mstatus);
    status = refl;
    handler = refl;
    same_registers = refl;
    others = λ n a b c d. ground arith;
  }
