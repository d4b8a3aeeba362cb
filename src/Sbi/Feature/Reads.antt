-- ===== src/Sbi/Feature/Reads.antt =====
-- What `emulate_rdtime` of feature/emulate_rdtime.rs does to the hart.
use upstream_oreboot.Prelude.{ℕ, ◌+◌, ◌*◌, ◌/◌, ◌%◌, ◌^◌, ◌≤◌, ◌<◌, ◌≡◌, ◌≢◌, ◌⊎◌, inl, inr}
use upstream_oreboot.Prelude.{ap, ◌∙◌, arith, Option, some, Bool, true, false, bit_and}
use upstream_oreboot.Prelude.{wrapping_add, first_test, second_test, no_test}
use upstream_oreboot.Sbi.Context.{SupervisorContext, set_register_xi}
use upstream_oreboot.Sbi.Context.Registers.{register, SameRest, set_register_xi_lem}
use upstream_oreboot.Sbi.Csr
use upstream_oreboot.Sbi.Riscv.{Hart}
use upstream_oreboot.Sbi.Feature.{skip_after, finish_read, emulate_rdtime}
use upstream_oreboot.Sbi.Feature.Decode.{read_target, read_mask_iff}

-- `result` is the emulation of a read of `value` into register `rd`: the register is set unless it
-- is x0, the instruction is skipped, and nothing else of the hart changes.
pub record IsRead (h : Hart) (rd value : ℕ) (result : Option (Hart × Bool)) : Type 0 where
  pub context : SupervisorContext
  pub returns : result ≡ some (record h { context = context }, true)
  pub written : 1 ≤ rd → register context rd ≡ value
  pub others : (j : ℕ) → j ≢ rd → register context j ≡ register h.context j
  pub skipped : context.mepc ≡ wrapping_add h.context.mepc 4
  pub status : context.mstatus ≡ h.context.mstatus
  pub stack : context.machine_stack ≡ h.context.machine_stack

finish_read-IsRead :
    (h : Hart) (ins value : ℕ) → IsRead h (ins / 2 ^ 7 % 2 ^ 5) value (finish_read h ins value)
finish_read-IsRead h ins value = from (set_register_xi_lem h.context rd value (omega arith))
  where
    rd : ℕ
    rd = ins / 2 ^ 7 % 2 ^ 5

    from :
        (d : SupervisorContext) × (set_register_xi h.context rd value ≡ some d)
          × (1 ≤ rd → register d rd ≡ value)
          × ((j : ℕ) → j ≢ rd → register d j ≡ register h.context j)
          × SameRest h.context d
        → IsRead h rd value (finish_read h ins value)
    from (d, e, written, others, rest) = record {
      context = record d { mepc = wrapping_add d.mepc 4 };
      returns =
          ap (λ r. skip_after h (set_register_xi h.context r value)) (read_target ins)
          ∙ ap (skip_after h) e;
      written = written;
      others = others;
      skipped = ap (λ p. wrapping_add p 4) rest.1;
      status = rest.0;
      stack = rest.2;
    }

-- The encoding of `csrrs rd, csr, x0`.
abbrev pub csr_read : ℕ → ℕ → ℕ
csr_read csr rd = csr * 2 ^ 20 + 0x2073 + rd * 2 ^ 7

module _ (h : Hart) (rd ins : ℕ) (fits : rd < 32) where
  passes :
      (csr : ℕ)
      → ins ≡ csr_read csr rd
      → csr < 2 ^ 12
      → (bit_and ins 0xfffff07f ≡ csr * 2 ^ 20 + 0x2073) × (ins / 2 ^ 7 % 2 ^ 5 ≡ rd)
  passes csr e c = ((read_mask_iff csr ins (omega arith)).1 (omega arith), omega arith)

  -- `rdcycle rd` and `rdtime rd` are emulated for every target register: the register gets the
  -- counter of that name unless it is x0, the instruction is skipped, nothing else changes.
  pub emulate_rdtime-IsRead :
      (csr : ℕ)
      → (csr ≡ Csr.cycle) ⊎ (csr ≡ Csr.time)
      → ins ≡ csr_read csr rd
      → IsRead h rd (h.csr csr) (emulate_rdtime h ins)
  unfolding emulate_rdtime
  emulate_rdtime-IsRead csr (inl c) e =
      let p = passes csr e (omega arith) in
      rw
        (first_test (bit_and ins 0xfffff07f) 0xc0002073 (finish_read h ins (h.csr Csr.cycle)) _
          (omega arith))
        (rw (← p.1, c) (finish_read-IsRead h ins (h.csr Csr.cycle)))
  emulate_rdtime-IsRead csr (inr c) e =
      let p = passes csr e (omega arith) in
      rw
        (second_test (bit_and ins 0xfffff07f) 0xc0002073 0xc0102073
          (finish_read h ins (h.csr Csr.cycle)) (finish_read h ins (h.csr Csr.time)) _ (omega arith)
          (omega arith))
        (rw (← p.1, c) (finish_read-IsRead h ins (h.csr Csr.time)))

misses :
    (csr ins : ℕ)
    → ins < 2 ^ 32
    → ((rd : ℕ) → rd < 32 → ins ≢ csr_read csr rd)
    → bit_and ins 0xfffff07f ≢ csr * 2 ^ 20 + 0x2073
misses csr ins h no_read e =
    no_read (ins / 2 ^ 7 % 2 ^ 5) (omega arith) ((read_mask_iff csr ins h).0 e)

-- Any other 32-bit word is refused, and the hart is left as it was.
pub emulate_rdtime_refuses :
    (h : Hart) (ins : ℕ)
    → ins < 2 ^ 32
    → ((rd : ℕ) → rd < 32 → ins ≢ csr_read Csr.cycle rd)
    → ((rd : ℕ) → rd < 32 → ins ≢ csr_read Csr.time rd)
    → emulate_rdtime h ins ≡ some (h, false)
unfolding emulate_rdtime
emulate_rdtime_refuses h ins fits no_cycle no_time =
    no_test (bit_and ins 0xfffff07f) 0xc0002073 0xc0102073 _ _ _
      (misses Csr.cycle ins fits no_cycle) (misses Csr.time ins fits no_time)
