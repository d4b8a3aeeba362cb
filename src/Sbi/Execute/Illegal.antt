-- ===== src/Sbi/Execute/Illegal.antt =====
-- How execute.rs serves an illegal instruction.
use upstream_oreboot.Prelude.{ℕ, ◌/◌, ◌%◌, ◌^◌, ◌<◌, ◌≡◌, ◌≢◌, ◌⊎◌, inl, inr, refl, arith}
use upstream_oreboot.Prelude.{Bool, true, false, not, ◌==◌, Bool-cases, ==_iff, bit_and}
use upstream_oreboot.Prelude.{some, u16, u32, ◌<<<◌, wrapping_add, ap, ◌∙◌, sym}
use mathlib.Core.Path.{subst}
use upstream_oreboot.Prelude.Bits.{bit_or-le}
use upstream_oreboot.Sbi.Context.{SupervisorContext}
use upstream_oreboot.Sbi.Csr
use upstream_oreboot.Sbi.Riscv.{Hart, Riscv, Mpp, Trap}
use upstream_oreboot.Sbi.Feature.{emulate_rdtime, emulate_sfence_vma, should_transfer_trap}
use upstream_oreboot.Sbi.Feature.{do_transfer_trap, is_machine}
use upstream_oreboot.Sbi.Feature.Decode.{read_mask_iff, fence_mask}
use upstream_oreboot.Sbi.Feature.Reads.{IsRead, csr_read, emulate_rdtime-IsRead}
use upstream_oreboot.Sbi.Feature.Reads.{emulate_rdtime_refuses}
use upstream_oreboot.Sbi.Feature.Fence.{IsFenced, sfence_vma, emulate_sfence_vma-IsFenced}
use upstream_oreboot.Sbi.Feature.Transfer.{IsDelivered, do_transfer_trap-IsDelivered}
use upstream_oreboot.Sbi.Execute.{Outcome, running, ebreak, get_vaddr_u32, or_else_fence}
use upstream_oreboot.Sbi.Execute.{emulate_illegal_instruction, or_else_transfer, handle_illegal}

-- The instruction word is a 32-bit word.
pub get_vaddr_u32-lt : (h : Hart) (a : ℕ) → get_vaddr_u32 h a < 2 ^ 32
unfolding get_vaddr_u32
get_vaddr_u32-lt h a =
    omega (arith, bit_or-le (u16 (h.lhu a)) (u32 (u16 (h.lhu (wrapping_add a 2)) <<< 16)))

-- Which of the emulated instructions a word is.
pub data Kind (ins : ℕ) : Type 0 where
  counter :
      (csr rd : ℕ)
      → rd < 32
      → (csr ≡ Csr.cycle) ⊎ (csr ≡ Csr.time)
      → ins ≡ csr_read csr rd
      → Kind ins
  fence : (rs : ℕ) → rs < 2 ^ 10 → ins ≡ sfence_vma rs → Kind ins
  other :
      ((h : Hart) → emulate_rdtime h ins ≡ some (h, false))
      → ((h : Hart) → emulate_sfence_vma h ins ≡ (h, false))
      → Kind ins

Kind-fence :
    (ins : ℕ) → ins < 2 ^ 32 → ((h : Hart) → emulate_rdtime h ins ≡ some (h, false)) → Kind ins
unfolding emulate_sfence_vma
Kind-fence ins fits no_read = elim (Bool-cases (bit_and ins 0xfe007fff == 0x12000073)) [
  | inl e ↦
      fence (ins / 2 ^ 15 % 2 ^ 10) (omega arith)
        (omega (arith, fence_mask ins fits, (==_iff (bit_and ins 0xfe007fff) 0x12000073).0 e))
  | inr e ↦ other no_read (λ h. rw e refl)
]

pub kind : (ins : ℕ) → ins < 2 ^ 32 → Kind ins
unfolding emulate_rdtime
kind ins fits = elim (Bool-cases (bit_and ins 0xfffff07f == 0xc0002073)) [
  | inl e ↦
      counter Csr.cycle (ins / 2 ^ 7 % 2 ^ 5) (omega arith) (inl refl)
        ((read_mask_iff Csr.cycle ins fits).0 ((==_iff (bit_and ins 0xfffff07f) 0xc0002073).0 e))
  | inr e ↦ elim (Bool-cases (bit_and ins 0xfffff07f == 0xc0102073)) [
    | inl f ↦
        counter Csr.time (ins / 2 ^ 7 % 2 ^ 5) (omega arith) (inr refl)
          ((read_mask_iff Csr.time ins fits).0 ((==_iff (bit_and ins 0xfffff07f) 0xc0102073).0 f))
    | inr f ↦ Kind-fence ins fits (λ h. rw (e, f) refl)
  ]
]

-- The hart after a breakpoint: the two-byte instruction is skipped.
abbrev pub past_ebreak : Hart → Hart
past_ebreak h = record h { context = record h.context { mepc = wrapping_add h.context.mepc 2 } }

module _ ⦃api : Riscv⦄ where
  -- The ways in which the word `ins` is served without a panic.
  pub data IsServed (h : Hart) (ins : ℕ) (result : Outcome) : Type 0 where
    breakpoint : u16 ins ≡ ebreak → result ≡ running (past_ebreak h) → IsServed h ins result
    counted :
        (csr rd : ℕ) (after : Hart)
        → (csr ≡ Csr.cycle) ⊎ (csr ≡ Csr.time)
        → ins ≡ csr_read csr rd
        → IsRead h rd (h.csr csr) (some (after, true))
        → result ≡ running after
        → IsServed h ins result
    fenced :
        (rs : ℕ) (after : Hart)
        → ins ≡ sfence_vma rs
        → IsFenced h (after, true)
        → result ≡ running after
        → IsServed h ins result
    delivered :
        (after : Hart)
        → IsDelivered Trap.illegal_instruction h after
        → result ≡ running after
        → IsServed h ins result

  read_case :
      (h : Hart) (ins csr rd : ℕ)
      → (csr ≡ Csr.cycle) ⊎ (csr ≡ Csr.time)
      → ins ≡ csr_read csr rd
      → IsRead h rd (h.csr csr) (emulate_rdtime h ins)
      → IsServed h ins (or_else_transfer (emulate_illegal_instruction h ins))
  unfolding emulate_illegal_instruction
  read_case h ins csr rd which e read =
      counted csr rd (record h { context = read.context }) which e
        (subst (IsRead h rd (h.csr csr)) read.returns read)
        (ap (λ r. or_else_transfer (or_else_fence r ins)) read.returns)

  fence_case :
      (h : Hart) (ins rs : ℕ)
      → ins ≡ sfence_vma rs
      → emulate_rdtime h ins ≡ some (h, false)
      → IsFenced h (emulate_sfence_vma h ins)
      → IsServed h ins (or_else_transfer (emulate_illegal_instruction h ins))
  unfolding emulate_illegal_instruction
  fence_case h ins rs e no_read done =
      fenced rs (emulate_sfence_vma h ins).0 e
        (subst (λ b. IsFenced h ((emulate_sfence_vma h ins).0, b)) done.done done)
        (ap (λ r. or_else_transfer (or_else_fence r ins)) no_read
          ∙ ap (λ (b : Bool). or_else_transfer (some ((emulate_sfence_vma h ins).0, b))) done.done)

  other_case :
      (h : Hart) (ins : ℕ)
      → emulate_rdtime h ins ≡ some (h, false)
      → emulate_sfence_vma h ins ≡ (h, false)
      → should_transfer_trap h.context ≡ true
      → IsServed h ins (or_else_transfer (emulate_illegal_instruction h ins))
  unfolding emulate_illegal_instruction
  other_case h ins no_read no_fence below =
      delivered (do_transfer_trap h Trap.illegal_instruction)
        (do_transfer_trap-IsDelivered h Trap.illegal_instruction)
        (ap (λ r. or_else_transfer (or_else_fence r ins)) no_read
          ∙ ap (λ r. or_else_transfer (some r)) no_fence
          ∙ rw below refl)

  emulated_case :
      (h : Hart) (ins : ℕ)
      → Kind ins
      → should_transfer_trap h.context ≡ true
      → h.csr Csr.mstatus < 2 ^ 64
      → IsServed h ins (or_else_transfer (emulate_illegal_instruction h ins))
  emulated_case h ins (counter csr rd fits which e) below word =
      read_case h ins csr rd which e (emulate_rdtime-IsRead h rd ins fits csr which e)
  emulated_case h ins (fence rs fits e) below word =
      fence_case h ins rs e
        (emulate_rdtime_refuses h ins (omega arith) (λ rd f. omega arith) (λ rd f. omega arith))
        (subst (λ w. IsFenced h (emulate_sfence_vma h w)) (sym e)
          (emulate_sfence_vma-IsFenced h rs fits word))
  emulated_case h ins (other no_read no_fence) below word =
      other_case h ins (no_read h) (no_fence h) below

  not_machine : (m : Mpp) → m ≢ Mpp.machine → not (is_machine m) ≡ true
  not_machine Mpp.machine ne = absurd (ne refl)
  not_machine Mpp.supervisor ne = refl
  not_machine Mpp.user ne = refl

  transfers :
      (c : SupervisorContext) → api.mpp c.mstatus ≢ Mpp.machine → should_transfer_trap c ≡ true
  unfolding should_transfer_trap
  transfers c ne = not_machine (api.mpp c.mstatus) ne

  -- An illegal instruction that did not trap from machine mode never makes the SBI panic or leave
  -- its loop: it is a breakpoint that is skipped, a counter read or a fence that is emulated, or
  -- it is delivered to the supervisor.
  pub handle_illegal-IsServed :
      (h : Hart)
      → api.mpp h.context.mstatus ≢ Mpp.machine
      → h.csr Csr.mstatus < 2 ^ 64
      → IsServed h (get_vaddr_u32 h h.context.mepc) (handle_illegal h)
  unfolding handle_illegal
  handle_illegal-IsServed h below word =
      let ins = get_vaddr_u32 h h.context.mepc in
      elim (Bool-cases (u16 ins == ebreak)) [
        | inl e ↦ breakpoint ((==_iff (u16 ins) ebreak).0 e) (rw e refl)
        | inr e ↦ rw e (
            emulated_case h ins (kind ins (get_vaddr_u32-lt h h.context.mepc))
              (transfers h.context below) word)
      ]
