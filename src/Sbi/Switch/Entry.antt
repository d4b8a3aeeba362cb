-- ===== src/Sbi/Switch/Entry.antt =====
-- The trap entry `from_supervisor_save`: what it stores, and where.
use upstream_oreboot.Prelude.{ℕ, ◌+◌, ◌*◌, ◌^◌, ◌≤◌, ◌<◌, ◌≡◌, ◌≢◌, refl, sym, ap, ◌∙◌, arith}
use upstream_oreboot.Prelude.{List, [], ◌∷◌, ◌==◌, if◌then◌else◌, u64}
use mathlib.Core.Path.{subst}
use upstream_oreboot.Sbi.Switch.{
  Csr, Cpu, Instr, put, step, exec, saves, sp, t0, t1, t2, supervisor_frame, from_supervisor_save,
}
use upstream_oreboot.Sbi.Switch.Blocks.{
  exec-append, stored, Below, IsSaved, exec-saves, All, All_of_Below, All_trans, put_word,
}

-- Each register of the frame has a double word of its own.
frame_stored :
    (x old : ℕ → ℕ) → All (λ p. stored supervisor_frame x p.1 (old p.1) ≡ x p.0) supervisor_frame
frame_stored x old = omega arith

-- None of them is that of sp, of the status or of the address.
frame_apart :
    (s m e : ℕ) (w : ℕ → ℕ)
    → All
        (λ p.
          (if p.1 == 1 then s else if p.1 == 32 then e else if p.1 == 31 then m else w p.1) ≡ w p.1)
        supervisor_frame
frame_apart s m e w = omega arith

pub frame_Below : Below 34 supervisor_frame
frame_Below = omega arith

-- The six instructions behind the block.
abbrev entry_tail : List Instr
entry_tail =
    Instr.csrr t0 Csr.mstatus
    ∷ Instr.sd t0 31 sp
    ∷ Instr.csrr t1 Csr.mepc
    ∷ Instr.sd t1 32 sp
    ∷ Instr.csrrw t2 Csr.mscratch sp
    ∷ Instr.sd t2 1 sp
    ∷ []

entry_tail-mem :
    (c : Cpu) (b off : ℕ)
    → c.x sp ≡ b
    → b + 8 * 34 ≤ 2 ^ 64
    → off < 34
    → (exec entry_tail c).mem (b + off * 8) ≡ (
        if off == 1
        then c.mscratch
        else if off == 32
        then c.mepc
        else if off == 31
        then c.mstatus
        else c.mem (b + off * 8))
unfolding exec
entry_tail-mem c b off e fits h = rw e (
    ground (
      arith,
      put_word c.mem b 31 off c.mstatus 34 fits (omega arith) h,
      put_word (put c.mem (u64 (b + 248)) c.mstatus) b 32 off c.mepc 34 fits (omega arith) h,
      put_word (put (put c.mem (u64 (b + 248)) c.mstatus) (u64 (b + 256)) c.mepc) b 1 off c.mscratch
          34 fits (omega arith) h,
    ))

entry_tail-outside :
    (c : Cpu) (b a : ℕ)
    → c.x sp ≡ b
    → b + 8 * 34 ≤ 2 ^ 64
    → ((off : ℕ) → off < 34 → a ≢ b + off * 8)
    → (exec entry_tail c).mem a ≡ c.mem a
unfolding exec
entry_tail-outside c b a e fits out =
    rw e (ground (arith, out 31 (omega arith), out 32 (omega arith), out 1 (omega arith)))

entry_tail-mscratch : (c : Cpu) → (exec entry_tail c).mscratch ≡ c.x sp
unfolding exec
entry_tail-mscratch c = refl

-- `after` is the machine with the context at `k` filled by a trap: every register of the
-- supervisor, sp among them, its status and its address; the machine's stack pointer in the
-- context and all memory outside the context are as they were.
pub record IsEntered (k : ℕ) (before after : Cpu) : Type 0 where
  pub registers : All (λ p. after.mem (k + p.1 * 8) ≡ before.x p.0) ((sp, 1) ∷ supervisor_frame)
  pub status : after.mem (k + 31 * 8) ≡ before.mstatus
  pub address : after.mem (k + 32 * 8) ≡ before.mepc
  pub stack : after.mem (k + 33 * 8) ≡ before.mem (k + 33 * 8)
  pub scratch : after.mscratch ≡ k
  pub outside : (a : ℕ) → ((off : ℕ) → off < 34 → a ≢ k + off * 8) → after.mem a ≡ before.mem a

-- A trap stores all registers of the supervisor, its own sp among them, its status and its address
-- in the context that mscratch points to, which does not wrap around; it keeps the word of the
-- stack pointer, all other memory and mscratch.
pub from_supervisor_save-IsEntered :
    (c : Cpu) → c.mscratch + 8 * 34 ≤ 2 ^ 64 → IsEntered c.mscratch c (exec from_supervisor_save c)
unfolding from_supervisor_save
from_supervisor_save-IsEntered c fits = subst (IsEntered c.mscratch c) (sym split) (record {
  registers = (tail 1 (omega arith) ∙ saved.same_mscratch, frame);
  status = tail 31 (omega arith) ∙ saved.same_mstatus;
  address = tail 32 (omega arith) ∙ saved.same_mepc;
  stack = tail 33 (omega arith) ∙ saved.words 33 (omega arith);
  scratch = entry_tail-mscratch c2 ∙ at_context;
  outside = λ a out. entry_tail-outside c2 c.mscratch a at_context fits out ∙ saved.outside a out;
})
  where
    c1 : Cpu
    c1 = step (Instr.csrrw sp Csr.mscratch sp) c

    c2 : Cpu
    c2 = exec (saves sp supervisor_frame) c1

    saved : IsSaved supervisor_frame 34 sp c1 c2
    saved = exec-saves supervisor_frame 34 sp c1 frame_Below fits

    at_context : c2.x sp ≡ c.mscratch
    at_context = ap (λ (x : ℕ → ℕ). x sp) saved.same_x

    split : exec from_supervisor_save c ≡ exec entry_tail c2
    split = unfold exec in exec-append (saves sp supervisor_frame) entry_tail c1

    tail :
        (off : ℕ)
        → off < 34
        → (exec entry_tail c2).mem (c.mscratch + off * 8) ≡ (
            if off == 1
            then c2.mscratch
            else if off == 32
            then c2.mepc
            else if off == 31
            then c2.mstatus
            else c2.mem (c.mscratch + off * 8))
    tail off h = entry_tail-mem c2 c.mscratch off at_context fits h

    word : ℕ → ℕ
    word off = c.mscratch + off * 8

    old : ℕ → ℕ
    old off = c2.mem (word off)

    patched : ℕ → ℕ
    patched off =
        if off == 1
        then c2.mscratch
        else if off == 32
        then c2.mepc
        else if off == 31
        then c2.mstatus
        else old off

    kept : All (λ p. patched p.1 ≡ old p.1) supervisor_frame
    kept = frame_apart c2.mscratch c2.mstatus c2.mepc old

    filled : All (λ p. old p.1 ≡ c1.x p.0) supervisor_frame
    filled =
        All_trans (λ p. old p.1) (λ p. stored supervisor_frame c1.x p.1 (c.mem (word p.1)))
          (λ p. c1.x p.0) supervisor_frame
          (All_of_Below (λ p. old p.1 ≡ stored supervisor_frame c1.x p.1 (c.mem (word p.1))) 34
            supervisor_frame (λ r o h. saved.words o h) frame_Below)
          (frame_stored c1.x (λ off. c.mem (word off)))

    frame : All (λ p. (exec entry_tail c2).mem (word p.1) ≡ c1.x p.0) supervisor_frame
    frame =
        All_trans (λ p. (exec entry_tail c2).mem (word p.1)) (λ p. patched p.1) (λ p. c1.x p.0)
          supervisor_frame
          (All_of_Below (λ p. (exec entry_tail c2).mem (word p.1) ≡ patched p.1) 34 supervisor_frame
            (λ r o h. tail o h) frame_Below)
          (All_trans (λ p. patched p.1) (λ p. old p.1) (λ p. c1.x p.0) supervisor_frame kept filled)
