-- ===== src/Sbi/Switch/Resume.antt =====
-- The way into the supervisor, `to_supervisor_restore`.
use upstream_oreboot.Prelude.{ℕ, ◌+◌, ◌*◌, ◌^◌, ◌≤◌, ◌<◌, ◌≡◌, sym, ap, ◌∙◌, arith}
use upstream_oreboot.Prelude.{[], ◌∷◌, u64}
use mathlib.Core.Path.{subst}
use upstream_oreboot.Sbi.Switch.{
  Csr, Cpu, Instr, put, step, exec, loads, sp, t0, t1, a0, supervisor_frame, to_supervisor_restore,
}
use upstream_oreboot.Sbi.Switch.Blocks.{
  exec-append, loaded, Avoids, IsLoaded, exec-loads, All, All_of_Below, All_trans,
}
use upstream_oreboot.Sbi.Switch.Entry.{frame_Below}

-- Each register of the frame is loaded from its own double word.
frame_loaded :
    (w x : ℕ → ℕ) → All (λ p. loaded supervisor_frame w p.0 (x p.0) ≡ w p.1) supervisor_frame
frame_loaded w x = omega arith

frame_Avoids : Avoids sp supervisor_frame
frame_Avoids = omega arith

-- The store of the machine's stack pointer misses the words of the context below it.
below_stack :
    (m : ℕ → ℕ) (k v off : ℕ)
    → k + 8 * 34 ≤ 2 ^ 64
    → off < 33
    → put m (u64 (k + 264)) v (u64 (k + off * 8)) ≡ m (k + off * 8)
below_stack m k v off fits h =
    let inside : u64 (k + off * 8) ≡ k + off * 8 = omega arith in rw inside (ground arith)

-- `after` is the supervisor resumed from the context at `k`: its registers, sp among them, its
-- status and its address are those of the context; mscratch points to the context, and the
-- machine's stack pointer is kept in its last word.
pub record IsResumed (k : ℕ) (before after : Cpu) : Type 0 where
  pub registers : All (λ p. after.x p.0 ≡ before.mem (k + p.1 * 8)) ((sp, 1) ∷ supervisor_frame)
  pub status : after.mstatus ≡ before.mem (k + 31 * 8)
  pub address : after.mepc ≡ before.mem (k + 32 * 8)
  pub scratch : after.mscratch ≡ k
  pub memory : after.mem ≡ put before.mem (u64 (k + 264)) (before.x sp)

-- The way into the supervisor loads all its registers, sp among them, its status and its address
-- from the context that a0 points to, which does not wrap around; it keeps the stack pointer in
-- the last word of the context and its address in mscratch, and writes no other memory.
pub to_supervisor_restore-IsResumed :
    (c : Cpu) → c.x a0 + 8 * 34 ≤ 2 ^ 64 → IsResumed (c.x a0) c (exec to_supervisor_restore c)
unfolding to_supervisor_restore
to_supervisor_restore-IsResumed c fits = subst (IsResumed k c) (sym split) (record {
  registers = (
    ap (λ m. m (u64 (c2.x sp + 8))) block.same_mem
        ∙ ap (λ (b : ℕ). c1.mem (u64 (b + 8))) (block.registers sp)
        ∙ word 1 (omega arith),
    frame,
  );
  status = block.same_mstatus ∙ word 31 (omega arith);
  address = block.same_mepc ∙ word 32 (omega arith);
  scratch = block.same_mscratch;
  memory = block.same_mem;
})
  where
    k : ℕ
    k = c.x a0

    c1 : Cpu
    c1 = step (Instr.csrw Csr.mepc t1) (
        step (Instr.csrw Csr.mstatus t0) (
          step (Instr.ld t1 32 sp) (
            step (Instr.ld t0 31 sp) (
              step (Instr.mv sp a0)
                (step (Instr.csrw Csr.mscratch a0) (step (Instr.sd sp 33 a0) c))))))

    c2 : Cpu
    c2 = exec (loads sp supervisor_frame) c1

    split : exec to_supervisor_restore c ≡ step (Instr.ld sp 1 sp) c2
    split = unfold exec in exec-append (loads sp supervisor_frame) (Instr.ld sp 1 sp ∷ []) c1

    block : IsLoaded supervisor_frame sp c1 c2
    block = exec-loads supervisor_frame sp c1 frame_Avoids

    word : (off : ℕ) → off < 33 → c1.mem (u64 (k + off * 8)) ≡ c.mem (k + off * 8)
    word off h = below_stack c.mem k (c.x sp) off fits h

    words : ℕ → ℕ
    words o = c1.mem (u64 (k + o * 8))

    frame : All (λ p. c2.x p.0 ≡ c.mem (k + p.1 * 8)) supervisor_frame
    frame =
        All_trans (λ p. c2.x p.0) (λ p. words p.1) (λ p. c.mem (k + p.1 * 8)) supervisor_frame
          (All_trans (λ p. c2.x p.0) (λ p. loaded supervisor_frame words p.0 (c1.x p.0))
            (λ p. words p.1) supervisor_frame
            (All_of_Below (λ p. c2.x p.0 ≡ loaded supervisor_frame words p.0 (c1.x p.0)) 34
              supervisor_frame (λ r o h. block.registers r) frame_Below)
            (frame_loaded words c1.x))
          (All_of_Below (λ p. words p.1 ≡ c.mem (k + p.1 * 8)) 33 supervisor_frame
            (λ r o h. word o h) (omega arith))
