-- ===== src/Sbi/Switch/Blocks.antt =====
-- What a block of stores and a block of loads do.
use upstream_oreboot.Prelude.{ℕ, ◌+◌, ◌*◌, ◌^◌, ◌≤◌, ◌<◌, ◌≡◌, ◌≢◌, refl, ap, ◌∙◌, arith}
use upstream_oreboot.Prelude.{List, [], ◌∷◌, ◌++◌, ◌==◌, if◌then◌else◌, u64}
use upstream_oreboot.Sbi.Switch.{Cpu, Instr, put, step, exec, saves, loads}

pub exec-append : (is js : List Instr) (c : Cpu) → exec (is ++ js) c ≡ exec js (exec is c)
unfolding exec
exec-append [] js c = refl
exec-append (i ∷ is) js c = exec-append is js (step i c)

-- The double word `off` after the stores of `frame`, if `old` was there.
abbrev pub stored : List (ℕ × ℕ) → (ℕ → ℕ) → ℕ → ℕ → ℕ
stored [] x off old = old
stored ((r, o) ∷ rest) x off old = stored rest x off (if off == o then x r else old)

-- Register `r` after the loads of `frame`, if it was `old`.
abbrev pub loaded : List (ℕ × ℕ) → (ℕ → ℕ) → ℕ → ℕ → ℕ
loaded [] word r old = old
loaded ((q, o) ∷ rest) word r old = loaded rest word r (if r == q then word o else old)

-- Every double word of `frame` lies below `n`.
abbrev pub Below : ℕ → List (ℕ × ℕ) → Type 0
Below n [] = Unit
Below n ((r, o) ∷ rest) = (o < n) × Below n rest

-- No load of `frame` is into `base`.
abbrev pub Avoids : ℕ → List (ℕ × ℕ) → Type 0
Avoids base [] = Unit
Avoids base ((r, o) ∷ rest) = (base ≢ r) × Avoids base rest

pub put_word :
    (m : ℕ → ℕ) (b o off v n : ℕ)
    → b + 8 * n ≤ 2 ^ 64
    → o < n
    → off < n
    → put m (u64 (b + o * 8)) v (b + off * 8) ≡ (if off == o then v else m (b + off * 8))
put_word m b o off v n fits ho hoff = ground arith

-- The stores leave registers and CSRs alone, and write the words of the frame.
pub record IsSaved (frame : List (ℕ × ℕ)) (n base : ℕ) (c d : Cpu) : Type 0 where
  pub same_x : d.x ≡ c.x
  pub same_mscratch : d.mscratch ≡ c.mscratch
  pub same_mstatus : d.mstatus ≡ c.mstatus
  pub same_mepc : d.mepc ≡ c.mepc
  pub words :
      (off : ℕ)
      → off < n
      → d.mem (c.x base + off * 8) ≡ stored frame c.x off (c.mem (c.x base + off * 8))
  pub outside : (a : ℕ) → ((off : ℕ) → off < n → a ≢ c.x base + off * 8) → d.mem a ≡ c.mem a

pub put_outside :
    (m : ℕ → ℕ) (b o v n a : ℕ)
    → b + 8 * n ≤ 2 ^ 64
    → o < n
    → ((off : ℕ) → off < n → a ≢ b + off * 8)
    → put m (u64 (b + o * 8)) v a ≡ m a
put_outside m b o v n a fits ho out = ground (arith, out o)

pub exec-saves :
    (frame : List (ℕ × ℕ)) (n base : ℕ) (c : Cpu)
    → Below n frame
    → c.x base + 8 * n ≤ 2 ^ 64
    → IsSaved frame n base c (exec (saves base frame) c)
unfolding exec
exec-saves [] n base c below fits = record {
  same_x = refl;
  same_mscratch = refl;
  same_mstatus = refl;
  same_mepc = refl;
  words = λ off h. refl;
  outside = λ a out. refl;
}
exec-saves ((r, o) ∷ rest) n base c below fits =
    let c1 = step (Instr.sd r o base) c in
    let ih = exec-saves rest n base c1 below.1 fits in
    record {
      same_x = ih.same_x;
      same_mscratch = ih.same_mscratch;
      same_mstatus = ih.same_mstatus;
      same_mepc = ih.same_mepc;
      words = λ off h.
          ih.words off h
          ∙ ap (stored rest c.x off) (put_word c.mem (c.x base) o off (c.x r) n fits below.0 h);
      outside =
          λ a out. ih.outside a out ∙ put_outside c.mem (c.x base) o (c.x r) n a fits below.0 out;
    }

-- The loads leave memory and CSRs alone, and read the words of the frame.
pub record IsLoaded (frame : List (ℕ × ℕ)) (base : ℕ) (c d : Cpu) : Type 0 where
  pub same_mem : d.mem ≡ c.mem
  pub same_mscratch : d.mscratch ≡ c.mscratch
  pub same_mstatus : d.mstatus ≡ c.mstatus
  pub same_mepc : d.mepc ≡ c.mepc
  pub registers : (r : ℕ) → d.x r ≡ loaded frame (λ o. c.mem (u64 (c.x base + o * 8))) r (c.x r)

put_ne : (f : ℕ → ℕ) (n v k : ℕ) → k ≢ n → put f n v k ≡ f k
put_ne f n v k ne = ground arith

pub exec-loads :
    (frame : List (ℕ × ℕ)) (base : ℕ) (c : Cpu)
    → Avoids base frame
    → IsLoaded frame base c (exec (loads base frame) c)
unfolding exec
exec-loads [] base c avoids = record {
  same_mem = refl;
  same_mscratch = refl;
  same_mstatus = refl;
  same_mepc = refl;
  registers = λ r. refl;
}
exec-loads ((q, o) ∷ rest) base c avoids =
    let c1 = step (Instr.ld q o base) c in
    let ih = exec-loads rest base c1 avoids.1 in
    let kept : c1.x base ≡ c.x base = put_ne c.x q _ base avoids.0 in
    record {
      same_mem = ih.same_mem;
      same_mscratch = ih.same_mscratch;
      same_mstatus = ih.same_mstatus;
      same_mepc = ih.same_mepc;
      registers = λ r.
          ih.registers r
          ∙ ap (λ (b : ℕ). loaded rest (λ o'. c.mem (u64 (b + o' * 8))) r (c1.x r)) kept;
    }

-- `P` holds of every pair of a frame.
abbrev pub All : (ℕ × ℕ → Type 0) → List (ℕ × ℕ) → Type 0
All P [] = Unit
All P (p ∷ rest) = P p × All P rest

pub All_of_Below :
    (P : ℕ × ℕ → Type 0) (n : ℕ) (frame : List (ℕ × ℕ))
    → ((r o : ℕ) → o < n → P (r, o))
    → Below n frame
    → All P frame
All_of_Below P n [] h below = tt
All_of_Below P n ((r, o) ∷ rest) h below = (h r o below.0, All_of_Below P n rest h below.1)

pub All_trans :
    (f g h : ℕ × ℕ → ℕ) (frame : List (ℕ × ℕ))
    → All (λ p. f p ≡ g p) frame
    → All (λ p. g p ≡ h p) frame
    → All (λ p. f p ≡ h p) frame
All_trans f g h [] a b = tt
All_trans f g h (p ∷ rest) a b = (a.0 ∙ b.0, All_trans f g h rest a.1 b.1)
