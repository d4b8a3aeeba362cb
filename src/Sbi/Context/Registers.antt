-- ===== src/Sbi/Context/Registers.antt =====
-- What `set_register_xi` does to each register.
use upstream_oreboot.Prelude.{
  ℕ, suc, ltb, ◌==◌, if◌then◌else◌, sym, ◌-◌, ◌≤◌, ◌≡◌, ◌≢◌, refl, ap, ◌∙◌, zero, arith, some, none,
}
use mathlib.Core.Path.{subst}
use upstream_oreboot.Prelude.{List, [], ◌∷◌, get_or, set, length}
use upstream_oreboot.Prelude.{get_or-set_self, get_or-set_ne, length-set}
use upstream_oreboot.Sbi.Context.{SupervisorContext, registers, with_registers, set_register_xi}

-- The `n` elements from index `i` on.
abbrev elements : ℕ → ℕ → List ℕ → List ℕ
elements zero i l = []
elements (suc n) i l = get_or l i 0 ∷ elements n (suc i) l

elements_cons : (n i x : ℕ) (l : List ℕ) → elements n (suc i) (x ∷ l) ≡ elements n i l
elements_cons zero i x l = refl
elements_cons (suc n) i x l = ap (λ t. get_or l i 0 ∷ t) (elements_cons n (suc i) x l)

elements-all : (l : List ℕ) → elements (length l) 0 l ≡ l
elements-all [] = refl
elements-all (x ∷ l) = ap (λ t. x ∷ t) (elements_cons (length l) 0 x l ∙ elements-all l)

-- Reading back what was written through the cast.
pub registers-with_registers :
    (l : List ℕ) (c : SupervisorContext) → length l ≡ 31 → registers (with_registers l c) ≡ l
registers-with_registers l c h = subst (λ (n : ℕ). elements n 0 l ≡ l) h (elements-all l)

-- Register `i`, where x0 reads as 0.
abbrev pub register : SupervisorContext → ℕ → ℕ
register c i = get_or (0 ∷ registers c) i 0

-- The rest of the context is what a record of the same registers shares.
abbrev pub SameRest : SupervisorContext → SupervisorContext → Type 0
SameRest c d = (d.mstatus ≡ c.mstatus) × (d.mepc ≡ c.mepc) × (d.machine_stack ≡ c.machine_stack)

-- The branch of the write that stores, with the context's type left open.
stores :
    {A : Type 0} (c : A) (f : ℕ → A) (i : ℕ)
    → suc i ≤ 31
    → (if ltb 31 (suc i) then none else if suc i == 0 then some c else some (f (suc i - 1)))
      ≡ some (f i)
stores c f i h = ground arith

register-suc :
    (c d : SupervisorContext) (i value : ℕ)
    → registers d ≡ set (registers c) i value
    → (j : ℕ) → j ≢ suc i
    → register d j ≡ register c j
register-suc c d i value same zero ne = refl
register-suc c d i value same (suc j) ne =
    ap (λ l. get_or l j 0) same ∙ get_or-set_ne (registers c) i j value 0 (λ e. ne (ap suc (sym e)))

-- A write to register `i` succeeds for every register number; it sets that register unless it is
-- x0, leaves every other register and the rest of the context alone.
pub set_register_xi_lem :
    (c : SupervisorContext) (i value : ℕ)
    → i ≤ 31
    → (d : SupervisorContext) × (set_register_xi c i value ≡ some d)
      × (1 ≤ i → register d i ≡ value)
      × ((j : ℕ) → j ≢ i → register d j ≡ register c j)
      × SameRest c d
unfolding set_register_xi
set_register_xi_lem c zero value h =
    (c, refl, (λ p. absurd (omega arith)), (λ j ne. refl), (refl, refl, refl))
set_register_xi_lem c (suc i) value h =
    let l = set (registers c) i value in
    let same : registers (with_registers l c) ≡ l =
      registers-with_registers l c (length-set (registers c) i value) in
    (
      with_registers l c,
      stores c (λ k. with_registers (set (registers c) k value) c) i h,
      (λ p. ap (λ t. get_or t i 0) same ∙ get_or-set_self (registers c) i value 0 (omega arith)),
      register-suc c (with_registers l c) i value same,
      (refl, refl, refl),
    )
