-- ===== src/Sbi/Context.antt =====
-- `SupervisorContext` of src/arch/src/riscv64/sbi/runtime.rs, and its view as an array of
-- registers (feature/emulate_rdtime.rs casts a `&mut SupervisorContext` to `&mut [usize; 31]`).
pub mod Registers
use upstream_oreboot.Prelude.{ℕ, ◌-◌, List, [], ◌∷◌, Option, none, some, get_or, set}
use upstream_oreboot.Prelude.{ltb, ◌==◌, if◌then◌else◌}

-- Fields in the order of the `repr(C)` layout; `mstatus` is the raw word.
pub record SupervisorContext : Type 0 where
  pub ra : ℕ
  pub sp : ℕ
  pub gp : ℕ
  pub tp : ℕ
  pub t0 : ℕ
  pub t1 : ℕ
  pub t2 : ℕ
  pub s0 : ℕ
  pub s1 : ℕ
  pub a0 : ℕ
  pub a1 : ℕ
  pub a2 : ℕ
  pub a3 : ℕ
  pub a4 : ℕ
  pub a5 : ℕ
  pub a6 : ℕ
  pub a7 : ℕ
  pub s2 : ℕ
  pub s3 : ℕ
  pub s4 : ℕ
  pub s5 : ℕ
  pub s6 : ℕ
  pub s7 : ℕ
  pub s8 : ℕ
  pub s9 : ℕ
  pub s10 : ℕ
  pub s11 : ℕ
  pub t3 : ℕ
  pub t4 : ℕ
  pub t5 : ℕ
  pub t6 : ℕ
  pub mstatus : ℕ
  pub mepc : ℕ
  pub machine_stack : ℕ

-- The first 31 words of the context, as the cast reads them.
abbrev pub registers : SupervisorContext → List ℕ
registers c =
    c.ra ∷ c.sp ∷ c.gp ∷ c.tp ∷ c.t0 ∷ c.t1 ∷ c.t2 ∷ c.s0 ∷ c.s1 ∷ c.a0 ∷ c.a1 ∷ c.a2 ∷ c.a3 ∷ c.a4
    ∷ c.a5 ∷ c.a6 ∷ c.a7 ∷ c.s2 ∷ c.s3 ∷ c.s4 ∷ c.s5 ∷ c.s6 ∷ c.s7 ∷ c.s8 ∷ c.s9 ∷ c.s10 ∷ c.s11
    ∷ c.t3 ∷ c.t4 ∷ c.t5 ∷ c.t6 ∷ []

-- The context after a write through the cast.
abbrev pub with_registers : List ℕ → SupervisorContext → SupervisorContext
with_registers r c = record c {
  ra = get_or r 0 0;
  sp = get_or r 1 0;
  gp = get_or r 2 0;
  tp = get_or r 3 0;
  t0 = get_or r 4 0;
  t1 = get_or r 5 0;
  t2 = get_or r 6 0;
  s0 = get_or r 7 0;
  s1 = get_or r 8 0;
  a0 = get_or r 9 0;
  a1 = get_or r 10 0;
  a2 = get_or r 11 0;
  a3 = get_or r 12 0;
  a4 = get_or r 13 0;
  a5 = get_or r 14 0;
  a6 = get_or r 15 0;
  a7 = get_or r 16 0;
  s2 = get_or r 17 0;
  s3 = get_or r 18 0;
  s4 = get_or r 19 0;
  s5 = get_or r 20 0;
  s6 = get_or r 21 0;
  s7 = get_or r 22 0;
  s8 = get_or r 23 0;
  s9 = get_or r 24 0;
  s10 = get_or r 25 0;
  s11 = get_or r 26 0;
  t3 = get_or r 27 0;
  t4 = get_or r 28 0;
  t5 = get_or r 29 0;
  t6 = get_or r 30 0;
}

-- `MaybeUninit::zeroed().assume_init()`.
abbrev pub zeroed : SupervisorContext
zeroed = record {
  ra = 0;
  sp = 0;
  gp = 0;
  tp = 0;
  t0 = 0;
  t1 = 0;
  t2 = 0;
  s0 = 0;
  s1 = 0;
  a0 = 0;
  a1 = 0;
  a2 = 0;
  a3 = 0;
  a4 = 0;
  a5 = 0;
  a6 = 0;
  a7 = 0;
  s2 = 0;
  s3 = 0;
  s4 = 0;
  s5 = 0;
  s6 = 0;
  s7 = 0;
  s8 = 0;
  s9 = 0;
  s10 = 0;
  s11 = 0;
  t3 = 0;
  t4 = 0;
  t5 = 0;
  t6 = 0;
  mstatus = 0;
  mepc = 0;
  machine_stack = 0;
}

-- `none` is the failed assertion. Register x0 is not modified.
unfoldable pub set_register_xi : SupervisorContext → ℕ → ℕ → Option SupervisorContext
set_register_xi c i value =
    if ltb 31 i
    then none
    else if i == 0
    then some c
    else some (with_registers (set (registers c) (i - 1) value) c)
