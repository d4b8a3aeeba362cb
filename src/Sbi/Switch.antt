-- ===== src/Sbi/Switch.antt =====
-- The switch between the SBI and the supervisor: the assembly of
-- src/arch/src/riscv64/sbi/runtime.rs, instruction by instruction.
pub mod Blocks
pub mod Entry
pub mod Resume
use upstream_oreboot.Prelude.{ℕ, ◌+◌, ◌-◌, ◌*◌, ◌^◌, List, [], ◌∷◌, ◌++◌, ◌==◌, if◌then◌else◌, u64}

-- Register numbers of the calling convention.
abbrev pub ra : ℕ
ra = 1

abbrev pub sp : ℕ
sp = 2

abbrev pub gp : ℕ
gp = 3

abbrev pub tp : ℕ
tp = 4

abbrev pub t0 : ℕ
t0 = 5

abbrev pub t1 : ℕ
t1 = 6

abbrev pub t2 : ℕ
t2 = 7

abbrev pub s0 : ℕ
s0 = 8

abbrev pub s1 : ℕ
s1 = 9

abbrev pub a0 : ℕ
a0 = 10

abbrev pub a1 : ℕ
a1 = 11

abbrev pub a2 : ℕ
a2 = 12

abbrev pub a3 : ℕ
a3 = 13

abbrev pub a4 : ℕ
a4 = 14

abbrev pub a5 : ℕ
a5 = 15

abbrev pub a6 : ℕ
a6 = 16

abbrev pub a7 : ℕ
a7 = 17

abbrev pub s2 : ℕ
s2 = 18

abbrev pub s3 : ℕ
s3 = 19

abbrev pub s4 : ℕ
s4 = 20

abbrev pub s5 : ℕ
s5 = 21

abbrev pub s6 : ℕ
s6 = 22

abbrev pub s7 : ℕ
s7 = 23

abbrev pub s8 : ℕ
s8 = 24

abbrev pub s9 : ℕ
s9 = 25

abbrev pub s10 : ℕ
s10 = 26

abbrev pub s11 : ℕ
s11 = 27

abbrev pub t3 : ℕ
t3 = 28

abbrev pub t4 : ℕ
t4 = 29

abbrev pub t5 : ℕ
t5 = 30

abbrev pub t6 : ℕ
t6 = 31

pub data Csr : Type 0 where
  mscratch mstatus mepc : Csr

-- `sd rs off base` is `sd rs, off*8(base)`; `ld rd off base` is `ld rd, off*8(base)`.
pub data Instr : Type 0 where
  sd : ℕ → ℕ → ℕ → Instr
  ld : ℕ → ℕ → ℕ → Instr
  addi : ℕ → ℕ → ℕ → Instr
  mv : ℕ → ℕ → Instr
  csrw : Csr → ℕ → Instr
  csrr : ℕ → Csr → Instr
  csrrw : ℕ → Csr → ℕ → Instr

-- The state that the code sees: registers, memory by the address of a double word, three CSRs.
pub record Cpu : Type 0 where
  pub x : ℕ → ℕ
  pub mem : ℕ → ℕ
  pub mscratch : ℕ
  pub mstatus : ℕ
  pub mepc : ℕ

abbrev pub put : (ℕ → ℕ) → ℕ → ℕ → ℕ → ℕ
put f n v k = if k == n then v else f k

abbrev pub read_csr : Csr → Cpu → ℕ
read_csr Csr.mscratch c = c.mscratch
read_csr Csr.mstatus c = c.mstatus
read_csr Csr.mepc c = c.mepc

abbrev pub set_csr : Csr → ℕ → Cpu → Cpu
set_csr Csr.mscratch v c = record c { mscratch = v }
set_csr Csr.mstatus v c = record c { mstatus = v }
set_csr Csr.mepc v c = record c { mepc = v }

abbrev pub set_x : ℕ → ℕ → Cpu → Cpu
set_x r v c = record c { x = put c.x r v }

abbrev pub step : Instr → Cpu → Cpu
step (sd rs off base) c = record c { mem = put c.mem (u64 (c.x base + off * 8)) (c.x rs) }
step (ld rd off base) c = set_x rd (c.mem (u64 (c.x base + off * 8))) c
step (addi rd rs imm) c = set_x rd (u64 (c.x rs + imm)) c
step (mv rd rs) c = set_x rd (c.x rs) c
step (csrw csr rs) c = set_csr csr (c.x rs) c
step (csrr rd csr) c = set_x rd (read_csr csr c) c
step (csrrw rd csr rs) c = set_x rd (read_csr csr c) (set_csr csr (c.x rs) c)

unfoldable pub exec : List Instr → Cpu → Cpu
exec [] c = c
exec (i ∷ is) c = exec is (step i c)

-- Stores and loads of a block, as pairs of a register and its double word.
abbrev pub saves : ℕ → List (ℕ × ℕ) → List Instr
saves base [] = []
saves base ((r, off) ∷ rest) = sd r off base ∷ saves base rest

abbrev pub loads : ℕ → List (ℕ × ℕ) → List Instr
loads base [] = []
loads base ((r, off) ∷ rest) = ld r off base ∷ loads base rest

-- The registers that a call must preserve, in the frame on the machine's stack.
abbrev pub machine_frame : List (ℕ × ℕ)
machine_frame =
    (ra, 0)
    ∷ (gp, 1)
    ∷ (tp, 2)
    ∷ (s0, 3)
    ∷ (s1, 4)
    ∷ (s2, 5)
    ∷ (s3, 6)
    ∷ (s4, 7)
    ∷ (s5, 8)
    ∷ (s6, 9)
    ∷ (s7, 10)
    ∷ (s8, 11)
    ∷ (s9, 12)
    ∷ (s10, 13)
    ∷ (s11, 14)
    ∷ []

-- All registers but sp, in the supervisor's context.
abbrev pub supervisor_frame : List (ℕ × ℕ)
supervisor_frame =
    (ra, 0)
    ∷ (gp, 2)
    ∷ (tp, 3)
    ∷ (t0, 4)
    ∷ (t1, 5)
    ∷ (t2, 6)
    ∷ (s0, 7)
    ∷ (s1, 8)
    ∷ (a0, 9)
    ∷ (a1, 10)
    ∷ (a2, 11)
    ∷ (a3, 12)
    ∷ (a4, 13)
    ∷ (a5, 14)
    ∷ (a6, 15)
    ∷ (a7, 16)
    ∷ (s2, 17)
    ∷ (s3, 18)
    ∷ (s4, 19)
    ∷ (s5, 20)
    ∷ (s6, 21)
    ∷ (s7, 22)
    ∷ (s8, 23)
    ∷ (s9, 24)
    ∷ (s10, 25)
    ∷ (s11, 26)
    ∷ (t3, 27)
    ∷ (t4, 28)
    ∷ (t5, 29)
    ∷ (t6, 30)
    ∷ []

-- `addi sp, sp, -15*8`, and the stores of the frame.
unfoldable pub from_machine_save : List Instr
from_machine_save = addi sp sp (2 ^ 64 - 15 * 8) ∷ saves sp machine_frame

-- Up to `mret`.
unfoldable pub to_supervisor_restore : List Instr
to_supervisor_restore =
    sd sp 33 a0
    ∷ csrw Csr.mscratch a0
    ∷ mv sp a0
    ∷ ld t0 31 sp
    ∷ ld t1 32 sp
    ∷ csrw Csr.mstatus t0
    ∷ csrw Csr.mepc t1
    ∷ (loads sp supervisor_frame ++ (ld sp 1 sp ∷ []))

unfoldable pub from_supervisor_save : List Instr
from_supervisor_save =
    csrrw sp Csr.mscratch sp
    ∷ (saves sp supervisor_frame
        ++ (csrr t0 Csr.mstatus
            ∷ sd t0 31 sp
            ∷ csrr t1 Csr.mepc
            ∷ sd t1 32 sp
            ∷ csrrw t2 Csr.mscratch sp
            ∷ sd t2 1 sp
            ∷ []))

-- Up to the return through ra.
unfoldable pub to_machine_restore : List Instr
to_machine_restore =
    csrr sp Csr.mscratch ∷ ld sp 33 sp ∷ (loads sp machine_frame ++ (addi sp sp (15 * 8) ∷ []))
