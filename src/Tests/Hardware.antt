-- ===== src/Tests/Hardware.antt =====
-- A hart with the bit layout of the privileged architecture, and a crate that forwards resets.
use upstream_oreboot.Prelude.{ℕ, ◌+◌, ◌-◌, ◌*◌, ◌/◌, ◌%◌, ◌^◌, ◌≡◌, arith, true, false}
use upstream_oreboot.Prelude.{[], ◌==◌, if◌then◌else◌, ltb, get_or}
use upstream_oreboot.Sbi.Riscv.{other_status, Hart, Mpp, Spp, Trap, Riscv, Rustsbi, update}
use upstream_oreboot.Sbi.Context.{SupervisorContext, zeroed}
use upstream_oreboot.Sbi.Csr
use upstream_oreboot.Nezha.SbiPlatform.{system_reset}

abbrev pub field : ℕ → ℕ → ℕ → ℕ
field lo width w = w / 2 ^ lo % 2 ^ width

abbrev pub set_field : ℕ → ℕ → ℕ → ℕ → ℕ
set_field lo width v w = w - field lo width w * 2 ^ lo + v * 2 ^ lo

abbrev pub mpp_code : Mpp → ℕ
mpp_code Mpp.machine = 3
mpp_code Mpp.supervisor = 1
mpp_code Mpp.user = 0

abbrev pub mpp_of : ℕ → Mpp
mpp_of w =
    if field 11 2 w == 3
    then Mpp.machine
    else if field 11 2 w == 1
    then Mpp.supervisor
    else Mpp.user

abbrev pub spp_code : Spp → ℕ
spp_code Spp.supervisor = 1
spp_code Spp.user = 0

abbrev pub spp_of : ℕ → Spp
spp_of w = if field 8 1 w == 1 then Spp.supervisor else Spp.user

abbrev pub interrupt : ℕ
interrupt = 2 ^ 63

abbrev pub cause_of : ℕ → Trap
cause_of w =
    if w == 1
    then Trap.instruction_fault
    else if w == 2
    then Trap.illegal_instruction
    else if w == 3
    then Trap.breakpoint
    else if w == 5
    then Trap.load_fault
    else if w == 7
    then Trap.store_fault
    else if w == 9
    then Trap.supervisor_env_call
    else if w == 12
    then Trap.instruction_page_fault
    else if w == 13
    then Trap.load_page_fault
    else if w == 15
    then Trap.store_page_fault
    else if w == interrupt + 3
    then Trap.machine_soft
    else if w == interrupt + 7
    then Trap.machine_timer
    else if w == interrupt + 11
    then Trap.machine_external
    else if ltb w interrupt
    then Trap.other_exception
    else Trap.other_interrupt

abbrev pub scause_of : Trap → ℕ
scause_of Trap.illegal_instruction = 2
scause_of _ = 0

pub mpp-set : (m : Mpp) (w : ℕ) → mpp_of (set_field 11 2 (mpp_code m) w) ≡ m
mpp-set Mpp.machine w = ground arith
mpp-set Mpp.supervisor w = ground arith
mpp-set Mpp.user w = ground arith

pub spp-set : (s : Spp) (w : ℕ) → spp_of (set_field 8 1 (spp_code s) w) ≡ s
spp-set Spp.supervisor w = ground arith
spp-set Spp.user w = ground arith

mpp_of-field : (v w : ℕ) → field 11 2 v ≡ field 11 2 w → mpp_of v ≡ mpp_of w
mpp_of-field v w e = ground arith

spp_of-field : (v w : ℕ) → field 8 1 v ≡ field 8 1 w → spp_of v ≡ spp_of w
spp_of-field v w e = ground arith

flag_of_field : (a b : ℕ) → a ≡ b → (a == 1) ≡ (b == 1)
flag_of_field a b e = ground arith

pub law_mpp-set_spp : (s : Spp) (w : ℕ) → mpp_of (set_field 8 1 (spp_code s) w) ≡ mpp_of w
law_mpp-set_spp Spp.supervisor w = ground arith
law_mpp-set_spp Spp.user w = ground arith

pub law_other-set_mpp :
    (m : Mpp) (w : ℕ) → other_status (set_field 11 2 (mpp_code m) w) ≡ other_status w
law_other-set_mpp Mpp.machine w = omega arith
law_other-set_mpp Mpp.supervisor w = omega arith
law_other-set_mpp Mpp.user w = omega arith

pub law_other-set_spp :
    (s : Spp) (w : ℕ) → other_status (set_field 8 1 (spp_code s) w) ≡ other_status w
law_other-set_spp Spp.supervisor w = omega arith
law_other-set_spp Spp.user w = omega arith

pub law_other-set_spie : (w : ℕ) → other_status (set_field 5 1 1 w) ≡ other_status w
law_other-set_spie w = omega arith

pub law_other-clear_sie : (w : ℕ) → other_status (set_field 1 1 0 w) ≡ other_status w
law_other-clear_sie w = omega arith

pub law_mpp-set_spie : (w : ℕ) → mpp_of (set_field 5 1 1 w) ≡ mpp_of w
law_mpp-set_spie w = ground arith

pub law_mpp-clear_sie : (w : ℕ) → mpp_of (set_field 1 1 0 w) ≡ mpp_of w
law_mpp-clear_sie w = ground arith

pub law_spp-set_spie : (w : ℕ) → spp_of (set_field 5 1 1 w) ≡ spp_of w
law_spp-set_spie w = ground arith

pub law_spp-clear_sie : (w : ℕ) → spp_of (set_field 1 1 0 w) ≡ spp_of w
law_spp-clear_sie w = ground arith

pub law_sie-set_mpp :
    (m : Mpp) (w : ℕ) → (field 1 1 (set_field 11 2 (mpp_code m) w) == 1) ≡ (field 1 1 w == 1)
law_sie-set_mpp Mpp.machine w = flag_of_field _ (field 1 1 w) (omega arith)
law_sie-set_mpp Mpp.supervisor w = flag_of_field _ (field 1 1 w) (omega arith)
law_sie-set_mpp Mpp.user w = flag_of_field _ (field 1 1 w) (omega arith)

pub law_sie-set_spp :
    (s : Spp) (w : ℕ) → (field 1 1 (set_field 8 1 (spp_code s) w) == 1) ≡ (field 1 1 w == 1)
law_sie-set_spp Spp.supervisor w = flag_of_field _ (field 1 1 w) (omega arith)
law_sie-set_spp Spp.user w = flag_of_field _ (field 1 1 w) (omega arith)

pub law_sie-clear_sie : (w : ℕ) → (field 1 1 (set_field 1 1 0 w) == 1) ≡ false
law_sie-clear_sie w = flag_of_field _ 0 (omega arith)

pub law_spie-set_mpp :
    (m : Mpp) (w : ℕ) → (field 5 1 (set_field 11 2 (mpp_code m) w) == 1) ≡ (field 5 1 w == 1)
law_spie-set_mpp Mpp.machine w = flag_of_field _ (field 5 1 w) (omega arith)
law_spie-set_mpp Mpp.supervisor w = flag_of_field _ (field 5 1 w) (omega arith)
law_spie-set_mpp Mpp.user w = flag_of_field _ (field 5 1 w) (omega arith)

pub law_spie-set_spp :
    (s : Spp) (w : ℕ) → (field 5 1 (set_field 8 1 (spp_code s) w) == 1) ≡ (field 5 1 w == 1)
law_spie-set_spp Spp.supervisor w = flag_of_field _ (field 5 1 w) (omega arith)
law_spie-set_spp Spp.user w = flag_of_field _ (field 5 1 w) (omega arith)

pub law_spie-set_spie : (w : ℕ) → (field 5 1 (set_field 5 1 1 w) == 1) ≡ true
law_spie-set_spie w = flag_of_field _ 1 (omega arith)

pub law_spie-clear_sie : (w : ℕ) → (field 5 1 (set_field 1 1 0 w) == 1) ≡ (field 5 1 w == 1)
law_spie-clear_sie w = flag_of_field _ (field 5 1 w) (omega arith)

pub law_stimer-clear : (w : ℕ) → (field 5 1 (set_field 5 1 0 w) == 1) ≡ false
law_stimer-clear w = flag_of_field _ 0 (omega arith)

-- The bit positions are those of the privileged architecture.
instance abbrev pub layout : Riscv
layout = record {
  cause = cause_of;
  scause_word = scause_of;
  stvec_address = λ w. w / 4 * 4;
  mpp = mpp_of;
  spp = spp_of;
  sie = λ w. field 1 1 w == 1;
  spie = λ w. field 5 1 w == 1;
  set_mpp = λ m. set_field 11 2 (mpp_code m);
  set_spp = λ s. set_field 8 1 (spp_code s);
  set_spie = set_field 5 1 1;
  clear_sie = set_field 1 1 0;
  mtimer_pending = λ w. field 7 1 w == 1;
  stimer_pending = λ w. field 5 1 w == 1;
  set_stimer = set_field 5 1 1;
  clear_stimer = set_field 5 1 0;
  set_mext = set_field 11 1 1;
  set_mtimer = set_field 7 1 1;
  mpp-set_mpp = mpp-set;
  mpp-set_spp = law_mpp-set_spp;
  mpp-set_spie = law_mpp-set_spie;
  mpp-clear_sie = law_mpp-clear_sie;
  spp-set_spp = spp-set;
  spp-set_spie = law_spp-set_spie;
  spp-clear_sie = law_spp-clear_sie;
  sie-set_mpp = law_sie-set_mpp;
  sie-set_spp = law_sie-set_spp;
  sie-clear_sie = law_sie-clear_sie;
  spie-set_mpp = law_spie-set_mpp;
  spie-set_spp = law_spie-set_spp;
  spie-set_spie = law_spie-set_spie;
  spie-clear_sie = law_spie-clear_sie;
  other-set_mpp = law_other-set_mpp;
  other-set_spp = law_other-set_spp;
  other-set_spie = law_other-set_spie;
  other-clear_sie = law_other-clear_sie;
  stimer-set_stimer = law_spie-set_spie;
  stimer-clear_stimer = law_stimer-clear;
}

abbrev pub srst : ℕ
srst = 0x53525354

-- A crate that knows the reset extension alone.
abbrev pub resetting : Rustsbi
resetting = record {
  legacy_console_putchar = 1;
  ecall = λ eid fid args h. (
    (if eid == srst
        then system_reset (get_or args 0 0) (get_or args 1 0)
        else record { error = 1; value = 0 }),
    h,
  );
}

-- A crate that answers every call with an error.
abbrev pub refusing : Rustsbi
refusing = record {
  legacy_console_putchar = 1;
  ecall = λ eid fid args h. (record { error = 2 ^ 64 - 2; value = 0 }, h);
}

-- A hart in machine mode, before the supervisor runs.
abbrev pub fresh : Hart
fresh = record {
  context = zeroed;
  csr = λ n.
      if n == Csr.mstatus
      then 0xa00001800
      else if n == Csr.stvec
      then 0x80001000
      else if n == Csr.time
      then 77
      else 0;
  lhu = λ a. 0;
  devintrentry = 0;
  console = [];
}

-- A supervisor whose next trap has cause `cause`, with the context `c`.
abbrev pub trapping : ℕ → SupervisorContext → Hart → Hart
trapping cause c h = record h { context = c; csr = update h.csr Csr.mcause cause }
