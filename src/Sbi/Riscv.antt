-- ===== src/Sbi/Riscv.antt =====
-- The hart that the SBI runs on, and what the code relies on of the crates `riscv` and `rustsbi`.
use upstream_oreboot.Prelude.{
  ℕ, ◌+◌, ◌*◌, ◌/◌, ◌%◌, ◌^◌, ◌≡◌, Bool, true, false, List, ◌==◌, if◌then◌else◌,
}
use upstream_oreboot.Sbi.Context.{SupervisorContext}

-- `csr` is the file of control and status registers, by CSR number. `lhu` is the half-word at a
-- supervisor's virtual address. `devintrentry` is the static of feature/supervisor_interrupt.rs.
-- `console` holds the characters that a legacy console call printed, oldest last; the diagnostic
-- messages of the SBI itself are left out.
pub record Hart : Type 0 where
  pub context : SupervisorContext
  pub csr : ℕ → ℕ
  pub lhu : ℕ → ℕ
  pub devintrentry : ℕ
  pub console : List ℕ

abbrev pub update : (ℕ → ℕ) → ℕ → ℕ → ℕ → ℕ
update f n v k = if k == n then v else f k

abbrev pub write_csr : ℕ → ℕ → Hart → Hart
write_csr n v h = record h { csr = update h.csr n v }

pub data Mpp : Type 0 where
  machine supervisor user : Mpp

pub data Spp : Type 0 where
  supervisor user : Spp

-- The causes that the code names; `other_exception` and `other_interrupt` are all the others.
pub data Trap : Type 0 where
  supervisor_env_call illegal_instruction instruction_fault breakpoint load_fault store_fault : Trap
  instruction_page_fault load_page_fault store_page_fault other_exception : Trap
  machine_external machine_timer machine_soft other_interrupt : Trap

-- A status word without the fields MPP (bits 11 and 12), SPP (8), SPIE (5) and SIE (1).
abbrev pub other_status : ℕ → ℕ
other_status w =
    w / 2 ^ 13 * 2 ^ 13
    + w / 2 ^ 9 % 4 * 2 ^ 9
    + w / 2 ^ 6 % 4 * 2 ^ 6
    + w / 2 ^ 2 % 8 * 2 ^ 2
    + w % 2

-- The accessors of the crate `riscv` that the code calls, as functions of the register's word,
-- with their documented behaviour: each writes its own field and no other.
pub record Riscv : Type 0 where
  pub cause : ℕ → Trap
  pub scause_word : Trap → ℕ
  pub stvec_address : ℕ → ℕ
  pub mpp : ℕ → Mpp
  pub spp : ℕ → Spp
  pub sie : ℕ → Bool
  pub spie : ℕ → Bool
  pub set_mpp : Mpp → ℕ → ℕ
  pub set_spp : Spp → ℕ → ℕ
  pub set_spie : ℕ → ℕ
  pub clear_sie : ℕ → ℕ
  pub mtimer_pending : ℕ → Bool
  pub stimer_pending : ℕ → Bool
  pub set_stimer : ℕ → ℕ
  pub clear_stimer : ℕ → ℕ
  pub set_mext : ℕ → ℕ
  pub set_mtimer : ℕ → ℕ
  pub mpp-set_mpp : (m : Mpp) (w : ℕ) → mpp (set_mpp m w) ≡ m
  pub mpp-set_spp : (s : Spp) (w : ℕ) → mpp (set_spp s w) ≡ mpp w
  pub mpp-set_spie : (w : ℕ) → mpp (set_spie w) ≡ mpp w
  pub mpp-clear_sie : (w : ℕ) → mpp (clear_sie w) ≡ mpp w
  pub spp-set_spp : (s : Spp) (w : ℕ) → spp (set_spp s w) ≡ s
  pub spp-set_spie : (w : ℕ) → spp (set_spie w) ≡ spp w
  pub spp-clear_sie : (w : ℕ) → spp (clear_sie w) ≡ spp w
  pub sie-set_mpp : (m : Mpp) (w : ℕ) → sie (set_mpp m w) ≡ sie w
  pub sie-set_spp : (s : Spp) (w : ℕ) → sie (set_spp s w) ≡ sie w
  pub sie-clear_sie : (w : ℕ) → sie (clear_sie w) ≡ false
  pub spie-set_mpp : (m : Mpp) (w : ℕ) → spie (set_mpp m w) ≡ spie w
  pub spie-set_spp : (s : Spp) (w : ℕ) → spie (set_spp s w) ≡ spie w
  pub spie-set_spie : (w : ℕ) → spie (set_spie w) ≡ true
  pub spie-clear_sie : (w : ℕ) → spie (clear_sie w) ≡ spie w
  pub other-set_mpp : (m : Mpp) (w : ℕ) → other_status (set_mpp m w) ≡ other_status w
  pub other-set_spp : (s : Spp) (w : ℕ) → other_status (set_spp s w) ≡ other_status w
  pub other-set_spie : (w : ℕ) → other_status (set_spie w) ≡ other_status w
  pub other-clear_sie : (w : ℕ) → other_status (clear_sie w) ≡ other_status w
  pub stimer-set_stimer : (w : ℕ) → stimer_pending (set_stimer w) ≡ true
  pub stimer-clear_stimer : (w : ℕ) → stimer_pending (clear_stimer w) ≡ false

pub record SbiRet : Type 0 where
  pub error : ℕ
  pub value : ℕ

-- The crates `sbi_spec` and `rustsbi`: the number of the legacy console call, and the dispatch of
-- a call (extension, function, the six parameters) to the registered handlers.
pub record Rustsbi : Type 0 where
  pub legacy_console_putchar : ℕ
  pub ecall : ℕ → ℕ → List ℕ → Hart → SbiRet × Hart
