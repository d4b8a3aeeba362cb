-- ===== src/D1/Smhc/Host.antt =====
-- Register accesses of the SD/MMC host controller, src/soc/src/sunxi/d1/smhc/mod.rs.
use upstream_oreboot.D1.Smhc.Idmac.{Descriptor}
use upstream_oreboot.Prelude.{ℕ, zero, suc, Bool, List, [], ◌∷◌, ◌++◌, if◌then◌else◌}

-- The registers that the code reads.
pub data Reg : Type 0 where
  ctrl cmd_reg rintsts idst resp0 resp1 resp2 resp3 : Reg

-- The fields of a write to the command register.
pub record CmdFields : Type 0 where
  pub cmd_load : Bool
  pub wait_pre_over : Bool
  pub prg_clk : Bool
  pub stop_cmd_flag : Bool
  pub data_trans : Bool
  pub trans_dir : Bool
  pub chk_resp_crc : Bool
  pub long_resp : Bool
  pub resp_rcv : Bool
  pub cmd_idx : ℕ

pub data CardWidth : Type 0 where
  b1 b4 : CardWidth

-- The writes that the code performs, each with the values it writes; a `modify` is one write. All are
-- writes to registers but `store`, the descriptor of a single block at its address in memory.
pub data Write : Type 0 where
  cmdarg : ℕ → Write
  cmd : CmdFields → Write
  clear_rintsts : ℕ → Write
  soft_reset fifo_reset fifo_set_bit interrupts_off dma_enable : Write
  cclk_off cclk_on : Write
  cclk_div : ℕ → Write
  sample_delay : ℕ → Write
  ctype : CardWidth → Write
  blksiz : ℕ → Write
  dlba : ℕ → Write
  bytcnt : ℕ → Write
  idmac_reset idmac_start : Write
  fifoth : ℕ → ℕ → ℕ → Write
  idma_interrupts : Write
  clear_rx_int clear_tx_int : Write
  assert_reset gating_mask deassert_reset gating_pass : Write
  module_clock : ℕ → ℕ → Write
  store : ℕ → Descriptor → Write

-- What the crate `d1_pac` reads out of a register, and what the controller answers: the value of
-- a register after the writes so far, at the n-th read.
pub record Device : Type 0 where
  pub soft_rst_is_reset : ℕ → Bool
  pub fifo_rst_is_reset : ℕ → Bool
  pub dma_rst_is_set : ℕ → Bool
  pub cmd_load_is_set : ℕ → Bool
  pub rx_int_is_clear : ℕ → Bool
  pub tx_int_is_clear : ℕ → Bool
  pub rto_back : ℕ → Bool
  pub rce : ℕ → Bool
  pub re : ℕ → Bool
  pub dsto_vsd : ℕ → Bool
  pub dto_bds : ℕ → Bool
  pub dce : ℕ → Bool
  pub fu_fo : ℕ → Bool
  pub cb_iw : ℕ → Bool
  pub dse_bc : ℕ → Bool
  pub dee : ℕ → Bool
  pub value : List Write → Reg → ℕ → ℕ

-- The writes so far, the first one first, and the number of reads.
pub record Host : Type 0 where
  pub trace : List Write
  pub reads : ℕ

pub data Error : Type 0 where
  response response_crc data_crc response_timeout data_timeout : Error
  data_starvation_timeout fifo_underrun_overflow command_busy_illegal_write : Error
  data_start data_end dma : Error

-- `waiting` is a loop whose condition has not come within the fuel, `panicked` a panic.
pub data Outcome (A : Type 0) : Type 0 where
  done : A → Host → Outcome A
  failed : Error → Host → Outcome A
  waiting panicked : Outcome A

abbrev pub Driver : Type 0 → Type 0
Driver A = Host → Outcome A

abbrev pub pure : {A : Type 0} → A → Driver A
pure = Outcome.done

abbrev pub throw : {A : Type 0} → Error → Driver A
throw = Outcome.failed

module _ {A B : Type 0} where
  abbrev pub and_then : Outcome A → (A → Driver B) → Outcome B
  and_then (done a h) k = k a h
  and_then (failed e h) k = failed e h
  and_then waiting k = Outcome.waiting
  and_then panicked k = Outcome.panicked

  infixl 5 ◌>>=◌ ◌>>◌
  abbrev pub ◌>>=◌ : Driver A → (A → Driver B) → Driver B
  m >>= k = λ h. and_then (m h) k

  abbrev pub ◌>>◌ : Driver A → Driver B → Driver B
  m >> n = m >>= λ _. n

abbrev pub write : Write → Driver (Unit {0})
write w h = done tt (record h { trace = h.trace ++ (w ∷ []) })

module _ (dev : Device) where
  abbrev pub read : Reg → Driver ℕ
  read r h = done (dev.value h.trace r h.reads) (record h { reads = suc h.reads })

  -- `while test(read) {}`, with fuel.
  unfoldable pub spin : ℕ → Reg → (ℕ → Bool) → Driver (Unit {0})
  spin zero r busy h = Outcome.waiting
  spin (suc fuel) r busy h =
      let again = spin fuel r busy (record h { reads = suc h.reads }) in
      if busy (dev.value h.trace r h.reads)
      then again
      else done tt (record h { reads = suc h.reads })
