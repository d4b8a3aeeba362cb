-- ===== src/Nezha/Dram/Params.antt =====
-- `dram_parameters` of src/mainboard/sunxi/nezha/bt0/src/mctl.rs; each field is a `u32`.
use upstream_oreboot.Prelude.{ℕ}

pub record DramParameters : Type 0 where
  pub dram_clk : ℕ
  pub dram_type : ℕ
  pub dram_zq : ℕ
  pub dram_odt_en : ℕ
  pub dram_para1 : ℕ
  pub dram_para2 : ℕ
  pub dram_mr0 : ℕ
  pub dram_mr1 : ℕ
  pub dram_mr2 : ℕ
  pub dram_mr3 : ℕ
  pub dram_tpr0 : ℕ
  pub dram_tpr1 : ℕ
  pub dram_tpr2 : ℕ
  pub dram_tpr3 : ℕ
  pub dram_tpr4 : ℕ
  pub dram_tpr5 : ℕ
  pub dram_tpr6 : ℕ
  pub dram_tpr7 : ℕ
  pub dram_tpr8 : ℕ
  pub dram_tpr9 : ℕ
  pub dram_tpr10 : ℕ
  pub dram_tpr11 : ℕ
  pub dram_tpr12 : ℕ
  pub dram_tpr13 : ℕ
