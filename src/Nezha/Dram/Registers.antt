-- ===== src/Nezha/Dram/Registers.antt =====
-- The addresses of the registers, src/mainboard/sunxi/nezha/bt0/src/mctl.rs.
use upstream_oreboot.Prelude.{ℕ, ◌+◌}

abbrev pub ram_base : ℕ
ram_base = 0x40000000

abbrev pub ccu : ℕ
ccu = 0x02001000

abbrev pub pll_cpu_ctrl : ℕ
pll_cpu_ctrl = ccu + 0x0000

abbrev pub pll_ddr_ctrl : ℕ
pll_ddr_ctrl = ccu + 0x0010

abbrev pub mbus_clk : ℕ
mbus_clk = ccu + 0x0540

abbrev pub dram_clk : ℕ
dram_clk = ccu + 0x0800

abbrev pub dram_bgr : ℕ
dram_bgr = ccu + 0x080c

abbrev pub sys_cfg : ℕ
sys_cfg = 0x03000000

abbrev pub sys_ldo_ctrl_reg : ℕ
sys_ldo_ctrl_reg = sys_cfg + 0x0150

abbrev pub res_cal_ctrl_reg : ℕ
res_cal_ctrl_reg = sys_cfg + 0x0160

abbrev pub res240_ctrl_reg : ℕ
res240_ctrl_reg = sys_cfg + 0x0168

abbrev pub zq_value : ℕ
zq_value = sys_cfg + 0x0172

abbrev pub bar_base : ℕ
bar_base = 0x07000000

abbrev pub some_status : ℕ
some_status = bar_base + 0x05d4

abbrev pub foo_base : ℕ
foo_base = 0x07010000

abbrev pub analog_sys_pwroff_gating_reg : ℕ
analog_sys_pwroff_gating_reg = foo_base + 0x0254

abbrev pub some_other : ℕ
some_other = foo_base + 0x0250

abbrev pub sid_info : ℕ
sid_info = sys_cfg + 0x2228

abbrev pub msi_memc_base : ℕ
msi_memc_base = 0x03102000

abbrev pub mc_work_mode_rank0_1 : ℕ
mc_work_mode_rank0_1 = msi_memc_base

abbrev pub mc_work_mode_rank0_2 : ℕ
mc_work_mode_rank0_2 = msi_memc_base + 0x0004

abbrev pub unknown1 : ℕ
unknown1 = msi_memc_base + 0x0008

abbrev pub unknown7 : ℕ
unknown7 = msi_memc_base + 0x000c

abbrev pub unknown12 : ℕ
unknown12 = msi_memc_base + 0x0014

abbrev pub dram_master_ctl1 : ℕ
dram_master_ctl1 = msi_memc_base + 0x0020

abbrev pub dram_master_ctl2 : ℕ
dram_master_ctl2 = msi_memc_base + 0x0024

abbrev pub dram_master_ctl3 : ℕ
dram_master_ctl3 = msi_memc_base + 0x0028

abbrev pub phy_ac_map1 : ℕ
phy_ac_map1 = 0x3102500

abbrev pub phy_ac_map2 : ℕ
phy_ac_map2 = 0x3102504

abbrev pub phy_ac_map3 : ℕ
phy_ac_map3 = 0x3102508

abbrev pub phy_ac_map4 : ℕ
phy_ac_map4 = 0x310250c

abbrev pub pir : ℕ
pir = msi_memc_base + 0x1000

abbrev pub unknown15 : ℕ
unknown15 = msi_memc_base + 0x1004

abbrev pub mctl_clk : ℕ
mctl_clk = msi_memc_base + 0x100c

abbrev pub pgsr0 : ℕ
pgsr0 = msi_memc_base + 0x1010

abbrev pub statr_x : ℕ
statr_x = msi_memc_base + 0x1018

abbrev pub dram_mr0 : ℕ
dram_mr0 = msi_memc_base + 0x1030

abbrev pub dram_mr1 : ℕ
dram_mr1 = msi_memc_base + 0x1034

abbrev pub dram_mr2 : ℕ
dram_mr2 = msi_memc_base + 0x1038

abbrev pub dram_mr3 : ℕ
dram_mr3 = msi_memc_base + 0x103c

abbrev pub dram_odtx : ℕ
dram_odtx = msi_memc_base + 0x102c

abbrev pub ptr3 : ℕ
ptr3 = msi_memc_base + 0x1050

abbrev pub ptr4 : ℕ
ptr4 = msi_memc_base + 0x1054

abbrev pub dramtmg0 : ℕ
dramtmg0 = msi_memc_base + 0x1058

abbrev pub dramtmg1 : ℕ
dramtmg1 = msi_memc_base + 0x105c

abbrev pub dramtmg2 : ℕ
dramtmg2 = msi_memc_base + 0x1060

abbrev pub dramtmg3 : ℕ
dramtmg3 = msi_memc_base + 0x1064

abbrev pub dramtmg4 : ℕ
dramtmg4 = msi_memc_base + 0x1068

abbrev pub dramtmg5 : ℕ
dramtmg5 = msi_memc_base + 0x106c

abbrev pub dramtmg8 : ℕ
dramtmg8 = msi_memc_base + 0x1078

abbrev pub unknown8 : ℕ
unknown8 = msi_memc_base + 0x107c

abbrev pub pitmg0 : ℕ
pitmg0 = msi_memc_base + 0x1080

abbrev pub unknown13 : ℕ
unknown13 = msi_memc_base + 0x108c

abbrev pub rfshtmg : ℕ
rfshtmg = msi_memc_base + 0x1090

abbrev pub rfshctl1 : ℕ
rfshctl1 = msi_memc_base + 0x1094

abbrev pub unknown10 : ℕ
unknown10 = msi_memc_base + 0x109c

abbrev pub unknown11 : ℕ
unknown11 = msi_memc_base + 0x10a0

abbrev pub unknown16 : ℕ
unknown16 = msi_memc_base + 0x10c0

abbrev pub pgcr0 : ℕ
pgcr0 = msi_memc_base + 0x1100

abbrev pub mrctrl0 : ℕ
mrctrl0 = msi_memc_base + 0x1108

abbrev pub unknown14 : ℕ
unknown14 = msi_memc_base + 0x110c

abbrev pub iocvr0 : ℕ
iocvr0 = msi_memc_base + 0x1110

abbrev pub iocvr1 : ℕ
iocvr1 = msi_memc_base + 0x1114

abbrev pub dqs_gating_x : ℕ
dqs_gating_x = msi_memc_base + 0x111c

abbrev pub unknown9 : ℕ
unknown9 = msi_memc_base + 0x1120

abbrev pub zq_cfg : ℕ
zq_cfg = msi_memc_base + 0x1140

abbrev pub undoc1 : ℕ
undoc1 = msi_memc_base + 0x1208

abbrev pub dat00iocr : ℕ
dat00iocr = msi_memc_base + 0x1310

abbrev pub dx0gcr0 : ℕ
dx0gcr0 = msi_memc_base + 0x1344

abbrev pub unknown4 : ℕ
unknown4 = msi_memc_base + 0x1348

abbrev pub dx1gcr0 : ℕ
dx1gcr0 = msi_memc_base + 0x13c4

abbrev pub dat01iocr : ℕ
dat01iocr = msi_memc_base + 0x1390

abbrev pub unknown5 : ℕ
unknown5 = msi_memc_base + 0x13c8

abbrev pub mc_work_mode_rank1_1 : ℕ
mc_work_mode_rank1_1 = msi_memc_base + 0x100000

abbrev pub mc_work_mode_rank1_2 : ℕ
mc_work_mode_rank1_2 = msi_memc_base + 0x100004
