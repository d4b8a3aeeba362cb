-- ===== src/Nezha/Dram/Setup.antt =====
-- The reference voltage, the address configuration and the map of the lines, src/mainboard/sunxi/nezha/bt0/src/mctl.rs.
use upstream_oreboot.Prelude.{ℕ, zero, suc, ◌+◌, ◌-◌, ◌*◌, not, ◌&&◌, ◌||◌, List, [], ◌∷◌}
use upstream_oreboot.Prelude.{
  ◌==◌, ltb, if◌then◌else◌, ◌>>>◌, ◌&&&◌, ◌|||◌, any_of, not32, shl32, sub32, get_or, set,
}
use upstream_oreboot.Nezha.Dram.Bus.{
  Bus, Board, Run, Proc, pure, ◌>>=◌, ◌>>◌, for_range, when, readl, writel, change,
}
use upstream_oreboot.Nezha.Dram.Params.{DramParameters}
use upstream_oreboot.Nezha.Dram.Registers.{
  sid_info, mc_work_mode_rank0_1, mc_work_mode_rank0_2, unknown1, phy_ac_map1, phy_ac_map2,
  phy_ac_map3, phy_ac_map4, iocvr0, iocvr1, unknown9, dx1gcr0,
}

module _ {S : Type 0} (bus : Bus S) where
  unfoldable pub mctl_vrefzq_init : DramParameters → Proc S
  mctl_vrefzq_init para = when (not (any_of para.dram_tpr13 0x20000)) (do
    change bus iocvr0 (λ v. (v &&& 0x80808080) ||| para.dram_tpr5)
    when (not (any_of para.dram_tpr13 0x10000))
        (change bus iocvr1 (λ v. (v &&& 0xffffff80) ||| (para.dram_tpr6 &&& 0x7f))))

-- The column width, less 3, of a page size in KB.
unfoldable pub page_code : ℕ → ℕ
page_code size =
    if size == 8
    then 0xa00
    else if size == 4
    then 0x900
    else if size == 2
    then 0x800
    else if size == 1
    then 0x700
    else 0x600

-- The type and the width of the memory.
unfoldable pub type_mode : DramParameters → ℕ → ℕ
type_mode para v =
    let val =
      (v &&& 0xff000fff)
      ||| shl32 (para.dram_type &&& 0x7) 16
      ||| shl32 (not32 para.dram_para2 &&& 0x1) 12 in
    if not (para.dram_type == 6) && not (para.dram_type == 7)
    then val ||| shl32 ((para.dram_tpr13 >>> 5) &&& 0x1) 19 ||| 0x400000
    else val ||| 0x480000

unfoldable pub rank_count : DramParameters → ℕ
rank_count para =
    if any_of para.dram_para2 0x100 && not (((para.dram_para2 >>> 12) &&& 0xf) == 1) then 2 else 1

-- The rank, the banks, the rows and the columns of rank `i`.
unfoldable pub rank_mode : DramParameters → ℕ → ℕ → ℕ
unfolding page_code
rank_mode para i v =
    (v &&& 0xfffff000)
    ||| ((para.dram_para2 >>> 12) &&& 0x3)
    ||| (shl32 (para.dram_para1 >>> (i * 16 + 12)) 2 &&& 0x4)
    ||| (shl32 (sub32 (para.dram_para1 >>> (i * 16 + 4)) 1) 4 &&& 0xff)
    ||| page_code ((para.dram_para1 >>> (i * 16)) &&& 0xf)

module _ {S : Type 0} (bus : Bus S) where
  unfoldable pub mctl_com_init : DramParameters → Proc S
  unfolding type_mode rank_count rank_mode
  mctl_com_init para = do
    change bus unknown1 (λ v. (v &&& 0xffffc0ff) ||| 0x2000)
    change bus mc_work_mode_rank0_1 (type_mode para)
    for_range (rank_count para) 0
        (λ i. change bus (mc_work_mode_rank0_1 + i * 4) (rank_mode para i))
    mode ← readl bus mc_work_mode_rank0_1
    writel bus unknown9 (if (mode &&& 0x1) == 0 then 0x201 else 0x303)
    when (any_of para.dram_para2 0x1) (writel bus dx1gcr0 0)
    when (ltb 0 para.dram_tpr4) (do
      change bus mc_work_mode_rank0_1 (λ v. v ||| (shl32 para.dram_tpr4 25 &&& 0x06000000))
      change bus mc_work_mode_rank0_2 (λ v. v ||| (shl32 (para.dram_tpr4 >>> 2) 12 &&& 0x001ff000)))

-- `for i in 0..len { dst[i] = src[i]; }`, from `i` on.
unfoldable pub memcpy_self : ℕ → ℕ → List ℕ → List ℕ → List ℕ
memcpy_self zero i dst src = dst
memcpy_self (suc len) i dst src = memcpy_self len (suc i) (set dst i (get_or src i 0)) src

abbrev phy_cfg1 : List ℕ
phy_cfg1 =
    1 ∷ 9 ∷ 3 ∷ 7 ∷ 8 ∷ 18 ∷ 4 ∷ 13 ∷ 5 ∷ 6 ∷ 10 ∷ 2 ∷ 14 ∷ 12 ∷ 0 ∷ 0 ∷ 21 ∷ 17 ∷ 20 ∷ 19 ∷ 11 ∷ 22
    ∷ []

abbrev phy_cfg2 : List ℕ
phy_cfg2 =
    4 ∷ 9 ∷ 3 ∷ 7 ∷ 8 ∷ 18 ∷ 1 ∷ 13 ∷ 2 ∷ 6 ∷ 10 ∷ 5 ∷ 14 ∷ 12 ∷ 0 ∷ 0 ∷ 21 ∷ 17 ∷ 20 ∷ 19 ∷ 11 ∷ 22
    ∷ []

abbrev phy_cfg3 : List ℕ
phy_cfg3 =
    1 ∷ 7 ∷ 8 ∷ 12 ∷ 10 ∷ 18 ∷ 4 ∷ 13 ∷ 5 ∷ 6 ∷ 3 ∷ 2 ∷ 9 ∷ 0 ∷ 0 ∷ 0 ∷ 21 ∷ 17 ∷ 20 ∷ 19 ∷ 11 ∷ 22
    ∷ []

abbrev phy_cfg4 : List ℕ
phy_cfg4 =
    4 ∷ 12 ∷ 10 ∷ 7 ∷ 8 ∷ 18 ∷ 1 ∷ 13 ∷ 2 ∷ 6 ∷ 3 ∷ 5 ∷ 9 ∷ 0 ∷ 0 ∷ 0 ∷ 21 ∷ 17 ∷ 20 ∷ 19 ∷ 11 ∷ 22
    ∷ []

abbrev phy_cfg5 : List ℕ
phy_cfg5 =
    13 ∷ 2 ∷ 7 ∷ 9 ∷ 12 ∷ 19 ∷ 5 ∷ 1 ∷ 6 ∷ 3 ∷ 4 ∷ 8 ∷ 10 ∷ 0 ∷ 0 ∷ 0 ∷ 21 ∷ 22 ∷ 18 ∷ 17 ∷ 11 ∷ 20
    ∷ []

abbrev phy_cfg6 : List ℕ
phy_cfg6 =
    3 ∷ 10 ∷ 7 ∷ 13 ∷ 9 ∷ 11 ∷ 1 ∷ 2 ∷ 4 ∷ 6 ∷ 8 ∷ 5 ∷ 12 ∷ 0 ∷ 0 ∷ 0 ∷ 20 ∷ 1 ∷ 0 ∷ 21 ∷ 22 ∷ 17
    ∷ []

abbrev phy_cfg7 : List ℕ
phy_cfg7 =
    3 ∷ 2 ∷ 4 ∷ 7 ∷ 9 ∷ 1 ∷ 17 ∷ 12 ∷ 18 ∷ 14 ∷ 13 ∷ 8 ∷ 15 ∷ 6 ∷ 10 ∷ 5 ∷ 19 ∷ 22 ∷ 16 ∷ 21 ∷ 20
    ∷ 11 ∷ []

-- A word of fields of five bits, the line `i` highest, `count` lines down from it.
abbrev lines_word : List ℕ → ℕ → ℕ
lines_word [] shift = 0
lines_word (line ∷ rest) shift = shl32 line shift ||| lines_word rest (shift - 5)

module _ {S : Type 0} where
  abbrev set_phy_cfg0 : List ℕ → Proc S
  set_phy_cfg0 src b = Run.done tt (record b { phy_cfg0 = memcpy_self 22 0 b.phy_cfg0 src })

  abbrev phy_line : ℕ → Board S → ℕ
  phy_line i b = get_or b.phy_cfg0 i 0

  -- The table of a fuse.
  unfoldable pub fuse_table : ℕ → Proc S
  unfolding memcpy_self
  fuse_table fuse =
      if fuse == 8
      then set_phy_cfg0 phy_cfg2
      else if fuse == 9
      then set_phy_cfg0 phy_cfg3
      else if fuse == 10
      then set_phy_cfg0 phy_cfg5
      else if fuse == 11
      then set_phy_cfg0 phy_cfg4
      else if fuse == 13 || fuse == 14
      then pure tt
      else set_phy_cfg0 phy_cfg1

module _ {S : Type 0} (bus : Bus S) where
  unfoldable pub write_phy_map : Proc S
  write_phy_map b =
      let line = λ (i : ℕ). phy_line i b in
      (do
        writel bus phy_ac_map1 (lines_word (line 4 ∷ line 3 ∷ line 2 ∷ line 1 ∷ line 0 ∷ []) 25)
        writel bus phy_ac_map2
            (lines_word (line 10 ∷ line 9 ∷ line 8 ∷ line 7 ∷ line 6 ∷ line 5 ∷ []) 25)
        writel bus phy_ac_map3
            (lines_word (line 15 ∷ line 14 ∷ line 13 ∷ line 12 ∷ line 11 ∷ []) 20)
        writel bus phy_ac_map4
            (lines_word (line 21 ∷ line 20 ∷ line 19 ∷ line 18 ∷ line 17 ∷ line 16 ∷ []) 25)
        writel bus phy_ac_map1
            (lines_word (line 4 ∷ line 3 ∷ line 2 ∷ line 1 ∷ line 0 ∷ []) 25 ||| 1))
        b

  -- Once the fuse is read.
  unfoldable pub remap : DramParameters → ℕ → Proc S
  unfolding fuse_table write_phy_map memcpy_self
  remap para fuse = do
    (if ltb 0 ((para.dram_tpr13 >>> 18) &&& 0x3) then set_phy_cfg0 phy_cfg7 else fuse_table fuse)
    when (not (para.dram_type == 2 && fuse == 15)) (do
      when (para.dram_type == 2) (set_phy_cfg0 phy_cfg6)
      when (para.dram_type == 2 || para.dram_type == 3) write_phy_map)

  unfoldable pub mctl_phy_ac_remapping : DramParameters → Proc S
  unfolding remap
  mctl_phy_ac_remapping para = do info ← readl bus sid_info; remap para ((info >>> 8) &&& 0x4)
