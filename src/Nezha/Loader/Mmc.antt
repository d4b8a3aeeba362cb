-- ===== src/Nezha/Loader/Mmc.antt =====
-- The load from an SD card, src/mainboard/sunxi/nezha/bt0/src/main.rs.
use upstream_oreboot.Prelude.{ℕ, ◌/◌, u32}
use upstream_oreboot.D1.Smhc.Host.{Device, Driver, ◌>>=◌, ◌>>◌}
use upstream_oreboot.D1.Smhc.Commands.{Proto}
use upstream_oreboot.D1.Smhc.Cards.{reset_card, initialize, get_cid, get_rca, select, set_wide_bus}
use upstream_oreboot.D1.Smhc.Blocks.{read_blocks}

module _ (proto : Proto) (dev : Device) where
  -- `load` of the feature `mmc`; a block has 512 bytes, and `table` is the address of the descriptors.
  unfoldable pub load_card : ℕ → ℕ → ℕ → ℕ → ℕ → ℕ → Driver (Unit {0})
  load_card fuel attempts table skip base size = do
    reset_card proto dev fuel
    initialize proto dev fuel attempts
    get_cid proto dev fuel
    card ← get_rca proto dev fuel
    select proto dev fuel card
    set_wide_bus proto dev fuel card
    read_blocks proto dev fuel table (u32 (skip / 512)) base (size / 512)
