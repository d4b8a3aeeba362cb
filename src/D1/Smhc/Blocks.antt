-- ===== src/D1/Smhc/Blocks.antt =====
-- Block transfers through the internal DMA controller, src/soc/src/sunxi/d1/smhc/mod.rs.
pub mod Chain
pub mod Sectors
pub mod Progress
pub mod Single
use upstream_oreboot.Prelude.{
  ℕ, zero, suc, ◌+◌, ◌-◌, ◌*◌, ◌^◌, Bool, true, false, Option, none, some,
}
use upstream_oreboot.Prelude.{
  List, [], ◌∷◌, ◌==◌, if◌then◌else◌, ltb, ◌>>>◌, u16, u32, min, set, replicate,
}
use upstream_oreboot.D1.Smhc.Card.{CardStatus, CardCurrentState, current_state}
use upstream_oreboot.D1.Smhc.Idmac.{Descriptor, DescriptorConfig, Prepared, try_from}
use upstream_oreboot.D1.Smhc.Host.{
  Reg, Write, Device, Host, Error, Outcome, Driver, pure, throw, and_then, ◌>>=◌, ◌>>◌, write, spin,
}
use upstream_oreboot.D1.Smhc.Commands.{
  DataTransfer, data_cmd, Proto, card_command, wait_for_cc, wait_for_dtc, wait_for_acd, reset_fifo,
}
use upstream_oreboot.D1.Smhc.Cards.{Card, get_status}

-- The size of a descriptor in memory: four words.
abbrev pub descriptor_size : ℕ
descriptor_size = 16

abbrev pub zero_descriptor : Descriptor
zero_descriptor = record { des0 = 0; des1 = 0; des2 = 0; des3 = 0 }

-- `core::mem::zeroed()`
abbrev pub zeroed_descriptors : List Descriptor
zeroed_descriptors = replicate 16 zero_descriptor

abbrev pub is_prg : CardCurrentState → Bool
is_prg CardCurrentState.prg = true
is_prg _ = false

-- `map_err(Error::Dma)?`
abbrev pub map_err : Prepared → Driver Descriptor
map_err (Prepared.ok d) = pure d
map_err Prepared.invalid_buffer_size = throw Error.dma

module _ (proto : Proto) where
  abbrev pub block_config : Bool → Bool → ℕ → Option ℕ → DescriptorConfig
  block_config first last addr next = record {
    disable_int_on_complete = false;
    first = first;
    last = last;
    buff_size = u16 proto.block_len;
    buff_addr = addr;
    next_desc = next;
  }

  -- The turns of the loop over all blocks but the last, from block `i` on; `remaining` counts
  -- them. The blocks stand at `buffer`, the descriptors at `table`.
  unfoldable pub chain_loop : ℕ → ℕ → ℕ → ℕ → List Descriptor → Driver (List Descriptor)
  chain_loop buffer table zero i descriptors h = Outcome.done descriptors h
  chain_loop buffer table (suc remaining) i descriptors h =
      and_then
        (map_err
          (try_from (
            block_config (i == 0) false (buffer + i * proto.block_len)
              (some (table + suc i * descriptor_size))))
          h)
        (λ d. chain_loop buffer table remaining (suc i) (set descriptors i d))

  unfoldable pub blocks_to_descriptors : ℕ → ℕ → ℕ → List Descriptor → Driver (List Descriptor)
  blocks_to_descriptors buffer table count descriptors = do
    chained ← chain_loop buffer table (count - 1) 0 descriptors
    let i = count - 1
    d ← map_err (try_from (block_config (i == 0) true (buffer + i * proto.block_len) none))
    pure (set chained i d)

  module _ (dev : Device) where
    unfoldable pub prepare_for_dma : ℕ → ℕ → ℕ → Driver (Unit {0})
    prepare_for_dma fuel descriptor block_cnt = do
      write Write.dma_enable
      spin dev fuel Reg.ctrl dev.dma_rst_is_set
      write (Write.dlba (u32 descriptor >>> 2))
      write (Write.bytcnt (u32 (block_cnt * proto.block_len)))
      write Write.idmac_reset
      write (Write.fifoth 8 7 8)
      write Write.idma_interrupts
      write Write.idmac_start
      reset_fifo dev fuel

    -- `while rx_int is clear {}`, and the write that clears it.
    unfoldable pub await_rx : ℕ → Driver (Unit {0})
    await_rx fuel = do spin dev fuel Reg.idst dev.rx_int_is_clear; write Write.clear_rx_int

    unfoldable pub await_tx : ℕ → Driver (Unit {0})
    await_tx fuel = do spin dev fuel Reg.idst dev.tx_int_is_clear; write Write.clear_tx_int

    -- The buffer stands at `buffer`, the descriptor on the stack at `table`.
    unfoldable pub read_block : ℕ → ℕ → ℕ → ℕ → Driver (Unit {0})
    read_block fuel table sector buffer = do
      d ← map_err (try_from (block_config true true buffer none))
      write (Write.store table d)
      prepare_for_dma fuel table 1
      card_command (data_cmd proto.cmd17 sector DataTransfer.read_data false)
      wait_for_cc dev fuel
      await_rx fuel
      wait_for_dtc dev fuel

    unfoldable pub write_block : ℕ → ℕ → ℕ → ℕ → Driver (Unit {0})
    write_block fuel table sector buffer = do
      d ← map_err (try_from (block_config true true buffer none))
      write (Write.store table d)
      prepare_for_dma fuel table 1
      card_command (data_cmd proto.cmd24 sector DataTransfer.write_data false)
      wait_for_cc dev fuel
      await_tx fuel
      wait_for_dtc dev fuel

    unfoldable pub read_chunk : ℕ → ℕ → ℕ → ℕ → Driver (Unit {0})
    read_chunk fuel sector desc block_cnt = do
      prepare_for_dma fuel desc block_cnt
      card_command (data_cmd proto.cmd18 sector DataTransfer.read_data true)
      wait_for_cc dev fuel
      await_rx fuel
      wait_for_dtc dev fuel
      wait_for_acd dev fuel

    unfoldable pub write_chunk : ℕ → ℕ → ℕ → ℕ → Driver (Unit {0})
    write_chunk fuel sector desc block_cnt = do
      prepare_for_dma fuel desc block_cnt
      card_command (data_cmd proto.cmd25 sector DataTransfer.write_data true)
      wait_for_cc dev fuel
      await_tx fuel
      wait_for_dtc dev fuel
      wait_for_acd dev fuel

    -- The turns over chunks of 16 blocks: `count` blocks at `buffer` are left, `turns` bounds
    -- the number of turns.
    unfoldable pub read_chunks : ℕ → ℕ → ℕ → ℕ → ℕ → ℕ → List Descriptor → Driver (Unit {0})
    read_chunks fuel table turns sector buffer zero descriptors h = Outcome.done tt h
    read_chunks fuel table zero sector buffer (suc count) descriptors h = Outcome.waiting
    read_chunks fuel table (suc turns) sector buffer (suc count) descriptors h =
        let n = min 16 (suc count) in
        and_then (blocks_to_descriptors buffer table n descriptors h) (λ filled h1.
          and_then (read_chunk fuel sector table n h1) (λ _.
            read_chunks fuel table turns (u32 (sector + n)) (buffer + n * proto.block_len)
              (suc count - n) filled))

    unfoldable pub read_blocks : ℕ → ℕ → ℕ → ℕ → ℕ → Driver (Unit {0})
    read_blocks fuel table sector buffer count =
        read_chunks fuel table count sector buffer count zeroed_descriptors

    -- The loop until the card has left the programming state.
    unfoldable pub wait_written : ℕ → ℕ → Card → Driver (Unit {0})
    wait_written fuel zero card h = Outcome.waiting
    wait_written fuel (suc attempts) card h =
        and_then (get_status proto dev fuel card h) (λ card_stat.
          let again = wait_written fuel attempts card in
          if is_prg (current_state card_stat) then again else pure tt)

    unfoldable pub write_chunks : ℕ → Card → ℕ → ℕ → ℕ → ℕ → ℕ → List Descriptor → Driver (Unit {0})
    write_chunks fuel card table turns sector buffer zero descriptors h = Outcome.done tt h
    write_chunks fuel card table zero sector buffer (suc count) descriptors h = Outcome.waiting
    write_chunks fuel card table (suc turns) sector buffer (suc count) descriptors h =
        let n = min 16 (suc count) in
        and_then (blocks_to_descriptors buffer table n descriptors h) (λ filled h1.
          and_then (write_chunk fuel sector table n h1) (λ _ h2.
            and_then (wait_written fuel fuel card h2) (λ _.
              write_chunks fuel card table turns (u32 (sector + n)) (buffer + n * proto.block_len)
                (suc count - n) filled)))

    unfoldable pub write_blocks : ℕ → Card → ℕ → ℕ → ℕ → ℕ → Driver (Unit {0})
    write_blocks fuel card table sector buffer count =
        write_chunks fuel card table count sector buffer count zeroed_descriptors
