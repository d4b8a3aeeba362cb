-- ===== src/Tests/SmhcRuns.antt =====
-- The theorems on the SD/MMC host controller, at a controller that answers at once.
use upstream_oreboot.Prelude.{ℕ, ◌+◌, ◌*◌, ◌^◌, ◌≤◌, ◌≡◌, refl, arith, false, none, some}
use upstream_oreboot.Prelude.{List, [], ◌∷◌, ◌++◌, ◌==◌, if◌then◌else◌, bit_and, ap}
use upstream_oreboot.D1.Smhc.Card.{CardType}
use upstream_oreboot.D1.Smhc.Host.{Reg, Write, Device, Host, Outcome}
use upstream_oreboot.D1.Smhc.Idmac.{Descriptor}
use upstream_oreboot.D1.Smhc.Commands.{
  Interrupt, into_u32, Proto, DataTransfer, data_cmd, verdict, wait_loop, wait_for_interrupt,
}
use upstream_oreboot.D1.Smhc.Commands.Waits.{
  IsAnswering, IsAnswered, wait_for_interrupt_ends, wait_for_interrupt-IsAnswered,
}
use upstream_oreboot.D1.Smhc.Cards.{ocr_nbusy, initialize}
use upstream_oreboot.D1.Smhc.Cards.Start.{initialize_completes}
use upstream_oreboot.D1.Smhc.Cards.Types.{IsIdentified}
use upstream_oreboot.D1.Smhc.Blocks.{
  zeroed_descriptors, blocks_to_descriptors, read_blocks, read_block, write_block,
}
use upstream_oreboot.D1.Smhc.Blocks.Chain.{in_memory, walk, blocks_from, walk-blocks_to_descriptors}
use upstream_oreboot.D1.Smhc.Blocks.Sectors.{read_writes}
use upstream_oreboot.D1.Smhc.Blocks.Single.{IsTransferred, block_completes}
use upstream_oreboot.D1.Smhc.Blocks.Progress.{IsResponsive, read_blocks_completes}
use upstream_oreboot.D1.Smhc.Setup.{distance, best_dividers}
use upstream_oreboot.D1.Smhc.Setup.Clock.{IsDivisor, best_dividers_closest}

abbrev proto : Proto
proto = record {
  cmd0 = 0;
  cmd8 = 8;
  cmd9 = 9;
  cmd13 = 13;
  cmd17 = 17;
  cmd18 = 18;
  cmd24 = 24;
  cmd25 = 25;
  cmd55 = 55;
  acmd41 = 41;
  block_len = 512;
}

-- Command complete, data transfer complete and auto command done.
abbrev status_word : ℕ
status_word = 2 ^ 2 + 2 ^ 3 + 2 ^ 14

abbrev answer : Reg → ℕ → ℕ
answer Reg.rintsts n = status_word
answer Reg.resp0 n = if n == 1 then 0x1aa else 0xc0ff8000
answer _ n = 0

abbrev controller : Device
controller = record {
  soft_rst_is_reset = λ w. false;
  fifo_rst_is_reset = λ w. false;
  dma_rst_is_set = λ w. false;
  cmd_load_is_set = λ w. false;
  rx_int_is_clear = λ w. false;
  tx_int_is_clear = λ w. false;
  rto_back = λ w. w == 2 ^ 8;
  rce = λ w. w == 2 ^ 6;
  re = λ w. w == 2 ^ 1;
  dsto_vsd = λ w. false;
  dto_bds = λ w. false;
  dce = λ w. false;
  fu_fo = λ w. false;
  cb_iw = λ w. false;
  dse_bc = λ w. false;
  dee = λ w. false;
  value = λ trace r n. answer r n;
}

abbrev start : Host
start = record { trace = []; reads = 0 }

abbrev cleared : Host
cleared = record { trace = Write.clear_rintsts 8 ∷ []; reads = 1 }

wait_for_interrupt_ends_example :
    wait_for_interrupt controller 1 Interrupt.data_transfer_complete start
    ≡ Outcome.done tt (record {
      trace = Write.clear_rintsts (into_u32 Interrupt.data_transfer_complete) ∷ [];
      reads = 0 + 1;
    })
unfolding verdict into_u32
wait_for_interrupt_ends_example =
    wait_for_interrupt_ends controller 0 1 Interrupt.data_transfer_complete start none (omega arith)
      (λ i h. absurd (omega arith)) refl

wait_for_interrupt-IsAnswered_example :
    IsAnswered controller Interrupt.data_transfer_complete start cleared
unfolding wait_for_interrupt wait_loop verdict into_u32
wait_for_interrupt-IsAnswered_example =
    wait_for_interrupt-IsAnswered controller 1 Interrupt.data_transfer_complete start cleared refl

answering : IsAnswering controller 1 Interrupt.command_complete
unfolding verdict into_u32
answering trace reads = (0, omega arith, (λ i h. absurd (omega arith)), refl)

later : (reads a b : ℕ) → 2 ≤ reads → (if reads == 1 then a else b) ≡ b
later reads a b h = ground arith

powers_up :
    (trace : List Write) (reads : ℕ)
    → 2 ≤ reads
    → bit_and (controller.value trace Reg.resp0 reads) ocr_nbusy ≡ ocr_nbusy
powers_up trace reads h = ap (λ (w : ℕ). bit_and w ocr_nbusy) (later reads 0x1aa 0xc0ff8000 h)

initialize_completes_example :
    (t : CardType) × (h' : Host) × (initialize proto controller 1 2 start ≡ Outcome.done t h')
    × IsIdentified controller proto start t
initialize_completes_example =
    initialize_completes controller 1 answering proto 2 powers_up 2 start (omega arith)
      (omega arith)

walk-blocks_to_descriptors_example :
    (filled : List Descriptor) × (blocks_to_descriptors proto 0x41000000 0x40020000 3
        zeroed_descriptors start
      ≡ Outcome.done filled start)
    × (walk (in_memory 0x40020000 filled) 3 0x40020000 ≡ some (blocks_from 0x41000000 0 3))
walk-blocks_to_descriptors_example =
    walk-blocks_to_descriptors proto refl 0x41000000 0x40020000 (omega arith) (omega arith)
      (omega arith) 3 zeroed_descriptors start (omega arith) (omega arith) refl (omega arith)

responsive : IsResponsive controller 1
unfolding verdict into_u32
responsive = record {
  dma_rst = λ trace reads. (0, omega arith, refl);
  fifo_rst = λ trace reads. (0, omega arith, refl);
  rx_int = λ trace reads. (0, omega arith, refl);
  tx_int = λ trace reads. (0, omega arith, refl);
  command_complete = λ trace reads. (0, omega arith, (λ i h. absurd (omega arith)), refl);
  data_transfer_complete = λ trace reads. (0, omega arith, (λ i h. absurd (omega arith)), refl);
  auto_command_done = λ trace reads. (0, omega arith, (λ i h. absurd (omega arith)), refl);
}

-- Forty blocks: two chunks of 16 and one of 8.
read_blocks_completes_example :
    (h' : Host) × (read_blocks proto controller 1 0x40020000 128 0x41000000 (16 * 2 + 8) start
      ≡ Outcome.done tt h')
    × (h'.trace ≡ [] ++ read_writes proto controller 0x40020000 128 0 2 8)
read_blocks_completes_example =
    read_blocks_completes proto refl controller 1 responsive 0x40020000 128 0x41000000 2 8 start
      (omega arith) (omega arith)

-- 50 MHz from a PLL at 600 MHz.
best_dividers_closest_example :
    IsDivisor (best_dividers 600000000 50000000).best_n (best_dividers 600000000 50000000).best_m
    × ((n m : ℕ)
        → IsDivisor n m
        → distance 600000000 50000000
            ((best_dividers 600000000 50000000).best_n, (best_dividers 600000000 50000000).best_m)
          ≤ distance 600000000 50000000 (n, m))
best_dividers_closest_example = best_dividers_closest 600000000 50000000 (omega arith) (omega arith)

block_completes_example :
    ((h' : Host) × (read_block proto controller 1 0x40020000 7 0x41000000 start
        ≡ Outcome.done tt h')
      × IsTransferred proto controller 0x40020000 0x41000000
          (data_cmd 17 7 DataTransfer.read_data false)
          controller.rx_int_is_clear
          Write.clear_rx_int
          start
          h')
    × ((h' : Host) × (write_block proto controller 1 0x40020000 7 0x41000000 start
          ≡ Outcome.done tt h')
        × IsTransferred proto controller 0x40020000 0x41000000
            (data_cmd 24 7 DataTransfer.write_data false)
            controller.tx_int_is_clear
            Write.clear_tx_int
            start
            h')
block_completes_example =
    block_completes proto refl controller 1 responsive 0x40020000 7 0x41000000 start
