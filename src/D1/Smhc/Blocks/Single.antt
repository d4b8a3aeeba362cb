-- ===== src/D1/Smhc/Blocks/Single.antt =====
-- Transfers of one block.
use upstream_oreboot.Prelude.{
  ℕ, zero, suc, ◌≡◌, ◌∙◌, ap, refl, sym, Bool, true, false, none, [], ◌∷◌, ◌++◌, ◌>>>◌, u32,
  append_assoc,
}
use upstream_oreboot.Prelude.{inl, inr, Bool-cases}
use upstream_oreboot.D1.Smhc.Idmac.{Descriptor, Prepared, try_from}
use upstream_oreboot.D1.Smhc.Host.{Reg, Write, Device, Host, Outcome, Driver, ◌>>◌, write, spin}
use upstream_oreboot.D1.Smhc.Commands.{
  Interrupt, DataTransfer, CommandOptions, data_cmd, Proto, card_command, wait_for_interrupt,
}
use upstream_oreboot.D1.Smhc.Commands.Waits.{IsAnswered, wait_for_interrupt-IsAnswered}
use upstream_oreboot.D1.Smhc.Commands.Traces.{
  done-inv, Wrote-write, Wrote-card_command, command_writes,
}
use upstream_oreboot.D1.Smhc.Blocks.{
  block_config, await_tx, await_rx, prepare_for_dma, read_block, write_block,
}
use upstream_oreboot.D1.Smhc.Blocks.Sectors.{dma_writes, Wrote-prepare_for_dma}
use upstream_oreboot.D1.Smhc.Blocks.Progress.{
  IsResponsive, Returns, Returns-then, Returns-write, Returns-card_command, Returns-spin,
  Returns-wait, Returns-prepare_for_dma,
}

-- The descriptor of a single block of 512 bytes at `buffer`: it is the first (bit 3) and the last (bit
-- 2) of its chain (bit 4), and the controller owns it (bit 31).
abbrev pub single_descriptor : ℕ → Descriptor
single_descriptor buffer = record {
  des0 = 0x8000001c;
  des1 = 512;
  des2 = u32 buffer >>> 2;
  des3 = 0;
}

try_from-single :
    (proto : Proto) (buffer : ℕ)
    → proto.block_len ≡ 512
    → try_from (block_config proto true true buffer none) ≡ Prepared.ok (single_descriptor buffer)
unfolding try_from
try_from-single proto buffer sized = rw sized refl

-- A loop that waits for a register has seen the reading that ends it, and writes nothing.
spin-seen :
    (dev : Device) (fuel : ℕ) (r : Reg) (busy : ℕ → Bool) (h h' : Host)
    → spin dev fuel r busy h ≡ Outcome.done tt h'
    → (n : ℕ) × (busy (dev.value h.trace r n) ≡ false) × (h'.trace ≡ h.trace)
unfolding spin
spin-seen dev zero r busy h h' e = cc
spin-seen dev (suc fuel) r busy h h' e = elim (Bool-cases (busy (dev.value h.trace r h.reads))) [
  | inl again ↦ spin-seen dev fuel r busy (record h { reads = suc h.reads }) h' (rw again at e)
  | inr free ↦
      let same : record h { reads = suc h.reads } ≡ h' = cc in
      (h.reads, free, ap (λ (x : Host). x.trace) (sym same))
]

module _ (proto : Proto) (dev : Device) where
  -- A transfer that has been answered: `sent` is the host after the command, whose interrupt is
  -- awaited up to `accepted`; then the interrupt of the DMA is seen and cleared, and from `cleared` on
  -- that of the end of the transfer is awaited.
  pub record IsTransferred (table buffer : ℕ) (opt : CommandOptions) (dma_busy : ℕ → Bool)
      (dma_done : Write) (before after : Host) : Type 0 where
    pub sent : Host
    pub accepted : Host
    pub cleared : Host
    pub dma_read : ℕ
    pub sent_trace :
        sent.trace
        ≡ before.trace
          ++ (Write.store table (single_descriptor buffer)
              ∷ (dma_writes proto dev table 1 ++ command_writes opt))
    pub command_complete : IsAnswered dev Interrupt.command_complete sent accepted
    pub dma_complete : dma_busy (dev.value accepted.trace Reg.idst dma_read) ≡ false
    pub cleared_trace : cleared.trace ≡ accepted.trace ++ (dma_done ∷ [])
    pub data_transfer_complete : IsAnswered dev Interrupt.data_transfer_complete cleared after

  module _ (fuel table buffer : ℕ) (opt : CommandOptions) (dma_busy : ℕ → Bool)
      (dma_done : Write) where
    -- The steps behind the descriptor, from the last one on.
    abbrev finish : Driver (Unit {0})
    finish = wait_for_interrupt dev fuel Interrupt.data_transfer_complete

    abbrev await : Driver (Unit {0})
    await = spin dev fuel Reg.idst dma_busy >> write dma_done

    abbrev after_command : Driver (Unit {0})
    after_command = wait_for_interrupt dev fuel Interrupt.command_complete >> (await >> finish)

    abbrev command : Driver (Unit {0})
    command = card_command opt >> after_command

    abbrev prepared : Driver (Unit {0})
    prepared = prepare_for_dma proto dev fuel table 1 >> command

    abbrev transfer : Driver (Unit {0})
    transfer = write (Write.store table (single_descriptor buffer)) >> prepared

    await-seen :
        (h h' : Host)
        → await h ≡ Outcome.done tt h'
        → (n : ℕ) × (dma_busy (dev.value h.trace Reg.idst n) ≡ false)
          × (h'.trace ≡ h.trace ++ (dma_done ∷ []))
    await-seen h h' e =
        let (_, h1, seen, last) =
          done-inv (spin dev fuel Reg.idst dma_busy h) (λ _. write dma_done) tt h' e in
        let (n, free, same) = spin-seen dev fuel Reg.idst dma_busy h h1 seen in
        (n, free, Wrote-write dma_done h1 h' tt last ∙ ap (λ t. t ++ (dma_done ∷ [])) same)

    transfer-IsTransferred :
        (h h' : Host)
        → transfer h ≡ Outcome.done tt h'
        → IsTransferred table buffer opt dma_busy dma_done h h'
    transfer-IsTransferred h h' e =
        let stored = Write.store table (single_descriptor buffer) in
        let (_, h1, e1, r1) = done-inv (write stored h) (λ _. prepared) tt h' e in
        let (_, h2, e2, r2) =
          done-inv (prepare_for_dma proto dev fuel table 1 h1) (λ _. command) tt h' r1 in
        let (_, h3, e3, r3) = done-inv (card_command opt h2) (λ _. after_command) tt h' r2 in
        let (_, h4, e4, r4) =
          done-inv (wait_for_interrupt dev fuel Interrupt.command_complete h3)
            (λ _. await >> finish) tt h' r3 in
        let (_, h5, e5, r5) = done-inv (await h4) (λ _. finish) tt h' r4 in
        let (n, free, written) = await-seen h4 h5 e5 in
        record {
          sent = h3;
          accepted = h4;
          cleared = h5;
          dma_read = n;
          sent_trace =
              Wrote-card_command opt h2 h3 tt e3
              ∙ ap (λ t. t ++ command_writes opt)
                  (Wrote-prepare_for_dma proto dev fuel table 1 h1 h2 tt e2
                    ∙ ap (λ t. t ++ dma_writes proto dev table 1) (Wrote-write stored h h1 tt e1)
                    ∙ append_assoc h.trace (stored ∷ []) (dma_writes proto dev table 1))
              ∙ append_assoc h.trace (stored ∷ dma_writes proto dev table 1) (command_writes opt);
          command_complete =
              wait_for_interrupt-IsAnswered dev fuel Interrupt.command_complete h3 h4 e4;
          dma_complete = free;
          cleared_trace = written;
          data_transfer_complete =
              wait_for_interrupt-IsAnswered dev fuel Interrupt.data_transfer_complete h5 h' r5;
        }

module _ (proto : Proto) (sized : proto.block_len ≡ 512) (dev : Device) (fuel : ℕ)
    (ready : IsResponsive dev fuel) where
  transfer_completes :
      (table buffer : ℕ) (opt : CommandOptions) (dma_busy : ℕ → Bool) (dma_done : Write)
      → Returns (spin dev fuel Reg.idst dma_busy)
      → (h : Host)
      → (h' : Host) × (transfer proto dev fuel table buffer opt dma_busy dma_done h
          ≡ Outcome.done tt h')
        × IsTransferred proto dev table buffer opt dma_busy dma_done h h'
  transfer_completes table buffer opt dma_busy dma_done dma h =
      let run = Returns-then (Returns-write (Write.store table (single_descriptor buffer))) (
        Returns-then (Returns-prepare_for_dma proto sized dev fuel ready table 1) (
          Returns-then (Returns-card_command opt) (
            Returns-then
              (Returns-wait proto sized dev fuel ready Interrupt.command_complete
                ready.command_complete)
              (Returns-then (Returns-then dma (Returns-write dma_done)) (
                Returns-wait proto sized dev fuel ready Interrupt.data_transfer_complete
                  ready.data_transfer_complete))))) in
      let (_, h', e) = run h in
      (h', e, transfer-IsTransferred proto dev fuel table buffer opt dma_busy dma_done h h' e)

  -- Both operations are such transfers.
  read_block-transfer :
      (table sector buffer : ℕ) (h : Host)
      → read_block proto dev fuel table sector buffer h
        ≡ transfer proto dev fuel table buffer
            (data_cmd proto.cmd17 sector DataTransfer.read_data false)
            dev.rx_int_is_clear
            Write.clear_rx_int
            h
  unfolding read_block await_rx
  read_block-transfer table sector buffer h = rw (try_from-single proto buffer sized) refl

  write_block-transfer :
      (table sector buffer : ℕ) (h : Host)
      → write_block proto dev fuel table sector buffer h
        ≡ transfer proto dev fuel table buffer
            (data_cmd proto.cmd24 sector DataTransfer.write_data false)
            dev.tx_int_is_clear
            Write.clear_tx_int
            h
  unfolding write_block await_tx
  write_block-transfer table sector buffer h = rw (try_from-single proto buffer sized) refl

  -- With a controller that answers within the fuel, and blocks of 512 bytes, the read of one block
  -- and the write of one block return. Each has stored the descriptor of the buffer, prepared the DMA
  -- controller for one block with it, and sent CMD17 or CMD24 with the sector; then it has seen,
  -- without an error, command complete, the interrupt of the DMA and data transfer complete, in this
  -- order, and cleared each.
  pub block_completes :
      (table sector buffer : ℕ) (h : Host)
      → ((h' : Host) × (read_block proto dev fuel table sector buffer h ≡ Outcome.done tt h')
          × IsTransferred proto dev table buffer
              (data_cmd proto.cmd17 sector DataTransfer.read_data false)
              dev.rx_int_is_clear
              Write.clear_rx_int
              h
              h')
        × ((h' : Host) × (write_block proto dev fuel table sector buffer h ≡ Outcome.done tt h')
            × IsTransferred proto dev table buffer
                (data_cmd proto.cmd24 sector DataTransfer.write_data false)
                dev.tx_int_is_clear
                Write.clear_tx_int
                h
                h')
  block_completes table sector buffer h =
      let (h1, e1, t1) =
        transfer_completes table buffer (data_cmd proto.cmd17 sector DataTransfer.read_data false)
          dev.rx_int_is_clear Write.clear_rx_int
          (Returns-spin proto sized dev fuel ready Reg.idst dev.rx_int_is_clear ready.rx_int) h in
      let (h2, e2, t2) =
        transfer_completes table buffer (data_cmd proto.cmd24 sector DataTransfer.write_data false)
          dev.tx_int_is_clear Write.clear_tx_int
          (Returns-spin proto sized dev fuel ready Reg.idst dev.tx_int_is_clear ready.tx_int) h in
      (
        (h1, read_block-transfer table sector buffer h ∙ e1, t1),
        (h2, write_block-transfer table sector buffer h ∙ e2, t2),
      )
