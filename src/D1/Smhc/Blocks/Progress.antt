-- ===== src/D1/Smhc/Blocks/Progress.antt =====
-- A controller that answers lets a transfer end.
use upstream_oreboot.Prelude.{
  ℕ, zero, suc, ◌+◌, ◌-◌, ◌*◌, ◌^◌, ◌≤◌, ◌<◌, ◌≡◌, refl, ap, ◌∙◌, arith, Bool, true, false,
}
use upstream_oreboot.Prelude.{
  inl, inr, Bool-cases, none, List, [], ◌∷◌, ◌++◌, u32, min, ◌>>>◌, if◌then◌else◌,
}
use upstream_oreboot.D1.Smhc.Idmac.{Descriptor}
use upstream_oreboot.D1.Smhc.Host.{
  Reg, Write, Device, Host, Outcome, Driver, and_then, ◌>>=◌, ◌>>◌, write, spin,
}
use upstream_oreboot.D1.Smhc.Commands.{
  Interrupt, into_u32, DataTransfer, CommandOptions, data_cmd, Proto, card_command, cmd_fields,
  wait_for_interrupt, reset_fifo,
}
use upstream_oreboot.D1.Smhc.Commands.Waits.{IsAnswering, wait_for_interrupt_ends, after_wait}
use upstream_oreboot.D1.Smhc.Blocks.{
  blocks_to_descriptors, prepare_for_dma, await_rx, read_chunk, read_chunks, read_blocks,
  zeroed_descriptors,
}
use upstream_oreboot.D1.Smhc.Blocks.Chain.{blocks_to_descriptors_returns}
use upstream_oreboot.D1.Smhc.Blocks.Sectors.{read_writes, Wrote-read_blocks}

-- One of the first `fuel` readings of a register ends the loop that tests it.
abbrev pub IsReady : Device → ℕ → Reg → (ℕ → Bool) → Type 0
IsReady dev fuel r busy =
    (trace : List Write) (reads : ℕ)
    → (n : ℕ) × (n < fuel) × (busy (dev.value trace r (reads + n)) ≡ false)

-- The controller ends its resets, and answers each wait without an error, within `fuel` readings.
pub record IsResponsive (dev : Device) (fuel : ℕ) : Type 0 where
  pub dma_rst : IsReady dev fuel Reg.ctrl dev.dma_rst_is_set
  pub fifo_rst : IsReady dev fuel Reg.ctrl dev.fifo_rst_is_reset
  pub rx_int : IsReady dev fuel Reg.idst dev.rx_int_is_clear
  pub tx_int : IsReady dev fuel Reg.idst dev.tx_int_is_clear
  pub command_complete : IsAnswering dev fuel Interrupt.command_complete
  pub data_transfer_complete : IsAnswering dev fuel Interrupt.data_transfer_complete
  pub auto_command_done : IsAnswering dev fuel Interrupt.auto_command_done

module _ {A : Type 0} where
  -- The operation returns a value in every state.
  abbrev pub Returns : Driver A → Type 0
  Returns p = (h : Host) → (a : A) × (h' : Host) × (p h ≡ Outcome.done a h')

module _ {A B : Type 0} where
  Returns-bind :
      (m : Driver A) (k : A → Driver B)
      → Returns m
      → ((a : A) → Returns (k a))
      → Returns (λ h. and_then (m h) k)
  Returns-bind m k first next h = chain (first h)
    where
      chain :
          (a : A) × (h1 : Host) × (m h ≡ Outcome.done a h1)
          → (b : B) × (h' : Host) × (and_then (m h) k ≡ Outcome.done b h')
      chain (a, h1, e) =
          let (b, h', e') = next a h1 in (b, h', ap (λ (r : Outcome A). and_then r k) e ∙ e')

  pub Returns-then : {m : Driver A} {n : Driver B} → Returns m → Returns n → Returns (m >> n)
  Returns-then {m = m} {n = n} first next = Returns-bind m (λ _. n) first (λ _. next)

pub Returns-write : (w : Write) → Returns (write w)
Returns-write w h = (tt, record h { trace = h.trace ++ (w ∷ []) }, refl)

pub Returns-card_command : (opt : CommandOptions) → Returns (card_command opt)
unfolding card_command
Returns-card_command opt =
    Returns-then (Returns-write (Write.cmdarg opt.arg)) (Returns-write (Write.cmd (cmd_fields opt)))

module _ (proto : Proto) (sized : proto.block_len ≡ 512) (dev : Device) where
  spin_ends :
      (fuel : ℕ) (r : Reg) (busy : ℕ → Bool) (trace : List Write) (reads n : ℕ)
      → n < fuel
      → busy (dev.value trace r (reads + n)) ≡ false
      → (a : Unit {0}) × (h' : Host) × (spin dev fuel r busy
            (record { trace = trace; reads = reads })
          ≡ Outcome.done a h')
  unfolding spin
  spin_ends zero r busy trace reads n below e = absurd (elim below [ ])
  spin_ends (suc fuel) r busy trace reads zero below e =
      let here : busy (dev.value trace r reads) ≡ false =
        ap (λ (k : ℕ). busy (dev.value trace r k)) (omega arith) ∙ e in
      (tt, record { trace = trace; reads = suc reads }, rw here refl)
  spin_ends (suc fuel) r busy trace reads (suc n) below e =
      let h1 : Host = record { trace = trace; reads = suc reads } in
      elim (Bool-cases (busy (dev.value trace r reads))) [
        | inl busy_now ↦
            let (a, h', e') =
              spin_ends fuel r busy trace (suc reads) n (omega arith)
                (ap (λ (k : ℕ). busy (dev.value trace r k)) (omega arith) ∙ e) in
            (
              a,
              h',
              ap (λ (b : Bool). if b then spin dev fuel r busy h1 else Outcome.done tt h1) busy_now
                  ∙ e',
            )
        | inr free_now ↦ (
          tt,
          h1,
          ap (λ (b : Bool). if b then spin dev fuel r busy h1 else Outcome.done tt h1) free_now,
        )
      ]

  module _ (fuel : ℕ) (ready : IsResponsive dev fuel) where
    pub Returns-spin :
        (r : Reg) (busy : ℕ → Bool) → IsReady dev fuel r busy → Returns (spin dev fuel r busy)
    Returns-spin r busy is_ready h =
        let (n, below, e) = is_ready h.trace h.reads in
        spin_ends fuel r busy h.trace h.reads n below e

    pub Returns-wait :
        (int : Interrupt) → IsAnswering dev fuel int → Returns (wait_for_interrupt dev fuel int)
    Returns-wait int answering h =
        let (n, below, quiet, e) = answering h.trace h.reads in
        (
          tt,
          after_wait dev h (into_u32 int) n,
          wait_for_interrupt_ends dev n fuel int h none below quiet e,
        )

    Returns-reset_fifo : Returns (reset_fifo dev fuel)
    unfolding reset_fifo
    Returns-reset_fifo =
        Returns-then (Returns-write Write.fifo_set_bit)
          (Returns-spin Reg.ctrl dev.fifo_rst_is_reset ready.fifo_rst)

    pub Returns-prepare_for_dma : (table n : ℕ) → Returns (prepare_for_dma proto dev fuel table n)
    unfolding prepare_for_dma
    Returns-prepare_for_dma table n = Returns-then (Returns-write Write.dma_enable) (
        Returns-then (Returns-spin Reg.ctrl dev.dma_rst_is_set ready.dma_rst) (
          Returns-then (Returns-write (Write.dlba (u32 table >>> 2))) (
            Returns-then (Returns-write (Write.bytcnt (u32 (n * proto.block_len)))) (
              Returns-then (Returns-write Write.idmac_reset) (
                Returns-then (Returns-write (Write.fifoth 8 7 8)) (
                  Returns-then (Returns-write Write.idma_interrupts)
                    (Returns-then (Returns-write Write.idmac_start) Returns-reset_fifo)))))))

    pub Returns-await_rx : Returns (await_rx proto dev fuel)
    unfolding await_rx
    Returns-await_rx =
        Returns-then (Returns-spin Reg.idst dev.rx_int_is_clear ready.rx_int)
          (Returns-write Write.clear_rx_int)

    Returns-read_chunk : (s table n : ℕ) → Returns (read_chunk proto dev fuel s table n)
    unfolding read_chunk
    Returns-read_chunk s table n = Returns-then (Returns-prepare_for_dma table n) (
        Returns-then (Returns-card_command (data_cmd proto.cmd18 s DataTransfer.read_data true)) (
          Returns-then (Returns-wait Interrupt.command_complete ready.command_complete) (
            Returns-then Returns-await_rx (
              Returns-then
                (Returns-wait Interrupt.data_transfer_complete ready.data_transfer_complete)
                (Returns-wait Interrupt.auto_command_done ready.auto_command_done)))))

    Returns-blocks_to_descriptors :
        (buffer table n : ℕ) (ds : List Descriptor)
        → 0 < n
        → Returns (blocks_to_descriptors proto buffer table n ds)
    Returns-blocks_to_descriptors buffer table zero ds some_block h = absurd (elim some_block [ ])
    Returns-blocks_to_descriptors buffer table (suc n) ds some_block h =
        let (filled, e) = blocks_to_descriptors_returns proto sized buffer table n ds h in
        (filled, h, e)

    Returns-read_chunks :
        (table turns s buffer count : ℕ) (ds : List Descriptor)
        → count ≤ turns
        → Returns (read_chunks proto dev fuel table turns s buffer count ds)
    unfolding read_chunks
    Returns-read_chunks table turns s buffer zero ds enough = λ h. (tt, h, refl)
    Returns-read_chunks table zero s buffer (suc count) ds enough = absurd (omega arith)
    Returns-read_chunks table (suc turns) s buffer (suc count) ds enough =
        let n = min 16 (suc count) in
        let later = λ (filled : List Descriptor).
          read_chunks proto dev fuel table turns (u32 (s + n)) (buffer + n * proto.block_len)
            (suc count - n) filled in
        Returns-bind (blocks_to_descriptors proto buffer table n ds)
          (λ filled. read_chunk proto dev fuel s table n >>= λ _. later filled)
          (Returns-blocks_to_descriptors buffer table n ds (omega arith))
          (λ filled.
            Returns-bind (read_chunk proto dev fuel s table n) (λ _. later filled)
              (Returns-read_chunk s table n)
              (λ _.
                Returns-read_chunks table turns (u32 (s + n)) (buffer + n * proto.block_len)
                  (suc count - n) filled (omega arith)))

    -- With a controller that answers within the fuel, and blocks of 512 bytes, a read of
    -- `16 * full + rest` blocks returns. It has made these writes: for each chunk of 16 blocks,
    -- and for the rest if there is one, the DMA controller is prepared for the size of the chunk,
    -- and CMD18 is sent with automatic stop and the sector of the chunk's first block.
    pub read_blocks_completes :
        (table sector buffer full rest : ℕ) (h : Host)
        → rest < 16
        → sector < 2 ^ 32
        → (h' : Host) × (read_blocks proto dev fuel table sector buffer (16 * full + rest) h
            ≡ Outcome.done tt h')
          × (h'.trace ≡ h.trace ++ read_writes proto dev table sector 0 full rest)
    unfolding read_blocks
    read_blocks_completes table sector buffer full rest h few word =
        let (a, h', e) =
          Returns-read_chunks table (16 * full + rest) sector buffer (16 * full + rest)
            zeroed_descriptors (omega arith) h in
        (h', e, Wrote-read_blocks proto dev fuel table sector buffer full rest few word h h' tt e)
