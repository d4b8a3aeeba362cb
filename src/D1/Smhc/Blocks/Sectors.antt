-- ===== src/D1/Smhc/Blocks/Sectors.antt =====
-- The writes of the block transfers, and the sectors that they name.
use upstream_oreboot.Prelude.{
  ℕ, zero, suc, ◌+◌, ◌-◌, ◌*◌, ◌^◌, ◌<◌, ◌≡◌, refl, ap, ◌∙◌, arith, true, false,
}
use upstream_oreboot.Prelude.{
  none, some, List, [], ◌∷◌, ◌++◌, u32, min, ◌>>>◌, ◌==◌, set, append_nil,
}
use mathlib.Core.Path.{subst}
use upstream_oreboot.D1.Smhc.Idmac.{Descriptor, Prepared, try_from}
use upstream_oreboot.D1.Smhc.Host.{Reg, Write, Device, Driver, pure, ◌>>=◌, ◌>>◌}
use upstream_oreboot.D1.Smhc.Commands.{
  Interrupt, into_u32, DataTransfer, CommandOptions, data_cmd, Proto,
}
use upstream_oreboot.D1.Smhc.Commands.Traces.{
  Wrote, Wrote-bind, Wrote-pure, Wrote-write, Wrote-spin, Wrote-wait, Wrote-reset_fifo,
  command_writes, Wrote-card_command,
}
use upstream_oreboot.D1.Smhc.Blocks.{
  map_err, block_config, blocks_to_descriptors, prepare_for_dma, await_rx, await_tx, read_chunk,
  read_chunks, read_blocks, chain_loop, descriptor_size, zeroed_descriptors,
}

abbrev answered : Interrupt → Write
answered int = Write.clear_rintsts (into_u32 int)

-- `Wrote-bind` behind an operation whose result is dropped.
Wrote-then :
    {A B : Type 0} {m : Driver A} {n : Driver B} {ws vs : List Write}
    → Wrote m ws
    → Wrote n vs
    → Wrote (m >> n) (ws ++ vs)
Wrote-then {m = m} {n = n} {ws = ws} {vs = vs} first next =
    Wrote-bind m (λ _. n) ws vs first (λ _. next)

Wrote-map_err : (d : Prepared) → Wrote (map_err d) []
Wrote-map_err (Prepared.ok d) = Wrote-pure d
Wrote-map_err Prepared.invalid_buffer_size = λ h h' a e. cc

module _ (proto : Proto) (dev : Device) where
  -- The writes that prepare a transfer of `block_cnt` blocks by the descriptors at `table`.
  abbrev pub dma_writes : ℕ → ℕ → List Write
  dma_writes table block_cnt =
      Write.dma_enable
      ∷ Write.dlba (u32 table >>> 2)
      ∷ Write.bytcnt (u32 (block_cnt * proto.block_len))
      ∷ Write.idmac_reset
      ∷ Write.fifoth 8 7 8
      ∷ Write.idma_interrupts
      ∷ Write.idmac_start
      ∷ Write.fifo_set_bit
      ∷ []

  pub Wrote-prepare_for_dma :
      (fuel table block_cnt : ℕ)
      → Wrote (prepare_for_dma proto dev fuel table block_cnt) (dma_writes table block_cnt)
  unfolding prepare_for_dma
  Wrote-prepare_for_dma fuel table block_cnt = Wrote-then (Wrote-write Write.dma_enable) (
      Wrote-then (Wrote-spin dev fuel Reg.ctrl dev.dma_rst_is_set) (
        Wrote-then (Wrote-write (Write.dlba (u32 table >>> 2))) (
          Wrote-then (Wrote-write (Write.bytcnt (u32 (block_cnt * proto.block_len)))) (
            Wrote-then (Wrote-write Write.idmac_reset) (
              Wrote-then (Wrote-write (Write.fifoth 8 7 8)) (
                Wrote-then (Wrote-write Write.idma_interrupts)
                  (Wrote-then (Wrote-write Write.idmac_start) (Wrote-reset_fifo dev fuel))))))))

  Wrote-await_rx : (fuel : ℕ) → Wrote (await_rx proto dev fuel) (Write.clear_rx_int ∷ [])
  unfolding await_rx
  Wrote-await_rx fuel =
      Wrote-then (Wrote-spin dev fuel Reg.idst dev.rx_int_is_clear) (Wrote-write Write.clear_rx_int)

  Wrote-await_tx : (fuel : ℕ) → Wrote (await_tx proto dev fuel) (Write.clear_tx_int ∷ [])
  unfolding await_tx
  Wrote-await_tx fuel =
      Wrote-then (Wrote-spin dev fuel Reg.idst dev.tx_int_is_clear) (Wrote-write Write.clear_tx_int)

  -- The writes of a transfer: the controller is prepared, the command `opt` is sent and answered,
  -- the DMA interrupt is cleared, and then the interrupts `ends`.
  abbrev pub transfer_writes : ℕ → ℕ → CommandOptions → Write → List Write → List Write
  transfer_writes table block_cnt opt dma_done ends =
      dma_writes table block_cnt
      ++ (command_writes opt ++ (answered Interrupt.command_complete ∷ dma_done ∷ ends))

  abbrev two_ends : List Write
  two_ends = answered Interrupt.data_transfer_complete ∷ answered Interrupt.auto_command_done ∷ []

  abbrev pub read_chunk_writes : ℕ → ℕ → ℕ → List Write
  read_chunk_writes table sector n =
      transfer_writes table n (data_cmd proto.cmd18 sector DataTransfer.read_data true)
        Write.clear_rx_int two_ends

  Wrote-read_chunk :
      (fuel sector table n : ℕ)
      → Wrote (read_chunk proto dev fuel sector table n) (read_chunk_writes table sector n)
  unfolding read_chunk
  Wrote-read_chunk fuel sector table n = Wrote-then (Wrote-prepare_for_dma fuel table n) (
      Wrote-then (Wrote-card_command (data_cmd proto.cmd18 sector DataTransfer.read_data true)) (
        Wrote-then (Wrote-wait dev fuel Interrupt.command_complete) (
          Wrote-then (Wrote-await_rx fuel) (
            Wrote-then (Wrote-wait dev fuel Interrupt.data_transfer_complete)
              (Wrote-wait dev fuel Interrupt.auto_command_done)))))

  -- `full` chunks of 16 blocks from chunk `i` on, and one of the `rest` of the blocks, if any.
  abbrev pub read_writes : ℕ → ℕ → ℕ → ℕ → ℕ → List Write
  read_writes table sector i zero zero = []
  read_writes table sector i zero (suc rest) =
      read_chunk_writes table (u32 (sector + 16 * i)) (suc rest)
  read_writes table sector i (suc full) rest =
      read_chunk_writes table (u32 (sector + 16 * i)) 16
      ++ read_writes table sector (suc i) full rest

  Wrote-chain_loop :
      (buffer table n i : ℕ) (ds : List Descriptor)
      → Wrote (chain_loop proto buffer table n i ds) []
  unfolding chain_loop
  Wrote-chain_loop buffer table zero i ds = Wrote-pure ds
  Wrote-chain_loop buffer table (suc n) i ds =
      let config =
        block_config proto (i == 0) false (buffer + i * proto.block_len)
          (some (table + suc i * descriptor_size)) in
      Wrote-bind (map_err (try_from config))
        (λ d. chain_loop proto buffer table n (suc i) (set ds i d)) [] []
        (Wrote-map_err (try_from config))
        (λ d. Wrote-chain_loop buffer table n (suc i) (set ds i d))

  pub Wrote-blocks_to_descriptors :
      (buffer table n : ℕ) (ds : List Descriptor)
      → Wrote (blocks_to_descriptors proto buffer table n ds) []
  unfolding blocks_to_descriptors
  Wrote-blocks_to_descriptors buffer table n ds =
      let i = n - 1 in
      let config = block_config proto (i == 0) true (buffer + i * proto.block_len) none in
      Wrote-bind (chain_loop proto buffer table i 0 ds)
        (λ chained. map_err (try_from config) >>= λ d. pure (set chained i d)) [] []
        (Wrote-chain_loop buffer table i 0 ds)
        (λ chained.
          Wrote-bind (map_err (try_from config)) (λ d. pure (set chained i d)) [] []
            (Wrote-map_err (try_from config)) (λ d. Wrote-pure (set chained i d)))

  Wrote-turn :
      (fuel table turns s buffer count : ℕ) (ds : List Descriptor) (vs : List Write)
      → ((filled : List Descriptor)
          → Wrote
              (read_chunks proto dev fuel table turns
                (u32 (s + min 16 (suc count)))
                (buffer + min 16 (suc count) * proto.block_len)
                (suc count - min 16 (suc count))
                filled)
              vs)
      → Wrote
          (read_chunks proto dev fuel table (suc turns) s buffer (suc count) ds)
          (read_chunk_writes table s (min 16 (suc count)) ++ vs)
  unfolding read_chunks
  Wrote-turn fuel table turns s buffer count ds vs next =
      let n = min 16 (suc count) in
      let later = λ (filled : List Descriptor).
        read_chunks proto dev fuel table turns (u32 (s + n)) (buffer + n * proto.block_len)
          (suc count - n) filled in
      Wrote-bind (blocks_to_descriptors proto buffer table n ds)
        (λ filled. read_chunk proto dev fuel s table n >>= λ _. later filled) []
        (read_chunk_writes table s n ++ vs) (Wrote-blocks_to_descriptors buffer table n ds)
        (λ filled.
          Wrote-bind (read_chunk proto dev fuel s table n) (λ _. later filled)
            (read_chunk_writes table s n) vs (Wrote-read_chunk fuel s table n) (λ _. next filled))

  Wrote-none :
      (fuel table turns s buffer count : ℕ) (ds : List Descriptor)
      → count ≡ 0
      → Wrote (read_chunks proto dev fuel table turns s buffer count ds) []
  unfolding read_chunks
  Wrote-none fuel table turns s buffer zero ds e = Wrote-pure tt
  Wrote-none fuel table turns s buffer (suc count) ds e = absurd (omega arith)

  Wrote-read_chunks :
      (fuel table turns sector s i full rest buffer count : ℕ) (ds : List Descriptor)
      → rest < 16
      → s ≡ u32 (sector + 16 * i)
      → count ≡ 16 * full + rest
      → Wrote
          (read_chunks proto dev fuel table turns s buffer count ds)
          (read_writes table sector i full rest)
  Wrote-read_chunks fuel table turns sector s i zero zero buffer zero ds few es ec =
      unfold read_chunks in Wrote-pure tt
  Wrote-read_chunks fuel table turns sector s i zero (suc rest) buffer zero ds few es ec =
      absurd (omega arith)
  Wrote-read_chunks fuel table turns sector s i (suc full) rest buffer zero ds few es ec =
      absurd (omega arith)
  Wrote-read_chunks fuel table zero sector s i full rest buffer (suc count) ds few es ec =
      unfold read_chunks in λ h h' a e. cc
  Wrote-read_chunks fuel table (suc turns) sector s i zero zero buffer (suc count) ds few es ec =
      absurd (omega arith)
  Wrote-read_chunks fuel table (suc turns) sector s i zero (suc rest) buffer (suc count) ds few es
        ec =
      subst (Wrote (read_chunks proto dev fuel table (suc turns) s buffer (suc count) ds))
        (append_nil (read_chunk_writes table s (min 16 (suc count)))
          ∙ ap (λ (n : ℕ). read_chunk_writes table s n) (omega arith)
          ∙ ap (λ (x : ℕ). read_chunk_writes table x (suc rest)) es)
        (Wrote-turn fuel table turns s buffer count ds [] (λ filled.
          Wrote-none fuel table turns (u32 (s + min 16 (suc count)))
            (buffer + min 16 (suc count) * proto.block_len) (suc count - min 16 (suc count)) filled
            (omega arith)))
  Wrote-read_chunks fuel table (suc turns) sector s i (suc full) rest buffer (suc count) ds few es
        ec =
      subst (Wrote (read_chunks proto dev fuel table (suc turns) s buffer (suc count) ds))
        (ap (λ (n : ℕ). read_chunk_writes table s n ++ read_writes table sector (suc i) full rest)
            (omega arith)
          ∙ ap
              (λ (x : ℕ).
                read_chunk_writes table x 16 ++ read_writes table sector (suc i) full rest)
              es)
        (Wrote-turn fuel table turns s buffer count ds (read_writes table sector (suc i) full rest)
          (λ filled.
            Wrote-read_chunks fuel table turns sector (u32 (s + min 16 (suc count))) (suc i) full
              rest (buffer + min 16 (suc count) * proto.block_len) (suc count - min 16 (suc count))
              filled few (omega arith) (omega arith)))

  -- A read of `16 * full + rest` blocks that returns has made these writes: for each chunk of 16
  -- blocks, and for the rest if there is one, the DMA controller is prepared for the size of the
  -- chunk, and CMD18 is sent with automatic stop and the sector of the chunk's first block.
  pub Wrote-read_blocks :
      (fuel table sector buffer full rest : ℕ)
      → rest < 16
      → sector < 2 ^ 32
      → Wrote
          (read_blocks proto dev fuel table sector buffer (16 * full + rest))
          (read_writes table sector 0 full rest)
  unfolding read_blocks
  Wrote-read_blocks fuel table sector buffer full rest few word =
      Wrote-read_chunks fuel table (16 * full + rest) sector sector 0 full rest buffer
        (16 * full + rest) zeroed_descriptors few (omega arith) refl
