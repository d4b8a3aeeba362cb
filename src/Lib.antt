-- ===== src/Lib.antt =====
-- Models and proofs for oreboot, the coreboot fork in Rust (src/ of the repository; paths below are
-- from the repository's root).
--
-- Parts, and the files that model them:
--
-- - Sbi/Context.antt, Sbi/Runtime.antt, Sbi/Feature.antt, Sbi/Execute.antt: the supervisor binary
--   interface of src/arch/src/riscv64/sbi. A `Hart` holds the supervisor's context and the control
--   and status registers. `round` is one turn of `execute_supervisor`: the supervisor runs (a
--   function on harts from outside), `resume` classifies its trap, and `handle` serves it; `run` is
--   the loop over a list of such turns. A panic is the outcome `panicked`, or `none`. The crates
--   `riscv` and `rustsbi` are the records `Riscv` and `Rustsbi` of Sbi/Riscv.antt.
-- - Sbi/Switch.antt: the assembly of src/arch/src/riscv64/sbi/runtime.rs as lists of instructions
--   on a machine of registers and double words, with wrapping addresses.
-- - Sbi/Pmp.antt: `pmp_get` and `print_hart_pmp` of src/arch/src/riscv64/sbi/hart_csr_utils.rs.
-- - Nezha/SbiPlatform.antt: the handlers of src/mainboard/sunxi/nezha/main/src/sbi_platform.rs on
--   the CLINT of src/soc/src/sunxi/d1/clint.rs.
-- - D1/Smhc.antt and its children: the SD/MMC host controller of src/soc/src/sunxi/d1/smhc. A
--   `Device` answers each read of a register, from the writes so far and the number of reads; an
--   operation is a `Driver`, which appends its writes to the trace of the `Host`. Card.antt and
--   Idmac.antt model card.rs and idmac.rs; Commands.antt, Cards.antt, Blocks.antt and Setup.antt
--   model mod.rs: the commands and the waits, the start and the states of a card, the transfers
--   of blocks, and `new`. A pointer is its address.
-- - Tools/Nezha.antt: `xtask_finialize_d1_flash` of xtask/src/sunxi/nezha.rs, on files of bytes.
-- - Tools/Bin2Vmem.antt: `do_bin2vmem` of tools/bin2vmem/src/main.rs.
-- - Util.antt, Logger.antt: src/lib/util/src/lib.rs and src/lib/log/src/lib.rs.
-- - Nezha/Dram.antt and its children: the initialisation of the DRAM, mctl.rs of
--   src/mainboard/sunxi/nezha/bt0/src. A `Bus` gives the words of a world and the effect of a read,
--   a write and a delay; a function is a `Step` on a `Board`, which is a world and the table of the
--   address lines, and it takes and returns the parameters where the code changes them. Clock.antt,
--   Setup.antt, Timing.antt with Modes.antt and Channel.antt are the five parts of
--   `mctl_core_init`; Size.antt, Scan.antt and Init.antt are the detection, the test and
--   `init_dram`. The children Ends, Kept, Tested, Ranks, Probe, Reported, Mirrors, Memory, Capacity and
--   Packing prove facts about them.
-- - Nezha/Flash.antt, Nezha/Loader.antt: flash.rs and the loads of main.rs of
--   src/mainboard/sunxi/nezha/bt0/src. The transfers of the SPI driver are the record `Spi` on the
--   state of a chip; `IsNand` and `IsNor` say what the chips do. The load from an SD card, in
--   Nezha/Loader/Mmc.antt, calls the operations of D1/Smhc.antt.
-- - Layout.antt: `layout_flash` of src/lib/layoutflash/src/unix.rs, on an image of bytes. What the
--   file system and the environment give is the record `System`; an image can always be written.
-- - Visionfive2/Pll.antt: the clock generators, pll.rs of src/mainboard/starfive/visionfive2/bt0/src,
--   on a function from addresses to words. Set.antt says what a generator is to hold, and Fields,
--   Powered, Each and Together prove facts about the writes.
--
-- A child of a module proves facts about it: Sbi/Feature/Reads.antt about `emulate_rdtime` of
-- Sbi/Feature.antt, and so on. Tests/ holds concrete runs. Prelude/ holds the shared lists, tests
-- and words, and the laws of `&` and `|` at every width.
--
-- Machine integers are natural numbers with the wrap-around written out. Loops are recursions on a
-- list or on fuel: `ctz` has 65 rounds, for 64 bits and the test that ends it (`ctz-total`).
-- A loop of the host controller that polls a register has as many rounds as the caller allows; it
-- ends as `waiting` if its condition has not come by then. A read of `n` blocks takes at most `n`
-- turns. Both bounds are enough for a controller that answers (`read_blocks_completes`).
-- The waits of the DRAM controller have as many rounds as the caller allows, enough for hardware
-- that answers within them (`Responsive` of Nezha/Dram/Ends.antt).
-- `copy_into` of a NAND flash has a turn for each byte, of which it needs one for each page.
--
-- Not modelled: diagnostic output, the initialisation of pins and clocks by tables of register
-- writes, generated register accessors, a fault of the SBI's own loads of a trapped instruction, external crates and commands, and the boards that the build
-- leaves out.
pub mod Prelude
pub mod Sbi
pub mod Nezha
pub mod D1
pub mod Layout
pub mod Visionfive2
pub mod Util
pub mod Tools
pub mod Logger
mod Tests
