-- ===== src/D1/Smhc/Commands.antt =====
-- Commands and interrupts of the SD/MMC host controller, src/soc/src/sunxi/d1/smhc/mod.rs.
pub mod Waits
pub mod Traces
use upstream_oreboot.Prelude.{ℕ, zero, suc, ◌+◌, ◌^◌, Bool, true, false, Option, none, some}
use upstream_oreboot.Prelude.{List, [], ◌∷◌, ◌++◌, ◌==◌, if◌then◌else◌, bit_and, bit_or, u32}
use upstream_oreboot.D1.Smhc.Card.{CardType, CardStatus, CardCurrentState}
use upstream_oreboot.D1.Smhc.Host.{
  Reg, CmdFields, CardWidth, Write, Device, Host, Error, Outcome, Driver, pure, throw, and_then,
  ◌>>=◌, ◌>>◌, write, read, spin,
}

pub data Interrupt : Type 0 where
  response_error command_complete data_transfer_complete data_transmit_request : Interrupt
  data_receive_request response_crc_error data_crc_error response_timeout_int : Interrupt
  data_timeout_int data_starvation_timeout_int fifo_underrun_overflow_int : Interrupt
  command_busy_illegal_write_int data_start_error auto_command_done data_end_error : Interrupt
  sdio card_inserted card_removed : Interrupt

unfoldable pub into_u32 : Interrupt → ℕ
into_u32 Interrupt.response_error = 2 ^ 1
into_u32 Interrupt.command_complete = 2 ^ 2
into_u32 Interrupt.data_transfer_complete = 2 ^ 3
into_u32 Interrupt.data_transmit_request = 2 ^ 4
into_u32 Interrupt.data_receive_request = 2 ^ 5
into_u32 Interrupt.response_crc_error = 2 ^ 6
into_u32 Interrupt.data_crc_error = 2 ^ 7
into_u32 Interrupt.response_timeout_int = 2 ^ 8
into_u32 Interrupt.data_timeout_int = 2 ^ 9
into_u32 Interrupt.data_starvation_timeout_int = 2 ^ 10
into_u32 Interrupt.fifo_underrun_overflow_int = 2 ^ 11
into_u32 Interrupt.command_busy_illegal_write_int = 2 ^ 12
into_u32 Interrupt.data_start_error = 2 ^ 13
into_u32 Interrupt.auto_command_done = 2 ^ 14
into_u32 Interrupt.data_end_error = 2 ^ 15
into_u32 Interrupt.sdio = 2 ^ 16
into_u32 Interrupt.card_inserted = 2 ^ 30
into_u32 Interrupt.card_removed = 2 ^ 31

pub data DataTransfer : Type 0 where
  read_data write_data : DataTransfer

pub data Response : Type 0 where
  short long : Response

pub record CommandOptions : Type 0 where
  pub cmd : ℕ
  pub arg : ℕ
  pub transfer : Option DataTransfer
  pub check_crc : Bool
  pub response : Option Response
  pub auto_stop : Bool

abbrev pub init_cmd : ℕ → ℕ → Bool → CommandOptions
init_cmd c a crc = record {
  cmd = c;
  arg = a;
  transfer = none;
  check_crc = crc;
  response = some Response.short;
  auto_stop = false;
}

abbrev pub ctrl_cmd : ℕ → ℕ → Response → CommandOptions
ctrl_cmd c a resp = record {
  cmd = c;
  arg = a;
  transfer = none;
  check_crc = true;
  response = some resp;
  auto_stop = false;
}

abbrev pub data_cmd : ℕ → ℕ → DataTransfer → Bool → CommandOptions
data_cmd c a dir stop = record {
  cmd = c;
  arg = a;
  transfer = some dir;
  check_crc = true;
  response = some Response.short;
  auto_stop = stop;
}

-- Constants of the crate `embedded_sdmmc`.
pub record Proto : Type 0 where
  pub cmd0 : ℕ
  pub cmd8 : ℕ
  pub cmd9 : ℕ
  pub cmd13 : ℕ
  pub cmd17 : ℕ
  pub cmd18 : ℕ
  pub cmd24 : ℕ
  pub cmd25 : ℕ
  pub cmd55 : ℕ
  pub acmd41 : ℕ
  pub block_len : ℕ

abbrev pub default : Proto → CommandOptions
default proto = record {
  cmd = proto.cmd0;
  arg = 0;
  transfer = none;
  check_crc = false;
  response = none;
  auto_stop = false;
}

abbrev pub data_bits : Option DataTransfer → Bool × Bool
data_bits none = (false, false)
data_bits (some DataTransfer.read_data) = (true, false)
data_bits (some DataTransfer.write_data) = (true, true)

abbrev pub response_bits : Option Response → Bool × Bool
response_bits none = (false, false)
response_bits (some Response.short) = (true, false)
response_bits (some Response.long) = (true, true)

abbrev pub cmd_fields : CommandOptions → CmdFields
cmd_fields opt = record {
  cmd_load = true;
  wait_pre_over = true;
  prg_clk = false;
  stop_cmd_flag = opt.auto_stop;
  data_trans = (data_bits opt.transfer).0;
  trans_dir = (data_bits opt.transfer).1;
  chk_resp_crc = opt.check_crc;
  long_resp = (response_bits opt.response).1;
  resp_rcv = (response_bits opt.response).0;
  cmd_idx = opt.cmd;
}

unfoldable pub card_command : CommandOptions → Driver (Unit {0})
card_command opt = do write (Write.cmdarg opt.arg); write (Write.cmd (cmd_fields opt))

-- What one reading of the status says: keep waiting, or leave the loop with a result.
pub data Verdict : Type 0 where
  keep : Verdict
  leave : Option Error → Verdict

abbrev pub result_of : Option Error → Driver (Unit {0})
result_of none = pure tt
result_of (some e) = throw e

-- Leave the loop, with the write behind it, or go round again.
abbrev pub settle : ℕ → Verdict → Driver (Unit {0}) → Driver (Unit {0})
settle int Verdict.keep again = again
settle int (Verdict.leave r) again = do write (Write.clear_rintsts int); result_of r

module _ (dev : Device) where
  unfoldable pub verdict : ℕ → ℕ → Verdict
  verdict int rint =
      if dev.rto_back rint
      then Verdict.leave (some Error.response_timeout)
      else if dev.rce rint
      then Verdict.leave (some Error.response_crc)
      else if dev.re rint
      then Verdict.leave (some Error.response)
      else if dev.dsto_vsd rint
      then Verdict.leave (some Error.data_starvation_timeout)
      else if dev.dto_bds rint
      then Verdict.leave (some Error.data_timeout)
      else if dev.dce rint
      then Verdict.leave (some Error.data_crc)
      else if dev.fu_fo rint
      then Verdict.leave (some Error.fifo_underrun_overflow)
      else if dev.cb_iw rint
      then Verdict.leave (some Error.command_busy_illegal_write)
      else if dev.dse_bc rint
      then Verdict.leave (some Error.data_start)
      else if dev.dee rint
      then Verdict.leave (some Error.data_end)
      else if bit_and rint int == int
      then Verdict.leave none
      else Verdict.keep

  unfoldable pub wait_loop : ℕ → ℕ → Driver (Unit {0})
  wait_loop zero int h = Outcome.waiting
  wait_loop (suc fuel) int h =
      let again = wait_loop fuel int in
      settle int (verdict int (dev.value h.trace Reg.rintsts h.reads)) again
        (record h { reads = suc h.reads })

  unfoldable pub wait_for_interrupt : ℕ → Interrupt → Driver (Unit {0})
  wait_for_interrupt fuel int = wait_loop fuel (into_u32 int)

  abbrev pub wait_for_cc : ℕ → Driver (Unit {0})
  wait_for_cc fuel = wait_for_interrupt fuel Interrupt.command_complete

  abbrev pub wait_for_dtc : ℕ → Driver (Unit {0})
  wait_for_dtc fuel = wait_for_interrupt fuel Interrupt.data_transfer_complete

  abbrev pub wait_for_acd : ℕ → Driver (Unit {0})
  wait_for_acd fuel = wait_for_interrupt fuel Interrupt.auto_command_done

  unfoldable pub reset_fifo : ℕ → Driver (Unit {0})
  reset_fifo fuel = do write Write.fifo_set_bit; spin dev fuel Reg.ctrl dev.fifo_rst_is_reset
