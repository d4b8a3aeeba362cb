-- ===== src/D1/Smhc/Cards.antt =====
-- The commands to the card: its start, its registers and its states. The code is
-- src/soc/src/sunxi/d1/smhc/mod.rs.
pub mod Types
pub mod Start
use upstream_oreboot.Prelude.{ℕ, zero, suc, ◌+◌, ◌/◌, ◌%◌, ◌^◌, Bool, true, false}
use upstream_oreboot.Prelude.{List, [], ◌∷◌, ◌++◌, ◌==◌, if◌then◌else◌, bit_and, bit_or}
use upstream_oreboot.D1.Smhc.Card.{CardType, CardStatus}
use upstream_oreboot.D1.Smhc.Host.{
  Reg, CardWidth, Write, Device, Host, Error, Outcome, Driver, pure, and_then, ◌>>=◌, ◌>>◌, write,
  read,
}
use upstream_oreboot.D1.Smhc.Commands.{
  Response, init_cmd, ctrl_cmd, default, Proto, card_command, wait_for_cc, reset_fifo,
}

abbrev pub ocr_hcs : ℕ
ocr_hcs = 0x40000000

abbrev pub ocr_nbusy : ℕ
ocr_nbusy = 0x80000000

abbrev pub ocr_voltage_mask : ℕ
ocr_voltage_mask = 0x007fff80

-- A card, by its address.
pub record Card : Type 0 where
  pub rca : ℕ

-- The bytes of a word, the lowest first.
abbrev pub to_le_bytes : ℕ → List ℕ
to_le_bytes d = d % 256 ∷ d / 256 % 256 ∷ d / 65536 % 256 ∷ d / 16777216 % 256 ∷ []

abbrev pub reverse_onto : List ℕ → List ℕ → List ℕ
reverse_onto [] acc = acc
reverse_onto (x ∷ xs) acc = reverse_onto xs (x ∷ acc)

-- The data of the crate's `CsdV2`.
unfoldable pub csd_bytes : ℕ → ℕ → ℕ → ℕ → List ℕ
csd_bytes d0 d1 d2 d3 =
    reverse_onto (to_le_bytes d0 ++ (to_le_bytes d1 ++ (to_le_bytes d2 ++ to_le_bytes d3))) []

abbrev pub first_type : ℕ → CardType
first_type echo = if echo == 0x1aa then CardType.sd2 else CardType.sd1

abbrev pub last_type : ℕ → CardType → CardType
last_type ocr card_type = if bit_and ocr ocr_hcs == ocr_hcs then CardType.sdhc else card_type

abbrev pub op_cond_arg : CardType → ℕ
op_cond_arg CardType.sd1 = bit_and ocr_voltage_mask 0x00ff8000
op_cond_arg _ = bit_or ocr_hcs (bit_and ocr_voltage_mask 0x00ff8000)

module _ (proto : Proto) (dev : Device) where
  unfoldable pub reset_card : ℕ → Driver (Unit {0})
  reset_card fuel = do card_command (default proto); wait_for_cc dev fuel; reset_fifo dev fuel

  -- One command and the wait for its end.
  unfoldable pub app_op_cond : ℕ → CardType → Driver ℕ
  app_op_cond fuel card_type = do
    card_command (init_cmd proto.cmd55 0 true)
    wait_for_cc dev fuel
    card_command (init_cmd proto.acmd41 (op_cond_arg card_type) false)
    wait_for_cc dev fuel
    read dev Reg.resp0

  -- The loop over ACMD41 until the card has finished its power up.
  unfoldable pub ocr_loop : ℕ → ℕ → CardType → Driver ℕ
  ocr_loop fuel zero card_type h = Outcome.waiting
  ocr_loop fuel (suc attempts) card_type h = and_then (app_op_cond fuel card_type h) (λ ocr.
      let again = ocr_loop fuel attempts card_type in
      if bit_and ocr ocr_nbusy == ocr_nbusy then pure ocr else again)

  unfoldable pub initialize : ℕ → ℕ → Driver CardType
  initialize fuel attempts = do
    card_command (init_cmd proto.cmd8 0x1aa true)
    wait_for_cc dev fuel
    echo ← read dev Reg.resp0
    ocr ← ocr_loop fuel attempts (first_type echo)
    pure (last_type ocr (first_type echo))

  unfoldable pub get_cid : ℕ → Driver (Unit {0})
  get_cid fuel = do card_command (ctrl_cmd 0x02 0 Response.long); wait_for_cc dev fuel

  unfoldable pub get_rca : ℕ → Driver Card
  get_rca fuel = do
    card_command (ctrl_cmd 0x03 0 Response.short)
    wait_for_cc dev fuel
    address ← read dev Reg.resp0
    pure (record { rca = address })

  unfoldable pub get_csd : ℕ → Card → Driver (List ℕ)
  get_csd fuel card = do
    card_command (ctrl_cmd proto.cmd9 card.rca Response.long)
    wait_for_cc dev fuel
    d0 ← read dev Reg.resp0
    d1 ← read dev Reg.resp1
    d2 ← read dev Reg.resp2
    d3 ← read dev Reg.resp3
    pure (csd_bytes d0 d1 d2 d3)

  abbrev status : ℕ → CardStatus
  status response = record { word = response }

  unfoldable pub get_status : ℕ → Card → Driver CardStatus
  get_status fuel card = do
    card_command (ctrl_cmd proto.cmd13 card.rca Response.short)
    wait_for_cc dev fuel
    response ← read dev Reg.resp0
    pure (status response)

  unfoldable pub select : ℕ → Card → Driver CardStatus
  select fuel card = do
    card_command (ctrl_cmd 0x07 card.rca Response.short)
    wait_for_cc dev fuel
    response ← read dev Reg.resp0
    pure (status response)

  unfoldable pub set_wide_bus : ℕ → Card → Driver CardStatus
  set_wide_bus fuel card = do
    card_command (init_cmd proto.cmd55 card.rca true)
    wait_for_cc dev fuel
    card_command (ctrl_cmd 0x06 2 Response.short)
    wait_for_cc dev fuel
    write (Write.ctype CardWidth.b4)
    response ← read dev Reg.resp0
    pure (status response)
