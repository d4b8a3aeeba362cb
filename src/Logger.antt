-- ===== src/Logger.antt =====
-- The logger, src/lib/log/src/lib.rs. The bytes that the serial port has taken are a list; the
-- crate `nb` repeats a write until the port takes the byte.
use upstream_oreboot.Prelude.{
  ℕ, ◌+◌, ◌*◌, ◌/◌, ◌%◌, ◌^◌, ◌<◌, ◌≡◌, ◌≢◌, refl, ap, ◌∙◌, arith, Option, none, some,
}
use upstream_oreboot.Prelude.{
  List, [], ◌∷◌, ◌++◌, ◌==◌, ltb, if◌then◌else◌, if_ind, u8, ◌>>>◌, bit_and,
}
use native.Mathlib.Decide.{ℕ_discrete}
use upstream_oreboot.Prelude.{true, false}
use upstream_oreboot.Prelude.Bits.{bit_and_mask}

-- Each byte, with a carriage return before a newline.
unfoldable pub write_str : List ℕ → List ℕ
write_str [] = []
write_str (byte ∷ rest) = if byte == 10 then 13 ∷ byte ∷ write_str rest else byte ∷ write_str rest

unfoldable pub shift_and_hex : ℕ → ℕ → ℕ
shift_and_hex n s =
    let x = bit_and (u8 (n >>> s)) 0x0f in if ltb 9 x then u8 (x + 0x37) else u8 (x + 0x30)

unfoldable pub print_hex : ℕ → List ℕ
print_hex i =
    0x30
    ∷ 0x78
    ∷ shift_and_hex i 28
    ∷ shift_and_hex i 24
    ∷ shift_and_hex i 20
    ∷ shift_and_hex i 16
    ∷ shift_and_hex i 12
    ∷ shift_and_hex i 8
    ∷ shift_and_hex i 4
    ∷ shift_and_hex i 0
    ∷ 13
    ∷ 10
    ∷ []

-- What a terminal makes of the bytes: the carriage returns are dropped.
unfoldable pub without_returns : List ℕ → List ℕ
without_returns [] = []
without_returns (byte ∷ rest) =
    let later = without_returns rest in if byte == 13 then later else byte ∷ later

abbrev pub HasNoReturns : List ℕ → Type 0
HasNoReturns [] = Unit
HasNoReturns (byte ∷ rest) = (byte ≢ 13) × HasNoReturns rest

-- Behind the byte `prev`: each newline stands directly behind a carriage return, and each carriage
-- return directly before a newline.
abbrev pub IsPaired : ℕ → List ℕ → Type 0
IsPaired prev [] = prev ≢ 13
IsPaired prev (byte ∷ rest) = (byte ≡ 10 → prev ≡ 13) × (prev ≡ 13 → byte ≡ 10) × IsPaired byte rest

write_str-IsPaired :
    (text : List ℕ) (prev : ℕ) → prev ≢ 13 → HasNoReturns text → IsPaired prev (write_str text)
unfolding write_str
write_str-IsPaired [] prev free plain = free
write_str-IsPaired (byte ∷ rest) prev free plain = elim (ℕ_discrete byte 10) [
  | yes newline ↦
      let test : (byte == 10) ≡ true = ground arith in
      let later = write_str-IsPaired rest byte plain.0 plain.1 in
      rw test (
        (λ e. absurd (omega (arith, e))),
        (λ e. absurd (free e)),
        ((λ e. refl), (λ e. newline), later),
      )
  | no other ↦
      let test : (byte == 10) ≡ false = ground arith in
      let later = write_str-IsPaired rest byte plain.0 plain.1 in
      rw test ((λ e. absurd (other e)), (λ e. absurd (free e)), later)
]

kept :
    (byte : ℕ) (rest : List ℕ)
    → byte ≢ 13
    → without_returns (byte ∷ rest) ≡ byte ∷ without_returns rest
unfolding without_returns
kept byte rest ne = drop_test (without_returns rest)
  where
    drop_test : (later : List ℕ) → (if byte == 13 then later else byte ∷ later) ≡ byte ∷ later
    drop_test later = ground arith

-- A text without carriage returns is the output without them.
pub dropped_returns : (text : List ℕ) → HasNoReturns text → without_returns (write_str text) ≡ text
unfolding write_str without_returns
dropped_returns [] plain = refl
dropped_returns (byte ∷ rest) plain =
    let ih = dropped_returns rest plain.1 in
    let line = kept byte (write_str rest) plain.0 ∙ ap (λ (t : List ℕ). byte ∷ t) ih in
    if_ind (λ out. without_returns out ≡ byte ∷ rest) (byte == 10) line line

-- The output of a text without carriage returns has one directly before each newline and nowhere
-- else, and without them it is the text: no other byte is lost, added or moved.
pub without_returns-write_str :
    (text : List ℕ)
    → HasNoReturns text
    → (without_returns (write_str text) ≡ text) × IsPaired 0 (write_str text)
without_returns-write_str text plain =
    (dropped_returns text plain, write_str-IsPaired text 0 (omega arith) plain)

-- The digit that a byte stands for.
unfoldable pub digit_of : ℕ → Option ℕ
digit_of c =
    if ltb c 0x30
    then none
    else if ltb c 0x3a
    then some (c % 16)
    else if ltb c 0x41
    then none
    else if ltb c 0x47
    then some (c % 16 + 9)
    else none

-- A number that is written in hexadecimal, digit by digit.
abbrev add_digit : Option ℕ → ℕ → (ℕ → Option ℕ) → Option ℕ
add_digit none acc next = none
add_digit (some d) acc next = next (acc * 16 + d)

abbrev pub hex_value : List ℕ → ℕ → Option ℕ
hex_value [] acc = some acc
hex_value (c ∷ rest) acc = let next = hex_value rest in add_digit (digit_of c) acc next

digit_of-ascii :
    (x : ℕ) → x < 16 → digit_of (if ltb 9 x then u8 (x + 0x37) else u8 (x + 0x30)) ≡ some x
unfolding digit_of
digit_of-ascii x h = ground arith

digit_of-shift_and_hex : (n s : ℕ) → digit_of (shift_and_hex n s) ≡ some (n / 2 ^ s % 16)
unfolding shift_and_hex
digit_of-shift_and_hex n s =
    let nibble : bit_and (u8 (n >>> s)) 0x0f ≡ n / 2 ^ s % 16 =
      bit_and_mask 4 (u8 (n >>> s)) ∙ nibble_of_byte (n / 2 ^ s) in
    ap (λ (x : ℕ). digit_of (if ltb 9 x then u8 (x + 0x37) else u8 (x + 0x30))) nibble
    ∙ digit_of-ascii (n / 2 ^ s % 16) (omega arith)
  where
    nibble_of_byte : (m : ℕ) → u8 m % 2 ^ 4 ≡ m % 16
    nibble_of_byte m = omega arith

-- A 32-bit number is written as `0x`, eight hexadecimal digits that denote it, and a line end.
pub hex_value-print_hex :
    (i : ℕ)
    → i < 2 ^ 32
    → (digits : List ℕ) × (print_hex i ≡ 0x30 ∷ 0x78 ∷ (digits ++ (13 ∷ 10 ∷ [])))
      × (hex_value digits 0 ≡ some i)
unfolding print_hex
hex_value-print_hex i h = (
  shift_and_hex i 28
      ∷ shift_and_hex i 24
      ∷ shift_and_hex i 20
      ∷ shift_and_hex i 16
      ∷ shift_and_hex i 12
      ∷ shift_and_hex i 8
      ∷ shift_and_hex i 4
      ∷ shift_and_hex i 0
      ∷ [],
  refl,
  rw
      (
        digit_of-shift_and_hex i 28,
        digit_of-shift_and_hex i 24,
        digit_of-shift_and_hex i 20,
        digit_of-shift_and_hex i 16,
        digit_of-shift_and_hex i 12,
        digit_of-shift_and_hex i 8,
        digit_of-shift_and_hex i 4,
        digit_of-shift_and_hex i 0,
      )
      (ap some (omega arith)),
)
