-- ===== src/Tools/Nezha.antt =====
-- The completion of the first stage's image, xtask/src/sunxi/nezha.rs.
pub mod Image
pub mod Bootable
use upstream_oreboot.Prelude.{
  ℕ, zero, suc, ◌+◌, ◌*◌, ◌/◌, ◌%◌, ◌^◌, Option, none, some, List, [], ◌∷◌, ◌++◌,
}
use upstream_oreboot.Prelude.{◌==◌, ltb, leb, if◌then◌else◌, u32}
use Prim.Native.Nat.{max}

-- A file: its length, and its bytes.
pub record File : Type 0 where
  pub len : ℕ
  pub byte : ℕ → ℕ

abbrev pub word : File → ℕ → ℕ
word f p = f.byte p + 256 * f.byte (p + 1) + 65536 * f.byte (p + 2) + 16777216 * f.byte (p + 3)

-- `read_u32::<LittleEndian>` at a position; `none` is `UnexpectedEof`.
abbrev pub read_u32 : File → ℕ → Option ℕ
read_u32 f p = if leb (p + 4) f.len then some (word f p) else none

abbrev pub put_word : (ℕ → ℕ) → ℕ → ℕ → ℕ → ℕ
put_word byte p v i =
    if i == p
    then v % 256
    else if i == p + 1
    then v / 256 % 256
    else if i == p + 2
    then v / 65536 % 256
    else if i == p + 3
    then v / 16777216 % 256
    else byte i

-- `seek`, and `write_u32::<LittleEndian>`, which makes a file that is too short longer.
unfoldable pub write_u32 : File → ℕ → ℕ → File
write_u32 f p v = record { len = max f.len (p + 4); byte = put_word f.byte p v }

-- A file that is made longer is filled with zeros.
unfoldable pub set_len : File → ℕ → File
set_len f n = record { len = n; byte = λ i. if ltb i f.len then f.byte i else 0 }

unfoldable pub align_up_to : ℕ → ℕ → ℕ
align_up_to len target_align =
    if len % target_align == 0 then len else (len / target_align + 1) * target_align

abbrev pub stamp_checksum : ℕ
stamp_checksum = 0x5f0a6c39

abbrev pub total_head_length : ℕ
total_head_length = 0x68

abbrev pub add_or_stop : Option ℕ → ℕ → (ℕ → ℕ) → ℕ
add_or_stop none checksum rest = checksum
add_or_stop (some val) checksum rest = rest val

-- The loop over the words, from `pos` on; the end of the file ends it.
unfoldable pub checksum_loop : File → ℕ → ℕ → ℕ → ℕ
checksum_loop f zero pos checksum = checksum
checksum_loop f (suc fuel) pos checksum =
    let rest = λ (val : ℕ). checksum_loop f fuel (pos + 4) (u32 (checksum + val)) in
    add_or_stop (read_u32 f pos) checksum rest

abbrev pub file_checksum : File → ℕ
file_checksum f = checksum_loop f (f.len / 4 + 1) 0 0

-- What is logged with `error!`; the tool goes on.
pub data Logged : Type 0 where
  too_short wrong_stamp : Logged

pub record Finished : Type 0 where
  pub file : File
  pub errors : List Logged

abbrev pub short_errors : ℕ → List Logged
short_errors total_length = if ltb total_length total_head_length then Logged.too_short ∷ [] else []

abbrev pub stamp_errors : ℕ → List Logged
stamp_errors stamp = if stamp == stamp_checksum then [] else Logged.wrong_stamp ∷ []

-- The file with its lengths, before the checksum.
unfoldable pub with_lengths : File → ℕ → File
with_lengths f main_stage_length =
    let new_len = align_up_to f.len (16 * 1024) in
    let f1 = write_u32 f 0x64 (u32 main_stage_length) in
    let f2 = write_u32 f1 0x60 (u32 new_len) in write_u32 (set_len f2 new_len) 0x10 (u32 new_len)

-- `none` is the panic of `unwrap`.
abbrev pub with_checksum : Option ℕ → File → List Logged → Option Finished
with_checksum none f errors = none
with_checksum (some stamp) f errors =
    some
      (record { file = write_u32 f 0x0c (file_checksum f); errors = errors ++ stamp_errors stamp })

unfoldable pub xtask_finialize_d1_flash : File → ℕ → Option Finished
xtask_finialize_d1_flash f main_stage_length =
    let f4 = with_lengths f main_stage_length in
    with_checksum (read_u32 f4 0x0c) f4 (short_errors f.len)
