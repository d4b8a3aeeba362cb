-- ===== src/Tests/FlashRuns.antt =====
-- A NAND chip and a NOR chip, and loads from them.
use upstream_oreboot.Prelude.{
  ℕ, ◌+◌, ◌*◌, ◌%◌, ◌^◌, ◌<◌, ◌≤◌, ◌≡◌, refl, ap, arith, List, ◌==◌, ltb, if◌then◌else◌, get_or,
  replicate, some, Bool, true, false, [], ◌∷◌, ◌&&&◌,
}
use upstream_oreboot.Nezha.Flash.{page_command, cache_command, Spi, copy_into, len_page}
use upstream_oreboot.Nezha.Flash.Pages.{is_busy, after_polls, bytes, IsNand, copy_into-bytes}
use upstream_oreboot.Nezha.Loader.{
  load_images, load_main_stage, ore_addr, lin_addr, dtb_addr, ore_size, dtf_size, lin_size,
  dtb_size,
}
use upstream_oreboot.Nezha.Loader.Words.{flash_word}
use upstream_oreboot.Nezha.Loader.Images.{load_images-flash_word, load_main_stage-bytes}

-- A main stage of five bytes at 0x8000.
abbrev flash_byte : ℕ → ℕ
flash_byte i =
    if i == 0x61 then 0x80 else if i == 0x64 then 5 else if ltb i 0x68 then 0 else i % 256

abbrev three : List ℕ → ℕ → ℕ
three cmd i = get_or cmd i 0 * 2 ^ 16 + get_or cmd (i + 1) 0 * 2 ^ 8 + get_or cmd (i + 2) 0

-- A chip with a page in its cache that may still be on the way, and whether it is. A page read makes
-- it busy until the next poll of the status, and a busy chip gives out zeros.
record Chip : Type 0 where
  page : ℕ
  busy : Bool

abbrev idle : Chip
idle = record { page = 0; busy = false }

abbrev status : Bool → List ℕ
status true = 1 ∷ []
status false = 0 ∷ []

abbrev nand_chip : Spi Chip
nand_chip = record {
  received = λ cmd dummy n s.
      if get_or cmd 0 0 == 0x0f
      then status s.busy
      else if s.busy
      then replicate n 0
      else if get_or cmd 0 0 == 3
      then bytes flash_byte (s.page * len_page + (get_or cmd 1 0 * 2 ^ 8 + get_or cmd 2 0)) n
      else replicate n 0;
  after = λ cmd dummy n s.
      if get_or cmd 0 0 == 0x0f
      then record { page = s.page; busy = false }
      else if s.busy
      then s
      else if get_or cmd 0 0 == 0x13
      then record { page = three cmd 1; busy = true }
      else s;
}

-- One poll is enough, and a second one sees it.
nand_chip-ready :
    (s : Chip) → (k : ℕ) × (k < 2) × (is_busy nand_chip (after_polls nand_chip k s) ≡ false)
nand_chip-ready s = (1, omega arith, refl)

status-busy : (b : Bool) → (get_or (status b) 0 0 &&& 1 == 1) ≡ false → b ≡ false
status-busy true e = e
status-busy false e = refl

nand_chip-loads :
    (row : ℕ) (s : Chip)
    → is_busy nand_chip s ≡ false
    → row < 2 ^ 24
    → (nand_chip.after (page_command row) 0 0 s).page ≡ row
nand_chip-loads row s free fits = rw (status-busy s.busy free) (omega arith)

nand_chip-gives :
    (ca n : ℕ) (s : Chip)
    → is_busy nand_chip s ≡ false
    → ca + n ≤ len_page
    → nand_chip.received (cache_command ca) 1 n s ≡ bytes flash_byte (s.page * len_page + ca) n
nand_chip-gives ca n s free fits =
    rw (status-busy s.busy free)
      (ap (λ (a : ℕ). bytes flash_byte (s.page * len_page + a) n) (omega arith))

nand_chip-IsNand : IsNand nand_chip flash_byte (λ s. s.page) 2
nand_chip-IsNand = record {
  ready = nand_chip-ready;
  stays = λ s free. refl;
  keeps = λ s. refl;
  loads = nand_chip-loads;
  gives = nand_chip-gives;
}

-- Eight bytes across the end of the first page.
copy_into-bytes_example :
    (s : Chip) × (copy_into nand_chip 2 8 2044 8 idle ≡ some (bytes flash_byte 2044 8, s))
copy_into-bytes_example =
    copy_into-bytes nand_chip flash_byte (λ s. s.page) 2 2044 8 idle nand_chip-IsNand (omega arith)

load_main_stage-bytes_example :
    (s : Chip) × (load_main_stage nand_chip 2 idle
      ≡ some (bytes flash_byte (flash_word flash_byte 0x60) (flash_word flash_byte 0x64), s))
load_main_stage-bytes_example =
    load_main_stage-bytes nand_chip flash_byte (λ s. s.page) 2 idle nand_chip-IsNand (omega arith)

main_stage_place : flash_word flash_byte 0x60 ≡ 0x8000
main_stage_place = refl

abbrev nor_chip : Spi ℕ
nor_chip = record {
  received = λ cmd dummy n s. bytes flash_byte (three cmd 1) n;
  after = λ cmd dummy n s. s;
}

load_images-flash_word_example :
    ((k : ℕ)
      → 4 * k < ore_size
      → (load_images nor_chip (λ a. 0) 0).0 (ore_addr + 4 * k)
        ≡ flash_word flash_byte (2 ^ 15 + 4 * k))
    × ((k : ℕ)
        → 4 * k < lin_size
        → (load_images nor_chip (λ a. 0) 0).0 (lin_addr + 4 * k)
          ≡ flash_word flash_byte (2 ^ 15 + ore_size + dtf_size + 4 * k))
    × ((k : ℕ)
        → 4 * k < dtb_size
        → (load_images nor_chip (λ a. 0) 0).0 (dtb_addr + 4 * k)
          ≡ flash_word flash_byte (2 ^ 15 + ore_size + dtf_size + lin_size + 4 * k))
load_images-flash_word_example =
    load_images-flash_word nor_chip flash_byte (record { gives = λ a b c s p q r. refl }) (λ a. 0) 0
