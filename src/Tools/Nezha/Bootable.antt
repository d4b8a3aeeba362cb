-- ===== src/Tools/Nezha/Bootable.antt =====
-- The completed image is one that the boot ROM accepts.
use upstream_oreboot.Prelude.{
  ℕ, ◌+◌, ◌*◌, ◌/◌, ◌%◌, ◌^◌, ◌≤◌, ◌<◌, ◌≡◌, refl, sym, ap, ◌∙◌, arith, ◌⊎◌, inl, inr, Option, none,
  some,
}
use upstream_oreboot.Prelude.{[], ◌++◌, leb, if◌then◌else◌, u32}
use upstream_oreboot.Tools.Nezha.{
  File, word, read_u32, write_u32, set_len, align_up_to, stamp_checksum, file_checksum, Finished,
  with_lengths, with_checksum, xtask_finialize_d1_flash, short_errors, stamp_errors,
}
use upstream_oreboot.Tools.Nezha.Image.{
  sum_words, checksum_loop-sum_words, IsBytes, with_lengths-IsBytes, write_u32_back,
  align_up_to_lem, word-write_self, word-write_ne, word-set_len,
}

-- `image` is bootable: its length is the least multiple of 16 KiB that holds `f`, and stands in the
-- words 0x10 and 0x60; the length of the main stage stands in word 0x64; and the checksum in word
-- 0x0c is the sum of all words, as it is with the stamp in place of the checksum.
pub record IsBootable (f : File) (main_stage_length : ℕ) (image : File) : Type 0 where
  pub aligned : image.len % 16384 ≡ 0
  pub covers : f.len ≤ image.len
  pub least : image.len < f.len + 16384
  pub boot_length : word image 0x10 ≡ image.len
  pub flash_length : word image 0x60 ≡ image.len
  pub main_length : word image 0x64 ≡ main_stage_length
  pub checked :
      word image 0x0c ≡ u32 (sum_words (write_u32 image 0x0c stamp_checksum) (image.len / 4) 0)

module _ (f : File) (main_len : ℕ) (bytes : IsBytes f) (head : 0x68 ≤ f.len)
    (fits : f.len + 16384 ≤ 2 ^ 32) (main_fits : main_len < 2 ^ 32)
    (stamped : word f 0x0c ≡ stamp_checksum) where
  new_len : ℕ
  new_len = align_up_to f.len (16 * 1024)

  new_len_lem : (new_len % 16384 ≡ 0) × (f.len ≤ new_len) × (new_len < f.len + 16384)
  unfolding new_len
  new_len_lem = align_up_to_lem f.len

  len_f4 : (with_lengths f main_len).len ≡ new_len
  unfolding with_lengths new_len write_u32 set_len
  len_f4 = omega (arith, new_len_lem)

  f2 : File
  f2 = write_u32 (write_u32 f 0x64 (u32 main_len)) 0x60 (u32 new_len)

  f3 : File
  f3 = set_len f2 new_len

  split : with_lengths f main_len ≡ write_u32 f3 0x10 (u32 new_len)
  unfolding with_lengths new_len f2 f3
  split = refl

  small : u32 new_len ≡ new_len
  small = omega (arith, new_len_lem)

  len_f2 : f2.len ≡ f.len
  unfolding f2 write_u32
  len_f2 = omega arith

  word-f2 : (q : ℕ) → q + 4 ≤ 0x60 → word f2 q ≡ word f q
  unfolding f2
  word-f2 q h =
      word-write_ne (write_u32 f 0x64 (u32 main_len)) 0x60 (u32 new_len) q (inl (omega arith))
      ∙ word-write_ne f 0x64 (u32 main_len) q (inl (omega arith))

  flash_f2 : word f2 0x60 ≡ u32 new_len
  unfolding f2
  flash_f2 = word-write_self (write_u32 f 0x64 (u32 main_len)) 0x60 (u32 new_len) (omega arith)

  main_f2 : word f2 0x64 ≡ main_len
  unfolding f2
  main_f2 =
      word-write_ne (write_u32 f 0x64 (u32 main_len)) 0x60 (u32 new_len) 0x64 (inr (omega arith))
      ∙ word-write_self f 0x64 (u32 main_len) (omega arith)
      ∙ omega arith

  word-f3 : (q : ℕ) → q + 4 ≤ 0x68 → word f3 q ≡ word f2 q
  unfolding f3
  word-f3 q h = word-set_len f2 new_len q (omega (arith, len_f2))

  -- The words of the file before its checksum.
  f4 : File
  f4 = with_lengths f main_len

  word-f4 : (q : ℕ) → (q + 4 ≤ 0x10) ⊎ (0x14 ≤ q) → q + 4 ≤ 0x68 → word f4 q ≡ word f2 q
  unfolding f4
  word-f4 q apart h =
      ap (λ (g : File). word g q) split ∙ word-write_ne f3 0x10 (u32 new_len) q apart ∙ word-f3 q h

  len_of_f4 : f4.len ≡ new_len
  unfolding f4
  len_of_f4 = len_f4

  f4-IsBytes : IsBytes f4
  unfolding f4
  f4-IsBytes = with_lengths-IsBytes f main_len bytes

  stamp_f4 : word f4 0x0c ≡ stamp_checksum
  stamp_f4 = word-f4 0x0c (inl (omega arith)) (omega arith) ∙ word-f2 0x0c (omega arith) ∙ stamped

  boot_f4 : word f4 0x10 ≡ new_len
  unfolding f4
  boot_f4 =
      ap (λ (g : File). word g 0x10) split
      ∙ word-write_self f3 0x10 (u32 new_len) (omega arith)
      ∙ small

  flash_f4 : word f4 0x60 ≡ new_len
  flash_f4 = word-f4 0x60 (inr (omega arith)) (omega arith) ∙ flash_f2 ∙ small

  main_f4 : word f4 0x64 ≡ main_len
  main_f4 = word-f4 0x64 (inr (omega arith)) (omega arith) ∙ main_f2

  sum_f4 : file_checksum f4 ≡ u32 (sum_words f4 (f4.len / 4) 0)
  sum_f4 =
      checksum_loop-sum_words f4 (f4.len / 4) (f4.len / 4 + 1) 0 0 (omega arith) (omega arith)
        (omega arith) (omega arith)
      ∙ ap u32 (omega arith)

  image : File
  image = write_u32 f4 0x0c (file_checksum f4)

  len_image : image.len ≡ new_len
  unfolding image write_u32
  len_image = omega (arith, len_of_f4, new_len_lem)

  back : write_u32 image 0x0c stamp_checksum ≡ f4
  unfolding image
  back =
      write_u32_back f4 0x0c (file_checksum f4) stamp_checksum
        (omega (arith, len_of_f4, new_len_lem)) f4-IsBytes stamp_f4

  word-image : (q : ℕ) → 0x10 ≤ q → word image q ≡ word f4 q
  unfolding image
  word-image q h = word-write_ne f4 0x0c (file_checksum f4) q (inr (omega arith))

  checked_f4 : word image 0x0c ≡ u32 (sum_words f4 (f4.len / 4) 0)
  unfolding image
  checked_f4 = word-write_self f4 0x0c (file_checksum f4) (omega (arith, sum_f4)) ∙ sum_f4

  image-IsBootable : IsBootable f main_len image
  image-IsBootable = record {
    aligned = omega (arith, len_image, new_len_lem);
    covers = omega (arith, len_image, new_len_lem);
    least = omega (arith, len_image, new_len_lem);
    boot_length = word-image 0x10 (omega arith) ∙ boot_f4 ∙ sym len_image;
    flash_length = word-image 0x60 (omega arith) ∙ flash_f4 ∙ sym len_image;
    main_length = word-image 0x64 (omega arith) ∙ main_f4;
    checked =
        checked_f4
        ∙ ap (λ (n : ℕ). u32 (sum_words f4 (n / 4) 0)) (len_of_f4 ∙ sym len_image)
        ∙ ap (λ (g : File). u32 (sum_words g (image.len / 4) 0)) (sym back);
  }

  read_f4 : read_u32 f4 0x0c ≡ some stamp_checksum
  read_f4 = long (f4.len) (word f4 0x0c) (omega (arith, len_of_f4, new_len_lem)) stamp_f4
    where
      long :
          (n w : ℕ)
          → 0x10 ≤ n
          → w ≡ stamp_checksum
          → (if leb (0x0c + 4) n then some w else none) ≡ some stamp_checksum
      long n w h e = ground arith

  no_errors : (short_errors f.len ≡ []) × (stamp_errors stamp_checksum ≡ [])
  no_errors = (ground arith, refl)

  -- An image whose bytes are bytes, with a head of at least 0x68 bytes, a length that fits into 32
  -- bits and the stamp in word 0x0c, is completed without an error or a panic, to a bootable one.
  pub xtask_finialize_d1_flash-IsBootable :
      (done : Finished) × (xtask_finialize_d1_flash f main_len ≡ some done)
      × (done.errors ≡ [])
      × IsBootable f main_len done.file
  unfolding xtask_finialize_d1_flash f4 image
  xtask_finialize_d1_flash-IsBootable = (
    record { file = image; errors = short_errors f.len ++ stamp_errors stamp_checksum },
    ap (λ (r : Option ℕ). with_checksum r f4 (short_errors f.len)) read_f4,
    ap (λ e. e ++ []) no_errors.0,
    image-IsBootable,
  )
