-- ===== src/Tools/Nezha/Image.antt =====
-- The image that the tool leaves: its lengths, and the checksum that the boot ROM computes.
use upstream_oreboot.Prelude.{
  ℕ, zero, suc, ◌+◌, ◌*◌, ◌/◌, ◌%◌, ◌^◌, ◌≤◌, ◌<◌, ◌≡◌, ap, ◌∙◌, arith, Option, some,
}
use upstream_oreboot.Prelude.{◌⊎◌, inl, inr, u32}
use upstream_oreboot.Tools.Nezha.{
  File, word, read_u32, put_word, write_u32, set_len, align_up_to, checksum_loop, add_or_stop,
  with_lengths,
}
use Prim.Native.Nat.{max}
use mathlib.Core.Path.{fun_ext}

-- `sum_words f n pos` is the sum of `n` words from `pos` on.
unfoldable pub sum_words : File → ℕ → ℕ → ℕ
sum_words f zero pos = 0
sum_words f (suc n) pos = word f pos + sum_words f n (pos + 4)

pub checksum_loop-sum_words :
    (f : File) (n fuel pos acc : ℕ)
    → pos + 4 * n ≤ f.len
    → f.len < pos + 4 * n + 4
    → n < fuel
    → acc < 2 ^ 32
    → checksum_loop f fuel pos acc ≡ u32 (acc + sum_words f n pos)
unfolding checksum_loop sum_words
checksum_loop-sum_words f n zero pos acc fits full enough small = absurd (omega arith)
checksum_loop-sum_words f zero (suc fuel) pos acc fits full enough small = ground arith
checksum_loop-sum_words f (suc n) (suc fuel) pos acc fits full enough small =
    let step =
      checksum_loop-sum_words f n fuel (pos + 4) (u32 (acc + word f pos)) (omega arith)
        (omega arith) (omega arith) (omega arith) in
    let here : read_u32 f pos ≡ some (word f pos) = ground arith in
    ap
      (λ (r : Option ℕ).
        add_or_stop r acc (λ val. checksum_loop f fuel (pos + 4) (u32 (acc + val))))
      here
    ∙ step
    ∙ omega arith

put_word-read :
    (byte : ℕ → ℕ) (p v : ℕ)
    → v < 2 ^ 32
    → put_word byte p v p
        + 256 * put_word byte p v (p + 1)
        + 65536 * put_word byte p v (p + 2)
        + 16777216 * put_word byte p v (p + 3)
      ≡ v
put_word-read byte p v h = ground arith

put_word_ne : (byte : ℕ → ℕ) (p v i : ℕ) → (i < p) ⊎ (p + 4 ≤ i) → put_word byte p v i ≡ byte i
put_word_ne byte p v i (inl h) = ground arith
put_word_ne byte p v i (inr h) = ground arith

digits :
    (b0 b1 b2 b3 w : ℕ)
    → b0 < 256
    → b1 < 256
    → b2 < 256
    → b3 < 256
    → b0 + 256 * b1 + 65536 * b2 + 16777216 * b3 ≡ w
    → (w % 256 ≡ b0) × (w / 256 % 256 ≡ b1) × (w / 65536 % 256 ≡ b2) × (w / 16777216 % 256 ≡ b3)
digits b0 b1 b2 b3 w h0 h1 h2 h3 e = omega arith

where_is :
    (p i : ℕ) → ((i < p) ⊎ (p + 4 ≤ i)) ⊎ ((i ≡ p) ⊎ ((i ≡ p + 1) ⊎ ((i ≡ p + 2) ⊎ (i ≡ p + 3))))
where_is p i = omega arith

put_word_0 : (byte : ℕ → ℕ) (p v : ℕ) → put_word byte p v p ≡ v % 256
put_word_0 byte p v = ground arith

put_word_1 : (byte : ℕ → ℕ) (p v : ℕ) → put_word byte p v (p + 1) ≡ v / 256 % 256
put_word_1 byte p v = ground arith

put_word_2 : (byte : ℕ → ℕ) (p v : ℕ) → put_word byte p v (p + 2) ≡ v / 65536 % 256
put_word_2 byte p v = ground arith

put_word_3 : (byte : ℕ → ℕ) (p v : ℕ) → put_word byte p v (p + 3) ≡ v / 16777216 % 256
put_word_3 byte p v = ground arith

-- A word that is written back over another one restores the bytes.
put_word_back :
    (byte : ℕ → ℕ) (p v w i : ℕ)
    → byte p < 256
    → byte (p + 1) < 256
    → byte (p + 2) < 256
    → byte (p + 3) < 256
    → byte p + 256 * byte (p + 1) + 65536 * byte (p + 2) + 16777216 * byte (p + 3) ≡ w
    → put_word (put_word byte p v) p w i ≡ byte i
put_word_back byte p v w i h0 h1 h2 h3 e =
    let d = digits (byte p) (byte (p + 1)) (byte (p + 2)) (byte (p + 3)) w h0 h1 h2 h3 e in
    elim (where_is p i) [
      | inl apart ↦ put_word_ne (put_word byte p v) p w i apart ∙ put_word_ne byte p v i apart
      | inr (inl at) ↦ rw at (put_word_0 (put_word byte p v) p w ∙ d.0)
      | inr (inr (inl at)) ↦ rw at (put_word_1 (put_word byte p v) p w ∙ d.1)
      | inr (inr (inr (inl at))) ↦ rw at (put_word_2 (put_word byte p v) p w ∙ d.2)
      | inr (inr (inr (inr at))) ↦ rw at (put_word_3 (put_word byte p v) p w ∙ d.3)
    ]

-- Each byte is one.
abbrev pub IsBytes : File → Type 0
IsBytes f = (i : ℕ) → f.byte i < 256

put_word-IsBytes :
    (byte : ℕ → ℕ) (p v : ℕ) → ((i : ℕ) → byte i < 256) → (i : ℕ) → put_word byte p v i < 256
put_word-IsBytes byte p v h i = ground (arith, h i)

write_u32-IsBytes : (f : File) (p v : ℕ) → IsBytes f → IsBytes (write_u32 f p v)
unfolding write_u32
write_u32-IsBytes f p v h = put_word-IsBytes f.byte p v h

set_len-IsBytes : (f : File) (n : ℕ) → IsBytes f → IsBytes (set_len f n)
unfolding set_len
set_len-IsBytes f n h i = ground (arith, h i)

pub with_lengths-IsBytes : (f : File) (n : ℕ) → IsBytes f → IsBytes (with_lengths f n)
unfolding with_lengths
with_lengths-IsBytes f n h =
    write_u32-IsBytes _ 0x10 _
      (set_len-IsBytes _ _ (write_u32-IsBytes _ 0x60 _ (write_u32-IsBytes f 0x64 _ h)))

-- Writing the stamp over a checksum gives the file back, if the stamp stood there.
pub write_u32_back :
    (f : File) (p v w : ℕ)
    → p + 4 ≤ f.len
    → IsBytes f
    → word f p ≡ w
    → write_u32 (write_u32 f p v) p w ≡ f
unfolding write_u32
write_u32_back f p v w fits bytes e =
    let long : max (max f.len (p + 4)) (p + 4) ≡ f.len = omega arith in
    let same : put_word (put_word f.byte p v) p w ≡ f.byte = fun_ext (λ i.
      put_word_back f.byte p v w i (bytes p) (bytes (p + 1)) (bytes (p + 2)) (bytes (p + 3)) e) in
    ap (λ (n : ℕ). record { len = n; byte = put_word (put_word f.byte p v) p w }) long
    ∙ ap (λ (b : ℕ → ℕ). record { len = f.len; byte = b }) same

pub align_up_to_lem :
    (len : ℕ)
    → (align_up_to len (16 * 1024) % 16384 ≡ 0)
      × (len ≤ align_up_to len (16 * 1024))
      × (align_up_to len (16 * 1024) < len + 16384)
unfolding align_up_to
align_up_to_lem len = ground arith

pub word-write_self : (f : File) (p v : ℕ) → v < 2 ^ 32 → word (write_u32 f p v) p ≡ v
unfolding write_u32
word-write_self f p v h = put_word-read f.byte p v h

pub word-write_ne :
    (f : File) (p v q : ℕ) → (q + 4 ≤ p) ⊎ (p + 4 ≤ q) → word (write_u32 f p v) q ≡ word f q
unfolding write_u32
word-write_ne f p v q (inl h) = omega (
  arith,
  put_word_ne f.byte p v q (inl (omega arith)),
  put_word_ne f.byte p v (q + 1) (inl (omega arith)),
  put_word_ne f.byte p v (q + 2) (inl (omega arith)),
  put_word_ne f.byte p v (q + 3) (inl (omega arith)),
)
word-write_ne f p v q (inr h) = omega (
  arith,
  put_word_ne f.byte p v q (inr (omega arith)),
  put_word_ne f.byte p v (q + 1) (inr (omega arith)),
  put_word_ne f.byte p v (q + 2) (inr (omega arith)),
  put_word_ne f.byte p v (q + 3) (inr (omega arith)),
)

pub byte-set_len : (f : File) (n i : ℕ) → i < f.len → (set_len f n).byte i ≡ f.byte i
unfolding set_len
byte-set_len f n i h = ground arith

pub word-set_len : (f : File) (n q : ℕ) → q + 4 ≤ f.len → word (set_len f n) q ≡ word f q
word-set_len f n q h = omega (
  arith,
  byte-set_len f n q (omega arith),
  byte-set_len f n (q + 1) (omega arith),
  byte-set_len f n (q + 2) (omega arith),
  byte-set_len f n (q + 3) (omega arith),
)
