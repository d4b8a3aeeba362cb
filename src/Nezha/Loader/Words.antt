-- ===== src/Nezha/Loader/Words.antt =====
-- The words that a load puts into the memory, src/mainboard/sunxi/nezha/bt0/src/main.rs.
use upstream_oreboot.Prelude.{
  ℕ, zero, suc, ◌+◌, ◌-◌, ◌*◌, ◌/◌, ◌^◌, ◌<◌, ◌≤◌, ◌≡◌, ◌≢◌, ◌∙◌, refl, ap, arith, List, [], ◌∷◌,
  u8, get_or, eqb_refl,
}
use native.Mathlib.Decide.{dec_lt}
use upstream_oreboot.Nezha.Flash.{Spi, cmd_nor_read, nor_copy_into}
use upstream_oreboot.Nezha.Flash.Pages.{bytes}
use upstream_oreboot.Nezha.Loader.{Memory, store, word_of, chunk_loop, load_loop}

-- The word of a flash at an address, with the lowest byte first.
abbrev pub flash_word : (ℕ → ℕ) → ℕ → ℕ
flash_word flash a =
    flash a + flash (a + 1) * 2 ^ 8 + flash (a + 2) * 2 ^ 16 + flash (a + 3) * 2 ^ 24

get_or-bytes : (flash : ℕ → ℕ) (a n i : ℕ) → i < n → get_or (bytes flash a n) i 0 ≡ flash (a + i)
unfolding bytes
get_or-bytes flash a zero i h = elim h [ ]
get_or-bytes flash a (suc n) zero h = ap flash (omega arith)
get_or-bytes flash a (suc n) (suc i) h =
    get_or-bytes flash (suc a) n i (omega arith) ∙ ap flash (omega arith)

pub word_of-bytes :
    (flash : ℕ → ℕ) (a n i : ℕ) → i + 4 ≤ n → word_of (bytes flash a n) i ≡ flash_word flash (a + i)
word_of-bytes flash a n i h =
    let byte = λ (d : ℕ) (p : i + d < n). get_or-bytes flash a n (i + d) p in
    let b0 : get_or (bytes flash a n) i 0 ≡ flash (a + i) =
      get_or-bytes flash a n i (omega arith) in
    let b1 : get_or (bytes flash a n) (i + 1) 0 ≡ flash (a + i + 1) =
      byte 1 (omega arith) ∙ ap flash (omega arith) in
    let b2 : get_or (bytes flash a n) (i + 2) 0 ≡ flash (a + i + 2) =
      byte 2 (omega arith) ∙ ap flash (omega arith) in
    let b3 : get_or (bytes flash a n) (i + 3) 0 ≡ flash (a + i + 3) =
      byte 3 (omega arith) ∙ ap flash (omega arith) in
    rw (b0, b1, b2, b3) refl

-- The words that a chunk does not touch.
chunk_frame :
    (count j addr a : ℕ) (buf : List ℕ) (mem : Memory)
    → ((k : ℕ) → j ≤ k → k < j + count → addr + 4 * k ≢ a)
    → chunk_loop count j addr buf mem a ≡ mem a
unfolding chunk_loop
chunk_frame zero j addr a buf mem h = refl
chunk_frame (suc count) j addr a buf mem h =
    chunk_frame count (suc j) addr a buf (store (addr + 4 * j) (word_of buf (4 * j)) mem)
      (λ k p q. h k (omega arith) (omega arith))
    ∙ ground (arith, h j (omega arith) (omega arith))

chunk_hit :
    (count j addr k : ℕ) (buf : List ℕ) (mem : Memory)
    → j ≤ k
    → k < j + count
    → chunk_loop count j addr buf mem (addr + 4 * k) ≡ word_of buf (4 * k)
unfolding chunk_loop
chunk_hit zero j addr k buf mem p q = absurd (omega arith)
chunk_hit (suc count) j addr k buf mem p q = elim (dec_lt j k) [
  | yes later ↦ chunk_hit count (suc j) addr k buf _ later (omega arith)
  | no now ↦
      let e : k ≡ j = omega arith in
      rw e (
        chunk_frame count (suc j) addr (addr + 4 * j) buf
          (store (addr + 4 * j) (word_of buf (4 * j)) mem) (λ m r t same. absurd (omega arith))
        ∙ rw (eqb_refl (addr + 4 * j)) refl)
]

module _ {S : Type 0} (spi : Spi S) (flash : ℕ → ℕ) where
  -- A NOR chip answers the read command with the bytes from an address of three bytes on.
  pub record IsNor : Type 0 where
    pub gives :
        (a b c : ℕ) (s : S)
        → a < 256
        → b < 256
        → c < 256
        → spi.received (cmd_nor_read ∷ a ∷ b ∷ c ∷ []) 0 64 s
          ≡ bytes flash (a * 2 ^ 16 + b * 2 ^ 8 + c) 64

  pub load_loop_frame :
      (count i skip base a : ℕ) (mem : Memory) (s : S)
      → ((k : ℕ) → 16 * i ≤ k → k < 16 * (i + count) → base + 4 * k ≢ a)
      → (load_loop spi count i skip base mem s).0 a ≡ mem a
  unfolding load_loop
  load_loop_frame zero i skip base a mem s h = refl
  load_loop_frame (suc count) i skip base a mem s h =
      load_loop_frame count (suc i) skip base a _ _ (λ k p q. h k (omega arith) (omega arith))
      ∙ chunk_frame 16 0 (base + i * 4 * 16) a _ mem
          (λ k p q same. h (16 * i + k) (omega arith) (omega arith) (omega (arith, same)))

  module _ (chip : IsNor) where
    chunk_read :
        (off : ℕ) (s : S)
        → off < 2 ^ 24
        → (nor_copy_into spi (u8 (off / 2 ^ 16)) (u8 (off / 2 ^ 8)) (u8 off) s).0
          ≡ bytes flash off 64
    unfolding nor_copy_into
    chunk_read off s fits =
        let whole : u8 (off / 2 ^ 16) * 2 ^ 16 + u8 (off / 2 ^ 8) * 2 ^ 8 + u8 off ≡ off =
          omega arith in
        chip.gives (u8 (off / 2 ^ 16)) (u8 (off / 2 ^ 8)) (u8 off) s (omega arith) (omega arith)
          (omega arith)
        ∙ ap (λ (a : ℕ). bytes flash a 64) whole

    this_chunk :
        (i skip base k j : ℕ) (mem : Memory) (s : S)
        → k ≡ 16 * i + j
        → j < 16
        → skip + i * 4 * 16 < 2 ^ 24
        → chunk_loop 16 0
            (base + i * 4 * 16)
            (nor_copy_into spi
              (u8 ((skip + i * 4 * 16) / 2 ^ 16))
              (u8 ((skip + i * 4 * 16) / 2 ^ 8))
              (u8 (skip + i * 4 * 16))
              s).0
            mem
            (base + 4 * k)
          ≡ flash_word flash (skip + 4 * k)
    this_chunk i skip base k j mem s e below fits =
        let here : base + 4 * k ≡ base + i * 4 * 16 + 4 * j = omega arith in
        let there : skip + i * 4 * 16 + 4 * j ≡ skip + 4 * k = omega arith in
        rw here (chunk_hit 16 0 (base + i * 4 * 16) j _ mem (omega arith) (omega arith))
        ∙ ap (λ (l : List ℕ). word_of l (4 * j)) (chunk_read (skip + i * 4 * 16) s fits)
        ∙ word_of-bytes flash (skip + i * 4 * 16) 64 (4 * j) (omega arith)
        ∙ ap (flash_word flash) there

    pub load_loop_hit :
        (count i skip base k : ℕ) (mem : Memory) (s : S)
        → 16 * i ≤ k
        → k < 16 * (i + count)
        → skip + 64 * (i + count) ≤ 2 ^ 24
        → (load_loop spi count i skip base mem s).0 (base + 4 * k) ≡ flash_word flash (skip + 4 * k)
    unfolding load_loop
    load_loop_hit zero i skip base k mem s p q fits = absurd (omega arith)
    load_loop_hit (suc count) i skip base k mem s p q fits = elim (dec_lt k (16 * suc i)) [
      | no later ↦
          load_loop_hit count (suc i) skip base k _ _ (omega arith) (omega arith) (omega arith)
      | yes now ↦
          load_loop_frame count (suc i) skip base (base + 4 * k) _ _
            (λ m r t same. absurd (omega arith))
          ∙ this_chunk i skip base k (k - 16 * i) mem s (omega arith) (omega arith) (omega arith)
    ]
