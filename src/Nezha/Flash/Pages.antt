-- ===== src/Nezha/Flash/Pages.antt =====
-- What is copied out of a NAND flash, src/mainboard/sunxi/nezha/bt0/src/flash.rs.
use upstream_oreboot.Prelude.{
  ℕ, zero, suc, ◌+◌, ◌-◌, ◌*◌, ◌/◌, ◌%◌, ◌^◌, ◌<◌, ◌≤◌, ◌≡◌, ◌∙◌, refl, sym, ap, arith, min, List,
  [], ◌∷◌, ◌++◌, some, Bool, false, ◌==◌, u32, ◌&&&◌, Bool-cases, inl, inr,
}
use upstream_oreboot.Prelude.Bits.{bit_and_mask}
use native.Mathlib.Decide.{ℕ_discrete}
use upstream_oreboot.Nezha.Flash.{
  Spi, page_command, cache_command, cmd_get_feature, cmd_read_id, feat_status, len_page,
  get_feature, wait, nand_read_id, copy_into,
}

-- The bytes of a flash from an address on.
unfoldable pub bytes : (ℕ → ℕ) → ℕ → ℕ → List ℕ
bytes flash a zero = []
bytes flash a (suc n) = flash a ∷ bytes flash (suc a) n

pub bytes-append :
    (flash : ℕ → ℕ) (a m n : ℕ) → bytes flash a (m + n) ≡ bytes flash a m ++ bytes flash (a + m) n
unfolding bytes
bytes-append flash a zero n =
    let e : 0 + n ≡ n = omega arith in let f : a + 0 ≡ a = omega arith in rw (e, f) refl
bytes-append flash a (suc m) n =
    let e : suc m + n ≡ suc (m + n) = omega arith in
    let f : a + suc m ≡ suc a + m = omega arith in
    rw (e, f) (ap (λ l. flash a ∷ l) (bytes-append flash (suc a) m n))

module _ {S : Type 0} (spi : Spi S) where
  abbrev pub polled : S → S
  polled = spi.after (cmd_get_feature ∷ feat_status ∷ []) 0 1

  abbrev pub after_polls : ℕ → S → S
  after_polls zero s = s
  after_polls (suc k) s = after_polls k (polled s)

  -- Bit 0 of the status: an operation is in progress.
  abbrev pub is_busy : S → Bool
  is_busy s = get_feature spi feat_status s &&& 1 == 1

  -- A NAND chip: `page` is the page that is in its cache or on the way into it. The chip ends to be
  -- busy within the fuel, and then stays ready until a command; the status does not touch the cache.
  -- Only of a chip that is not busy is it known that it takes a page read, and that it gives out bytes
  -- of its cache.
  pub record IsNand (flash : ℕ → ℕ) (page : S → ℕ) (fuel : ℕ) : Type 0 where
    pub ready : (s : S) → (k : ℕ) × (k < fuel) × (is_busy (after_polls k s) ≡ false)
    pub stays : (s : S) → is_busy s ≡ false → is_busy (polled s) ≡ false
    pub keeps : (s : S) → page (polled s) ≡ page s
    pub loads :
        (row : ℕ) (s : S)
        → is_busy s ≡ false
        → row < 2 ^ 24
        → page (spi.after (page_command row) 0 0 s) ≡ row
    pub gives :
        (ca n : ℕ) (s : S)
        → is_busy s ≡ false
        → ca + n ≤ len_page
        → spi.received (cache_command ca) 1 n s ≡ bytes flash (page s * len_page + ca) n

  wait_ends :
      (page : S → ℕ) (fuel k : ℕ) (s : S)
      → k < fuel
      → is_busy (after_polls k s) ≡ false
      → ((s' : S) → page (polled s') ≡ page s')
      → ((s' : S) → is_busy s' ≡ false → is_busy (polled s') ≡ false)
      → (s1 : S) × (wait spi fuel s ≡ some s1) × (page s1 ≡ page s) × (is_busy s1 ≡ false)
  unfolding wait
  wait_ends page zero k s less free keeps stays = elim less [ ]
  wait_ends page (suc fuel) zero s less free keeps stays =
      (polled s, rw free refl, keeps s, stays s free)
  wait_ends page (suc fuel) (suc k) s less free keeps stays =
      let rest = wait_ends page fuel k (polled s) (omega arith) free keeps stays in
      elim (Bool-cases (is_busy s)) [
        | inl busy ↦ (rest.0, rw busy rest.1, rest.2 ∙ keeps s, rest.3)
        | inr ready ↦ (polled s, rw ready refl, keeps s, stays s ready)
      ]

  wrapped : (flash : ℕ → ℕ) (a m : ℕ) → a + m ≤ 2 ^ 32 → bytes flash (u32 a) m ≡ bytes flash a m
  unfolding bytes
  wrapped flash a zero h = refl
  wrapped flash a (suc m) h = let e : u32 a ≡ a = omega arith in rw e refl

  -- One turn: the bytes up to the end of the page.
  abbrev part : ℕ → ℕ → ℕ
  part base len = min len (len_page - base % 2 ^ 11)

  copy_step :
      (fuel turns base len ca : ℕ) (s s2 s3 : S) {tail : List ℕ} {s' : S}
      → base &&& 2047 ≡ ca
      → (len == 0) ≡ false
      → wait spi fuel s ≡ some s2
      → wait spi fuel (spi.after (page_command (base / 2 ^ 11)) 0 0 s2) ≡ some s3
      → copy_into spi fuel turns
          (u32 (base + min len (len_page - ca)))
          (len - min len (len_page - ca))
          (spi.after (cache_command ca) 1 (min len (len_page - ca)) s3)
        ≡ some (tail, s')
      → copy_into spi fuel (suc turns) base len s
        ≡ some (spi.received (cache_command ca) 1 (min len (len_page - ca)) s3 ++ tail, s')
  unfolding copy_into
  copy_step fuel turns base len ca s s2 s3 offset nz first second rest =
      rw (nz, offset, first, second, rest) refl

  module _ (flash : ℕ → ℕ) (page : S → ℕ) (fuel : ℕ) (chip : IsNand flash page fuel) where
    read_part :
        (base len : ℕ) (s : S)
        → base < 2 ^ 32
        → (s2 : S) × (s3 : S) × (wait spi fuel s ≡ some s2)
          × (wait spi fuel (spi.after (page_command (base / 2 ^ 11)) 0 0 s2) ≡ some s3)
          × (spi.received (cache_command (base % 2 ^ 11)) 1 (part base len) s3
              ≡ bytes flash base (part base len))
    read_part base len s fits =
        let q = chip.ready s in
        let w = wait_ends page fuel q.0 s q.1 q.2 chip.keeps chip.stays in
        let s2 = spi.after (page_command (base / 2 ^ 11)) 0 0 w.0 in
        let q' = chip.ready s2 in
        let w' = wait_ends page fuel q'.0 s2 q'.1 q'.2 chip.keeps chip.stays in
        let row : page w'.0 ≡ base / 2 ^ 11 =
          w'.2 ∙ chip.loads (base / 2 ^ 11) w.0 w.3 (omega arith) in
        let start : base / 2 ^ 11 * len_page + base % 2 ^ 11 ≡ base = omega arith in
        (
          w.0,
          w'.0,
          w.1,
          w'.1,
          chip.gives (base % 2 ^ 11) (part base len) w'.0 w'.3 (omega arith) ∙ rw (row, start) refl,
        )

    copy_turns :
        (turns base len : ℕ) (s : S)
        → len ≤ turns
        → base + len ≤ 2 ^ 32
        → (s' : S) × (copy_into spi fuel turns base len s ≡ some (bytes flash base len, s'))
    unfolding copy_into bytes
    copy_turns zero base len s few fits = let e : len ≡ 0 = omega arith in (s, rw e refl)
    copy_turns (suc turns) base len s few fits = elim (ℕ_discrete len 0) [
      | yes e ↦ (s, rw e refl)
      | no ne ↦
          let n = part base len in
          let r = read_part base len s (omega arith) in
          let offset : base &&& 2047 ≡ base % 2 ^ 11 = bit_and_mask 11 base in
          let nz : (len == 0) ≡ false = ground arith in
          let all : n + (len - n) ≡ len = omega arith in
          let whole : bytes flash base n ++ bytes flash (u32 (base + n)) (len - n)
              ≡ bytes flash base len =
            ap (λ (l : List ℕ). bytes flash base n ++ l)
              (wrapped flash (base + n) (len - n) (omega arith))
            ∙ sym (bytes-append flash base n (len - n))
            ∙ ap (bytes flash base) all in
          let rest =
            copy_turns turns (u32 (base + n)) (len - n)
              (spi.after (cache_command (base % 2 ^ 11)) 1 n r.1) (omega arith) (omega arith) in
          (
            rest.0,
            copy_step fuel turns base len (base % 2 ^ 11) s r.0 r.1 offset nz r.2 r.3 rest.1
                ∙ ap (λ (l : List ℕ). some (l, rest.0))
                    (ap (λ (l : List ℕ). l ++ bytes flash (u32 (base + n)) (len - n)) r.4 ∙ whole),
          )
    ]

pub nand_read_id_ends :
    {S : Type 0} (spi : Spi S) (flash : ℕ → ℕ) (page : S → ℕ) (fuel : ℕ) (s : S)
    → IsNand spi flash page fuel
    → (id : List ℕ × S) × (nand_read_id spi fuel s ≡ some id)
unfolding nand_read_id
nand_read_id_ends spi flash page fuel s chip =
    let q = chip.ready s in
    let w = wait_ends spi page fuel q.0 s q.1 q.2 chip.keeps chip.stays in
    ((spi.received (cmd_read_id ∷ []) 1 3 w.0, spi.after (cmd_read_id ∷ []) 1 3 w.0), rw w.1 refl)

-- On a NAND chip `SpiNand::copy_into` returns, and its buffer holds the bytes of the flash from the
-- base on, in order and across the ends of the pages, when the base and the length stay within 32
-- bits; as many turns as there are bytes are enough.
pub copy_into-bytes :
    {S : Type 0} (spi : Spi S) (flash : ℕ → ℕ) (page : S → ℕ) (fuel base len : ℕ) (s : S)
    → IsNand spi flash page fuel
    → base + len ≤ 2 ^ 32
    → (s' : S) × (copy_into spi fuel len base len s ≡ some (bytes flash base len, s'))
copy_into-bytes spi flash page fuel base len s chip fits =
    copy_turns spi flash page fuel chip len base len s (omega arith) fits
