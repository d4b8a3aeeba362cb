-- ===== src/Layout/Image.antt =====
-- What a flash image holds, src/lib/layoutflash/src/unix.rs.
use upstream_oreboot.Prelude.{
  ℕ, zero, suc, ◌+◌, ◌-◌, ◌^◌, ◌<◌, ◌≤◌, ◌≡◌, ◌∙◌, refl, sym, ap, arith, List, [], ◌∷◌, Option,
  none, some, ltb, if◌then◌else◌, u64, length, get_or, replicate, Bool-cases, inl, inr,
}
use native.Mathlib.Decide.{dec_lt}
use upstream_oreboot.Layout.{
  Area, Flash, Refusal, Laid, laid, refused, System, created, write_at, and_then, offset_or,
  write_content, write_file, layout_loop, layout_flash,
}

length-replicate : (n v : ℕ) → length (replicate n v) ≡ n
length-replicate zero v = refl
length-replicate (suc n) v = ap suc (length-replicate n v)

get_or-replicate : (n i v : ℕ) → i < n → get_or (replicate n v) i 0 ≡ v
get_or-replicate zero i v h = elim h [ ]
get_or-replicate (suc n) zero v h = refl
get_or-replicate (suc n) (suc i) v h = get_or-replicate n i v (omega arith)

get_or_default : (l : List ℕ) (i d e : ℕ) → i < length l → get_or l i d ≡ get_or l i e
get_or_default [] i d e h = elim h [ ]
get_or_default (x ∷ l) zero d e h = refl
get_or_default (x ∷ l) (suc i) d e h = get_or_default l i d e (omega arith)

get_or_beyond : (l : List ℕ) (i d : ℕ) → length l ≤ i → get_or l i d ≡ d
get_or_beyond [] i d h = refl
get_or_beyond (x ∷ l) zero d h = absurd (omega arith)
get_or_beyond (x ∷ l) (suc i) d h = get_or_beyond l i d (omega arith)

write_at_inside :
    (offset : ℕ) (content : List ℕ) (f : Flash) (i : ℕ)
    → i < length content
    → (write_at offset content f).byte (offset + i) ≡ get_or content i 0
write_at_inside offset content f i h =
    let e : offset + i - offset ≡ i = omega arith in
    ground (arith, ap (λ (k : ℕ). get_or content k 0) e)

write_at_before :
    (offset : ℕ) (content : List ℕ) (f : Flash) (i : ℕ)
    → i < offset
    → (write_at offset content f).byte i ≡ f.byte i
write_at_before offset content f i h = ground arith

write_at_behind :
    (offset : ℕ) (content : List ℕ) (f : Flash) (i : ℕ)
    → offset + length content ≤ i
    → (write_at offset content f).byte i ≡ f.byte i
write_at_behind offset content f i h = ground arith

laid_inj : {f g : Flash} → laid f ≡ laid g → f ≡ g
laid_inj e = cc

refused-laid : {f : Flash} {why : Refusal} → ¬ (refused why ≡ laid f)
refused-laid e = cc

-- The ends of the areas are within 64 bits.
abbrev pub Fits : {P : Type 0} → List (Area P) → ℕ → Type 0
Fits [] last = Unit {0}
Fits (a ∷ areas) last =
    (offset_or a.offset last + a.size < 2 ^ 64) × Fits areas (offset_or a.offset last + a.size)

module _ {P : Type 0} (sys : System P) where
  -- The bytes that an area is to hold at its beginning.
  abbrev readable : Option (List ℕ) → List ℕ
  readable none = []
  readable (some content) = content

  abbrev pub content_of : Option P → List ℕ
  content_of none = []
  content_of (some path) =
      if sys.unused (sys.expand path) then [] else readable (sys.read (sys.expand path))

  -- The areas are in the image: each at or behind the end of the one before, with its content first and
  -- 0xff behind it.
  abbrev pub Holds : List (Area P) → ℕ → Flash → Type 0
  Holds [] last f = Unit {0}
  Holds (a ∷ areas) last f =
      (last ≤ offset_or a.offset last)
      × ((i : ℕ)
          → i < a.size
          → f.byte (offset_or a.offset last + i) ≡ get_or (content_of a.file) i 0xff)
      × Holds areas (offset_or a.offset last + a.size) f

  and_then-laid :
      (r : Laid) (k : Flash → Laid) {f : Flash}
      → and_then r k ≡ laid f
      → (f1 : Flash) × (r ≡ laid f1) × (k f1 ≡ laid f)
  and_then-laid (laid f1) k e = (f1, refl, e)
  and_then-laid (refused why) k e = cc

  -- What one area leaves: its own bytes, and those before it.
  abbrev HasArea : ℕ → ℕ → List ℕ → Flash → Flash → Type 0
  HasArea offset size content f f1 =
      ((i : ℕ) → i < size → f1.byte (offset + i) ≡ get_or content i 0xff)
      × ((i : ℕ) → i < offset → f1.byte i ≡ f.byte i)

  filled-HasArea :
      (offset size : ℕ) (f : Flash)
      → HasArea offset size [] f (write_at offset (replicate size 0xff) f)
  filled-HasArea offset size f = (
    (λ i h.
        write_at_inside offset (replicate size 0xff) f i (rw (length-replicate size 0xff) h)
        ∙ get_or-replicate size i 0xff h),
    (λ i h. write_at_before offset (replicate size 0xff) f i h),
  )

  write_content-HasArea :
      (offset size : ℕ) (content : Option (List ℕ)) (f : Flash) {f1 : Flash}
      → write_content sys offset size content (write_at offset (replicate size 0xff) f) ≡ laid f1
      → HasArea offset size (readable content) f f1
  write_content-HasArea offset size none f e = cc
  write_content-HasArea offset size (some content) f {f1} e =
      let f0 = write_at offset (replicate size 0xff) f in
      let base = filled-HasArea offset size f in
      elim (Bool-cases (ltb size (length content))) [
        | inl big ↦ absurd (refused-laid (rw big at e))
        | inr fits ↦
            let same : write_at offset content f0 ≡ f1 = laid_inj (rw fits at e) in
            rw (← same) (
              (λ i h. elim (dec_lt i (length content)) [
                | yes inside ↦
                    write_at_inside offset content f0 i inside
                    ∙ get_or_default content i 0 0xff inside
                | no outside ↦
                    write_at_behind offset content f0 (offset + i) (omega arith)
                    ∙ base.0 i h
                    ∙ sym (get_or_beyond content i 0xff (omega arith))
              ]),
              (λ i h. write_at_before offset content f0 i h ∙ base.1 i h),
            )
      ]

  write_file-HasArea :
      (offset size : ℕ) (file : Option P) (f : Flash) {f1 : Flash}
      → write_file sys offset size file (write_at offset (replicate size 0xff) f) ≡ laid f1
      → HasArea offset size (content_of file) f f1
  write_file-HasArea offset size none f e = rw (← laid_inj e) (filled-HasArea offset size f)
  write_file-HasArea offset size (some path) f e =
      elim (Bool-cases (sys.unused (sys.expand path))) [
        | inl unused ↦ rw (unused, ← laid_inj (rw unused at e)) (filled-HasArea offset size f)
        | inr used ↦
            rw used
              (write_content-HasArea offset size (sys.read (sys.expand path)) f (rw used at e))
      ]

  -- One turn of the loop that has gone well.
  record IsTurn (a : Area P) (areas : List (Area P)) (last : ℕ) (f f' : Flash) : Type 0 where
    above : last ≤ offset_or a.offset last
    between : Flash
    area : HasArea (offset_or a.offset last) a.size (content_of a.file) f between
    rest : layout_loop sys areas (u64 (offset_or a.offset last + a.size)) between ≡ laid f'

  layout_loop-IsTurn :
      (a : Area P) (areas : List (Area P)) (last : ℕ) (f : Flash) {f' : Flash}
      → layout_loop sys (a ∷ areas) last f ≡ laid f'
      → IsTurn a areas last f f'
  unfolding layout_loop
  layout_loop-IsTurn a areas last f e =
      let offset = offset_or a.offset last in
      elim (Bool-cases (ltb offset last)) [
        | inl overlaps ↦ absurd (refused-laid (rw overlaps at e))
        | inr above ↦
            let parts =
              and_then-laid
                (write_file sys offset a.size a.file (write_at offset (replicate a.size 0xff) f))
                (layout_loop sys areas (u64 (offset + a.size))) (rw above at e) in
            record {
              above = ground arith;
              between = parts.0;
              area = write_file-HasArea offset a.size a.file f parts.1;
              rest = parts.2;
            }
      ]

  whole : (n : ℕ) → n < 2 ^ 64 → u64 n ≡ n
  whole n h = omega arith

  -- What lies before the end of the area before stays as it is.
  layout_loop_frame :
      (areas : List (Area P)) (last : ℕ) (f : Flash) {f' : Flash}
      → Fits areas last
      → layout_loop sys areas last f ≡ laid f'
      → (i : ℕ) → i < last
      → f'.byte i ≡ f.byte i
  unfolding layout_loop
  layout_loop_frame [] last f fits e i h = ap (λ (g : Flash). g.byte i) (sym (laid_inj e))
  layout_loop_frame (a ∷ areas) last f fits e i h =
      let t = layout_loop-IsTurn a areas last f e in
      layout_loop_frame areas (offset_or a.offset last + a.size) t.between fits.1
        (rw (whole _ fits.0) at t.rest) i (omega (arith, t.above))
      ∙ t.area.1 i (omega (arith, t.above))

  layout_loop-Holds :
      (areas : List (Area P)) (last : ℕ) (f : Flash) {f' : Flash}
      → Fits areas last
      → layout_loop sys areas last f ≡ laid f'
      → Holds areas last f'
  layout_loop-Holds [] last f fits e = tt
  layout_loop-Holds (a ∷ areas) last f fits e =
      let t = layout_loop-IsTurn a areas last f e in
      let end = offset_or a.offset last + a.size in
      let rest = rw (whole _ fits.0) at t.rest in
      (
        t.above,
        (λ i h.
            layout_loop_frame areas end t.between fits.1 rest (offset_or a.offset last + i)
              (omega arith)
            ∙ t.area.0 i h),
        layout_loop-Holds areas end t.between fits.1 rest,
      )

-- When a flash image has been laid out, and no area ends beyond 64 bits, every area is in it: at its
-- own offset or at the end of the area before, never before that end, with the bytes of its file
-- first and 0xff in the rest of its size; no later area changes it.
pub layout_flash-Holds :
    {P : Type 0} (sys : System P) (areas : List (Area P)) {f : Flash}
    → Fits areas 0
    → layout_flash sys areas ≡ laid f
    → Holds sys areas 0 f
unfolding layout_flash
layout_flash-Holds sys areas fits e = layout_loop-Holds sys areas 0 created fits e
