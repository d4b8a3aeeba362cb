-- ===== src/Layout.antt =====
-- The layout of a flash image, src/lib/layoutflash/src/unix.rs and areas.rs.
pub mod Image
use upstream_oreboot.Prelude.{
  ℕ, zero, suc, ◌+◌, ◌-◌, List, [], ◌∷◌, Option, none, some, Bool, ltb, leb, ◌&&◌, if◌then◌else◌,
  u64, length, get_or, replicate,
}
use Prim.Native.Nat.{max}

-- `Area`; the name stands in messages only.
pub record Area (P : Type 0) : Type 0 where
  pub offset : Option ℕ
  pub size : ℕ
  pub file : Option P

-- The file that is written: its length, and its bytes.
pub record Flash : Type 0 where
  pub len : ℕ
  pub byte : ℕ → ℕ

abbrev pub created : Flash
created = record { len = 0; byte = λ i. 0 }

-- `seek` to an offset, and `write_all`.
abbrev pub write_at : ℕ → List ℕ → Flash → Flash
write_at offset content f = record {
  len = max f.len (offset + length content);
  byte = λ i.
      if leb offset i && ltb i (offset + length content)
      then get_or content (i - offset) 0
      else f.byte i;
}

pub data Refusal : Type 0 where
  overlapping unreadable too_big : Refusal

pub data Laid : Type 0 where
  laid : Flash → Laid
  refused : Refusal → Laid

abbrev pub and_then : Laid → (Flash → Laid) → Laid
and_then (laid f) k = k f
and_then (refused e) k = refused e

-- What the file system and the environment give: a path with the values of the variables in it,
-- whether a variable is left as the whole of a path, and the bytes of a file.
pub record System (P : Type 0) : Type 0 where
  pub expand : P → P
  pub unused : P → Bool
  pub read : P → Option (List ℕ)

abbrev pub offset_or : Option ℕ → ℕ → ℕ
offset_or none last = last
offset_or (some x) last = x

module _ {P : Type 0} (sys : System P) where
  -- The file of an area at an offset.
  abbrev pub write_content : ℕ → ℕ → Option (List ℕ) → Flash → Laid
  write_content offset size none f = refused unreadable
  write_content offset size (some content) f =
      if ltb size (length content) then refused too_big else laid (write_at offset content f)

  abbrev pub write_file : ℕ → ℕ → Option P → Flash → Laid
  write_file offset size none f = laid f
  write_file offset size (some path) f =
      if sys.unused (sys.expand path)
      then laid f
      else write_content offset size (sys.read (sys.expand path)) f

  -- `for a in areas`, with the end of the area before.
  unfoldable pub layout_loop : List (Area P) → ℕ → Flash → Laid
  layout_loop [] last_area_end f = laid f
  layout_loop (a ∷ areas) last_area_end f =
      let offset = offset_or a.offset last_area_end in
      let rest = layout_loop areas (u64 (offset + a.size)) in
      if ltb offset last_area_end
      then refused overlapping
      else and_then (write_file offset a.size a.file (write_at offset (replicate a.size 0xff) f))
          rest

  unfoldable pub layout_flash : List (Area P) → Laid
  unfolding layout_loop
  layout_flash areas = layout_loop areas 0 created
