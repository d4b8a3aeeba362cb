-- ===== src/Tests/LayoutRuns.antt =====
-- A small flash image.
use upstream_oreboot.Prelude.{ℕ, ◌≡◌, refl, arith, List, [], ◌∷◌, none, some, false}
use upstream_oreboot.Layout.{Area, Flash, System, created, write_at, laid, layout_flash}
use upstream_oreboot.Layout.Image.{Holds, layout_flash-Holds}

abbrev one_file : System ℕ
one_file = record { expand = λ p. p; unused = λ p. false; read = λ p. some (1 ∷ 2 ∷ []) }

-- Four bytes with a file of two, and two bytes at 8.
abbrev two_areas : List (Area ℕ)
two_areas =
    record { offset = none; size = 4; file = some 0 }
    ∷ record { offset = some 8; size = 2; file = none }
    ∷ []

abbrev small_image : Flash
small_image =
    write_at 8 (0xff ∷ 0xff ∷ [])
      (write_at 0 (1 ∷ 2 ∷ []) (write_at 0 (0xff ∷ 0xff ∷ 0xff ∷ 0xff ∷ []) created))

small_layout : layout_flash one_file two_areas ≡ laid small_image
unfolding layout_flash
small_layout = refl

layout_flash-Holds_example : Holds one_file two_areas 0 small_image
layout_flash-Holds_example =
    layout_flash-Holds one_file two_areas (omega arith, (omega arith, tt)) small_layout
