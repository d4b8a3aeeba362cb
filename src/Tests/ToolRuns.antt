-- ===== src/Tests/ToolRuns.antt =====
-- The completion of a small image.
use upstream_oreboot.Prelude.{ℕ, ◌+◌, ◌≡◌, refl, arith, some, List, [], ◌∷◌, ◌==◌, if◌then◌else◌}
use upstream_oreboot.Tools.Bin2Vmem.{
  Piece, Chunk, do_bin2vmem, words_loop, load_pieces, placed, do_bin2vmem_lem,
}
use upstream_oreboot.Tools.Nezha.{File, Finished, xtask_finialize_d1_flash}
use upstream_oreboot.Tools.Nezha.Image.{IsBytes}
use upstream_oreboot.Tools.Nezha.Bootable.{IsBootable, xtask_finialize_d1_flash-IsBootable}

-- 0x70 bytes with the stamp.
abbrev small_byte : ℕ → ℕ
small_byte i =
    if i == 12
    then 0x39
    else if i == 13
    then 0x6c
    else if i == 14
    then 0x0a
    else if i == 15
    then 0x5f
    else 0

abbrev small_file : File
small_file = record { len = 0x70; byte = small_byte }

small_file-IsBytes : IsBytes small_file
small_file-IsBytes i = ground arith

xtask_finialize_d1_flash-IsBootable_example :
    (done : Finished) × (xtask_finialize_d1_flash small_file 0x8000 ≡ some done)
    × (done.errors ≡ [])
    × IsBootable small_file 0x8000 done.file
xtask_finialize_d1_flash-IsBootable_example =
    xtask_finialize_d1_flash-IsBootable small_file 0x8000 small_file-IsBytes (omega arith)
      (omega arith) (omega arith) refl

-- Three words, the last one of a single byte, in lines of two.
abbrev three_chunks : List Chunk
three_chunks =
    record { first = 1; others = 2 ∷ 3 ∷ 4 ∷ [] }
    ∷ record { first = 5; others = 0 ∷ 0 ∷ 0 ∷ [] }
    ∷ record { first = 7; others = [] }
    ∷ []

do_bin2vmem_lem_example :
    (load_pieces 0 (do_bin2vmem 16 2 three_chunks).0 ≡ placed 16 0 three_chunks)
    × ((do_bin2vmem 16 2 three_chunks).1 ≡ 16 + 3)
do_bin2vmem_lem_example = do_bin2vmem_lem 16 2 0 three_chunks (omega arith) (omega arith)

pieces_of_three :
    (do_bin2vmem 16 2 three_chunks).0
    ≡ Piece.header
      ∷ Piece.at_word 16 0x04030201
      ∷ Piece.next_word 5
      ∷ Piece.newline
      ∷ Piece.at_word 18 7
      ∷ Piece.newline
      ∷ []
unfolding do_bin2vmem words_loop
pieces_of_three = refl
