-- ===== src/Tools/Bin2Vmem.antt =====
-- The conversion of a binary to Verilog's VMEM format, tools/bin2vmem/src/main.rs.
use upstream_oreboot.Prelude.{ℕ, zero, suc, ◌+◌, ◌*◌, ◌^◌, ◌<◌, ◌≡◌, refl, ap, ◌∙◌, arith}
use upstream_oreboot.Prelude.{
  ◌⊎◌, inl, inr, List, [], ◌∷◌, ◌==◌, if◌then◌else◌, if_ind, get_or, length, u32,
}

-- What is written: the comment, `@{pos:08X} {val:08X}`, ` {val:08X}` and the end of a line.
pub data Piece : Type 0 where
  header newline : Piece
  at_word : ℕ → ℕ → Piece
  next_word : ℕ → Piece

-- What one call of `read` yields: one to four bytes; the end of the input is the end of the list.
pub record Chunk : Type 0 where
  pub first : ℕ
  pub others : List ℕ

-- `LittleEndian::read_u32` of the buffer, which is zeroed before each read.
abbrev pub value_of : Chunk → ℕ
value_of c =
    c.first
    + 256 * get_or c.others 0 0
    + 65536 * get_or c.others 1 0
    + 16777216 * get_or c.others 2 0

abbrev pub piece : ℕ → ℕ → ℕ → Piece
piece pos zero val = Piece.at_word pos val
piece pos (suc n) val = Piece.next_word val

-- The pieces and the position at the end.
abbrev pub with_piece : Piece → List Piece × ℕ → List Piece × ℕ
with_piece p (pieces, pos) = (p ∷ pieces, pos)

-- The loops, with `n` words in the line so far.
unfoldable pub words_loop : ℕ → ℕ → ℕ → List Chunk → List Piece × ℕ
words_loop width pos n [] = if n == 0 then ([], pos) else (Piece.newline ∷ [], pos)
words_loop width pos n (chunk ∷ rest) =
    let full = words_loop width (u32 (pos + 1)) 0 rest in
    let more = words_loop width (u32 (pos + 1)) (suc n) rest in
    with_piece (piece pos n (value_of chunk))
      (if suc n == width then with_piece Piece.newline full else more)

-- The options refuse a width of 0. The position wraps around as in a release build.
unfoldable pub do_bin2vmem : ℕ → ℕ → List Chunk → List Piece × ℕ
do_bin2vmem offset width input = with_piece Piece.header (words_loop width offset 0 input)

-- A loader of the format: each word goes to the address behind the last one, or to the one that
-- stands before it.
unfoldable pub load_pieces : ℕ → List Piece → List (ℕ × ℕ)
load_pieces next [] = []
load_pieces next (Piece.header ∷ rest) = load_pieces next rest
load_pieces next (Piece.newline ∷ rest) = load_pieces next rest
load_pieces next (Piece.at_word pos val ∷ rest) = (pos, val) ∷ load_pieces (u32 (pos + 1)) rest
load_pieces next (Piece.next_word val ∷ rest) = (next, val) ∷ load_pieces (u32 (next + 1)) rest

-- Word `i` of the input, counted from `i` on, with the address `offset + i`.
abbrev pub placed : ℕ → ℕ → List Chunk → List (ℕ × ℕ)
placed offset i [] = []
placed offset i (chunk ∷ rest) = (u32 (offset + i), value_of chunk) ∷ placed offset (suc i) rest

load-first :
    (pos next val n : ℕ) (rest : List Piece)
    → (n ≡ 0) ⊎ (next ≡ pos)
    → load_pieces next (piece pos n val ∷ rest) ≡ (pos, val) ∷ load_pieces (u32 (pos + 1)) rest
unfolding load_pieces
load-first pos next val zero rest known = refl
load-first pos next val (suc n) rest (inl e) = absurd (omega arith)
load-first pos next val (suc n) rest (inr e) =
    ap (λ (a : ℕ). (a, val) ∷ load_pieces (u32 (a + 1)) rest) e

-- The pieces of a loop that starts at word `i` are loaded in place, and it ends behind the last.
abbrev Right : ℕ → ℕ → ℕ → List Chunk → List Piece × ℕ → Type 0
Right next offset i input r =
    (load_pieces next r.0 ≡ placed offset i input) × (r.1 ≡ u32 (offset + i + length input))

-- One word before a loop that is right.
word-Right :
    (offset i pos n next : ℕ) (chunk : Chunk) (rest : List Chunk) (r : List Piece × ℕ)
    → pos ≡ u32 (offset + i)
    → (n ≡ 0) ⊎ (next ≡ pos)
    → Right (u32 (pos + 1)) offset (suc i) rest r
    → Right next offset i (chunk ∷ rest) (with_piece (piece pos n (value_of chunk)) r)
word-Right offset i pos n next chunk rest r at known later = (
  load-first pos next (value_of chunk) n r.0 known
      ∙ ap (λ (t : List (ℕ × ℕ)). (pos, value_of chunk) ∷ t) later.0
      ∙ ap (λ (a : ℕ). (a, value_of chunk) ∷ placed offset (suc i) rest) at,
  later.1 ∙ omega arith,
)

words_loop-Right :
    (width offset i pos n next : ℕ) (input : List Chunk)
    → pos ≡ u32 (offset + i)
    → (n ≡ 0) ⊎ (next ≡ pos)
    → Right next offset i input (words_loop width pos n input)
unfolding words_loop load_pieces
words_loop-Right width offset i pos n next [] at known =
    let count : pos ≡ u32 (offset + i + 0) = omega arith in
    if_ind (Right next offset i []) (n == 0) (refl, count) (refl, count)
words_loop-Right width offset i pos n next (chunk ∷ rest) at known =
    let after : u32 (pos + 1) ≡ u32 (offset + suc i) = omega arith in
    let full =
      words_loop-Right width offset (suc i) (u32 (pos + 1)) 0 (u32 (pos + 1)) rest after
        (inl refl) in
    let more =
      words_loop-Right width offset (suc i) (u32 (pos + 1)) (suc n) (u32 (pos + 1)) rest after
        (inr refl) in
    word-Right offset i pos n next chunk rest
      (if suc n == width
        then with_piece Piece.newline (words_loop width (u32 (pos + 1)) 0 rest)
        else words_loop width (u32 (pos + 1)) (suc n) rest)
      at known (if_ind (Right (u32 (pos + 1)) offset (suc i) rest) (suc n == width) full more)

-- For a width of at least one word, and an input that ends below the position 2 ^ 32, a loader of
-- the output places word `i` of the input at the address `offset + i`, in order; the position that
-- is returned is the offset plus the number of words.
pub do_bin2vmem_lem :
    (offset width next : ℕ) (input : List Chunk)
    → offset + length input < 2 ^ 32
    → 0 < width
    → (load_pieces next (do_bin2vmem offset width input).0 ≡ placed offset 0 input)
      × ((do_bin2vmem offset width input).1 ≡ offset + length input)
unfolding do_bin2vmem load_pieces
do_bin2vmem_lem offset width next input fits some_word =
    let body = words_loop-Right width offset 0 offset 0 next input (omega arith) (inl refl) in
    (body.0, body.1 ∙ omega arith)
