-- ===== src/Nezha/Dram/Mirrors.antt =====
-- What the scan of the address lines finds, src/mainboard/sunxi/nezha/bt0/src/mctl.rs.
use upstream_oreboot.Prelude.{
  ℕ, zero, suc, ◌+◌, ◌*◌, ◌^◌, ◌<◌, ◌≤◌, ◌≡◌, ◌∙◌, refl, sym, ap, arith, Bool, true, false,
}
use upstream_oreboot.Prelude.{eqb_refl, differing, Bool-cases, inl, inr}
use native.Mathlib.Decide.{dec_lt, ℕ_discrete}
use upstream_oreboot.Nezha.Dram.Bus.{Bus, Board, Step, done}
use upstream_oreboot.Nezha.Dram.Registers.{ram_base}
use upstream_oreboot.Nezha.Dram.Scan.{
  pattern_word, mirror_loop, scan_loop, scan_for_addr_wrap, scan_for_addr_wrap2,
}

module _ {S : Type 0} (bus : Bus S) where
  abbrev pub word_at : ℕ → ℕ → S → ℕ
  word_at offset j w = bus.value (ram_base + j * 4 + offset) w

  -- The 64 words at an offset are the test pattern.
  abbrev pub Mirrors : ℕ → S → Type 0
  Mirrors offset w = (j : ℕ) → j < 64 → word_at offset j w ≡ pattern_word j

  -- A read of the memory changes no word of it.
  abbrev pub ReadsKeep : Type 0
  ReadsKeep =
      (a a' : ℕ) (w : S)
      → ram_base ≤ a
      → ram_base ≤ a'
      → bus.value a' (bus.after_read a w) ≡ bus.value a' w

  -- The answer of a scan of `count` lines from `first` on: the first mirrored line, or `otherwise`
  -- if none is.
  pub data IsFirst (low otherwise count first : ℕ) (w : S) (line : ℕ) : Type 0 where
    found :
        first ≤ line
        → line < first + count
        → Mirrors (2 ^ (line + low)) w
        → ((k : ℕ) → first ≤ k → k < line → ¬ Mirrors (2 ^ (k + low)) w)
        → IsFirst low otherwise count first w line
    not_found :
        line ≡ otherwise
        → ((k : ℕ) → first ≤ k → k < first + count → ¬ Mirrors (2 ^ (k + low)) w)
        → IsFirst low otherwise count first w line

  -- The words from `j` on, so many.
  abbrev MirrorsFrom : ℕ → ℕ → ℕ → S → Type 0
  MirrorsFrom offset count j w =
      (k : ℕ) → j ≤ k → k < j + count → word_at offset k w ≡ pattern_word k

  -- The same memory.
  abbrev Same : S → S → Type 0
  Same w w' = (a : ℕ) → ram_base ≤ a → bus.value a w' ≡ bus.value a w

  -- The answer of the comparison with the pattern, and the memory after it.
  record IsCompared (offset count j : ℕ) (b : Board S) : Type 0 where
    answer : Bool
    after : Board S
    runs : mirror_loop bus offset count j b ≡ done answer after
    same : Same b.world after.world
    agrees : answer ≡ true → MirrorsFrom offset count j b.world
    differs : answer ≡ false → ¬ MirrorsFrom offset count j b.world

  module _ (keeps : ReadsKeep) where
    mirror_loop-IsCompared : (offset count j : ℕ) (b : Board S) → IsCompared offset count j b
    unfolding mirror_loop
    mirror_loop-IsCompared offset zero j b = record {
      answer = true;
      after = b;
      runs = refl;
      same = λ a fits. refl;
      agrees = λ _ k p q. absurd (omega arith);
      differs = λ e. cc;
    }
    mirror_loop-IsCompared offset (suc count) j b =
        let b1 = record b { world = bus.after_read (ram_base + j * 4 + offset) b.world } in
        let rest = mirror_loop-IsCompared offset count (suc j) b1 in
        let kept : Same b.world b1.world = λ a fits. keeps _ a b.world (omega arith) fits in
        elim (ℕ_discrete (word_at offset j b.world) (pattern_word j)) [
          | yes e ↦ record {
            answer = rest.answer;
            after = rest.after;
            runs = rw (e, eqb_refl) rest.runs;
            same = λ a fits. rest.same a fits ∙ kept a fits;
            agrees = λ t k p q. elim (dec_lt j k) [
              | yes later ↦ sym (kept _ (omega arith)) ∙ rest.agrees t k later (omega arith)
              | no now ↦ let same_word : k ≡ j = omega arith in rw same_word e
            ];
            differs = λ f all.
                rest.differs f (λ k p q. kept _ (omega arith) ∙ all k (omega arith) (omega arith));
          }
          | no ne ↦ record {
            answer = false;
            after = b1;
            runs = ap (λ (m : Step S Bool). m b1) (differing _ _ _ _ ne);
            same = kept;
            agrees = λ t. cc;
            differs = λ f all. ne (all j (omega arith) (omega arith));
          }
        ]

    -- The memory may be read on: the answer is about what it was.
    Mirrors-Same : (offset : ℕ) (w w' : S) → Same w w' → Mirrors offset w → Mirrors offset w'
    Mirrors-Same offset w w' same all j p = same _ (omega arith) ∙ all j p

    earlier :
        (low first count i : ℕ) (w w' : S)
        → Same w w'
        → ¬ Mirrors (2 ^ (i + low)) w
        → ((k : ℕ) → suc i ≤ k → k < count → ¬ Mirrors (2 ^ (k + low)) w')
        → (k : ℕ) → i ≤ k
        → k < count
        → ¬ Mirrors (2 ^ (k + low)) w
    earlier low first count i w w' same ne rest k p q all = elim (dec_lt i k) [
      | yes later ↦ rest k later q (Mirrors-Same (2 ^ (k + low)) w w' same all)
      | no now ↦ let e : k ≡ i = omega arith in ne ((λ (j : ℕ) p. rw (← e) (all j p)))
    ]

    IsFirst-suc :
        (low otherwise count i line : ℕ) (w w' : S)
        → Same w w'
        → ¬ Mirrors (2 ^ (i + low)) w
        → IsFirst low otherwise count (suc i) w' line
        → IsFirst low otherwise (suc count) i w line
    IsFirst-suc low otherwise count i line w w' same ne (found p q all before) =
        found (omega arith) (omega arith) (λ j less. sym (same _ (omega arith)) ∙ all j less)
          (earlier low i line i w w' same ne before)
    IsFirst-suc low otherwise count i line w w' same ne (not_found e before) =
        not_found e (λ k p q. earlier low i (suc i + count) i w w' same ne before k p (omega arith))

    -- A scan that runs, with its answer.
    abbrev Answered : ℕ → ℕ → ℕ → ℕ → Board S → Type 0
    Answered low otherwise count i b =
        (line : ℕ) × (b' : Board S) × (scan_loop bus low otherwise count i b ≡ done line b')
        × IsFirst low otherwise count i b.world line

    scan_loop-Answered :
        (low otherwise count i : ℕ) (b : Board S) → Answered low otherwise count i b
    unfolding scan_loop
    scan_loop-Answered low otherwise zero i b =
        (otherwise, b, refl, not_found refl (λ k p q. absurd (omega arith)))
    scan_loop-Answered low otherwise (suc count) i b =
        let c = mirror_loop-IsCompared (2 ^ (i + low)) 64 0 b in
        elim (Bool-cases c.answer) [
          | inl yes_mirror ↦ (
            i,
            c.after,
            rw (c.runs, yes_mirror) refl,
            found (omega arith) (omega arith) (λ j p. c.agrees yes_mirror j (omega arith) p)
                (λ k p q. absurd (omega arith)),
          )
          | inr no_mirror ↦
              let rest = scan_loop-Answered low otherwise count (suc i) c.after in
              (
                rest.0,
                rest.1,
                rw (c.runs, no_mirror) rest.2,
                IsFirst-suc low otherwise count i rest.0 b.world c.after.world c.same
                    (λ all. c.differs no_mirror (λ k p q. all k q)) rest.3,
              )
        ]

    -- On a memory whose reads change nothing, the scan for the rows ends, and answers the first of
    -- the lines 11 to 16 at whose address, 2 ^ (line + 11) above the start, all 64 words of the
    -- pattern are seen again, or 16 if there is none; the scan for the columns ends too, and answers
    -- the first of the lines 9 to 14 with the pattern at 2 ^ line above the start, or 13 if there is
    -- none.
    pub scan_for_addr_wrap_first :
        (b : Board S)
        → ((rows : ℕ) × (b' : Board S) × (scan_for_addr_wrap bus b ≡ done rows b')
            × IsFirst 11 16 6 11 b.world rows)
          × ((columns : ℕ) × (b' : Board S) × (scan_for_addr_wrap2 bus b ≡ done columns b')
              × IsFirst 0 13 6 9 b.world columns)
    unfolding scan_for_addr_wrap scan_for_addr_wrap2
    scan_for_addr_wrap_first b = (scan_loop-Answered 11 16 6 11 b, scan_loop-Answered 0 13 6 9 b)
