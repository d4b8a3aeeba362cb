-- ===== src/Tests/LogRuns.antt =====
-- The logger at concrete texts and numbers.
use upstream_oreboot.Prelude.{◌≡◌, refl, arith, [], ◌∷◌}
use upstream_oreboot.Logger.{IsPaired, write_str, without_returns, without_returns-write_str}

-- Two letters and a newline.
without_returns-write_str_example :
    (without_returns (write_str (104 ∷ 105 ∷ 10 ∷ [])) ≡ 104 ∷ 105 ∷ 10 ∷ [])
    × IsPaired 0 (write_str (104 ∷ 105 ∷ 10 ∷ []))
without_returns-write_str_example =
    without_returns-write_str (104 ∷ 105 ∷ 10 ∷ []) (omega arith, (omega arith, (omega arith, tt)))

newline : write_str (10 ∷ []) ≡ 13 ∷ 10 ∷ []
unfolding write_str
newline = refl
