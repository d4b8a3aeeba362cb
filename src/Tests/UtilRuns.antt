-- ===== src/Tests/UtilRuns.antt =====
-- Rounding of concrete addresses.
use upstream_oreboot.Prelude.{ℕ, ◌+◌, ◌-◌, ◌%◌, ◌^◌, ◌≤◌, ◌<◌, ◌≡◌, ◌⊎◌, refl, arith, none, some}
use upstream_oreboot.Util.{round_up_4k, round_down_4k, round_4k_lem}

round_4k_lem_example :
    (((2 ^ 64 - 4096 < 4097) × (round_up_4k 4097 ≡ none))
      ⊎ ((up : ℕ) × (round_up_4k 4097 ≡ some up)
          × (up % 4096 ≡ 0)
          × (4097 ≤ up)
          × (up < 4097 + 4096)
          × (up < 2 ^ 64)))
    × (round_down_4k 4097 % 4096 ≡ 0)
    × (round_down_4k 4097 ≤ 4097)
    × (4097 < round_down_4k 4097 + 4096)
round_4k_lem_example = round_4k_lem 4097 (omega arith)

-- The cases of the source's tests.
round_up_small : round_up_4k 4095 ≡ some 4096
unfolding round_up_4k
round_up_small = refl

round_up_big : round_up_4k (2 ^ 64 - 1 - 4096) ≡ some (2 ^ 64 - 4096)
unfolding round_up_4k
round_up_big = refl

round_up_panics : round_up_4k (2 ^ 64 - 1) ≡ none
unfolding round_up_4k
round_up_panics = refl
