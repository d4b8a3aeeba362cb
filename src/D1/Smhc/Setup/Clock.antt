-- ===== src/D1/Smhc/Setup/Clock.antt =====
-- The search for the clock's divisors finds the closest frequency.
use upstream_oreboot.Prelude.{
  ℕ, zero, suc, ◌+◌, ◌-◌, ◌*◌, ◌/◌, ◌≤◌, ◌<◌, ◌≡◌, refl, sym, ap, arith, ◌⊎◌, inl, inr, if_ind,
}
use mathlib.Core.Path.{subst}
use upstream_oreboot.Prelude.{true, List, [], ◌∷◌, ltb, if◌then◌else◌}
use upstream_oreboot.D1.Smhc.Setup.{
  Best, distance, dividers, dividers_from, try_divider, search_dividers, best_dividers, is_factor_n,
}

abbrev Every : (ℕ × ℕ → Type 0) → List (ℕ × ℕ) → Type 0
Every P [] = Unit
Every P (d ∷ rest) = P d × Every P rest

-- Divisors that the clock has: n is one of four, and m - 1 fits a field of four bits.
pub record IsDivisor (n m : ℕ) : Type 0 where
  pub factor : is_factor_n n ≡ true
  pub low : 0 < m
  pub high : m < 17

-- The best divisors are either those of the start, or come from the list with their distance.
abbrev Chosen : ℕ → ℕ → Best → Best → Type 0
Chosen psi freq start best =
    (best ≡ start)
    ⊎ (IsDivisor best.best_n best.best_m
        × (best.err ≡ distance psi freq (best.best_n, best.best_m)))

module _ (psi freq : ℕ) where
  try_divider-le_start : (d : ℕ × ℕ) (best : Best) → (try_divider psi freq d best).err ≤ best.err
  try_divider-le_start d best = less (distance psi freq d)
    where
      less :
          (e : ℕ)
          → (if ltb e best.err then record { err = e; best_n = d.0; best_m = d.1 } else best).err
            ≤ best.err
      less e = ground arith

  try_divider-le :
      (d : ℕ × ℕ) (best : Best) → (try_divider psi freq d best).err ≤ distance psi freq d
  try_divider-le d best = less (distance psi freq d)
    where
      less :
          (e : ℕ)
          → (if ltb e best.err then record { err = e; best_n = d.0; best_m = d.1 } else best).err
            ≤ e
      less e = ground arith

  try_divider-Chosen :
      (d : ℕ × ℕ) (start best : Best)
      → IsDivisor d.0 d.1
      → Chosen psi freq start best
      → Chosen psi freq start (try_divider psi freq d best)
  try_divider-Chosen d start best factor before =
      if_ind (Chosen psi freq start) (ltb (distance psi freq d) best.err) (inr (factor, refl))
        before

  search-le_start :
      (ds : List (ℕ × ℕ)) (best : Best) → (search_dividers psi freq ds best).err ≤ best.err
  unfolding search_dividers
  search-le_start [] best = omega arith
  search-le_start (d ∷ rest) best =
      omega (arith, search-le_start rest (try_divider psi freq d best), try_divider-le_start d best)

  search-le :
      (ds : List (ℕ × ℕ)) (best : Best)
      → Every (λ d. (search_dividers psi freq ds best).err ≤ distance psi freq d) ds
  unfolding search_dividers
  search-le [] best = tt
  search-le (d ∷ rest) best = (
    omega (arith, search-le_start rest (try_divider psi freq d best), try_divider-le d best),
    search-le rest (try_divider psi freq d best),
  )

  search-Chosen :
      (ds : List (ℕ × ℕ)) (start best : Best)
      → Every (λ d. IsDivisor d.0 d.1) ds
      → Chosen psi freq start best
      → Chosen psi freq start (search_dividers psi freq ds best)
  unfolding search_dividers
  search-Chosen [] start best factors before = before
  search-Chosen (d ∷ rest) start best factors before =
      search-Chosen rest start (try_divider psi freq d best) factors.1
        (try_divider-Chosen d start best factors.0 before)

factors_from :
    (m count : ℕ) → 0 < m → m + count ≤ 17 → Every (λ d. IsDivisor d.0 d.1) (dividers_from m count)
factors_from m zero low high = tt
factors_from m (suc count) low high =
    let fits : m < 17 = omega arith in
    (
      record { factor = refl; low = low; high = fits },
      (
        record { factor = refl; low = low; high = fits },
        (
          record { factor = refl; low = low; high = fits },
          (
            record { factor = refl; low = low; high = fits },
            factors_from (suc m) count (omega arith) (omega arith),
          ),
        ),
      ),
    )

is_factor_n-cases : (n : ℕ) → is_factor_n n ≡ true → (n ≡ 1) ⊎ ((n ≡ 2) ⊎ ((n ≡ 4) ⊎ (n ≡ 8)))
is_factor_n-cases n h = ground arith

-- What holds of every pair of divisors holds of each.
Every-at :
    (P : ℕ × ℕ → Type 0) (from count k n : ℕ)
    → Every P (dividers_from from count)
    → k < count
    → is_factor_n n ≡ true
    → P (n, from + k)
Every-at P from zero k n all h factor = absurd (elim h [ ])
Every-at P from (suc count) zero n all h factor =
    let here : from + 0 ≡ from = omega arith in
    rw here (elim (is_factor_n-cases n factor) [
      | inl e ↦ subst (λ x. P (x, from)) (sym e) all.0
      | inr (inl e) ↦ subst (λ x. P (x, from)) (sym e) all.1.0
      | inr (inr (inl e)) ↦ subst (λ x. P (x, from)) (sym e) all.1.1.0
      | inr (inr (inr e)) ↦ subst (λ x. P (x, from)) (sym e) all.1.1.1.0
    ])
Every-at P from (suc count) (suc k) n all h factor =
    let shift : suc from + k ≡ from + suc k = omega arith in
    subst (λ (x : ℕ). P (n, x)) shift
      (Every-at P (suc from) count k n all.1.1.1.1 (omega arith) factor)

distance_one : (psi freq : ℕ) → 0 < freq → freq < 2 * psi → distance psi freq (1, 1) < psi
distance_one psi freq pos small =
    let same : psi / 1 / 1 ≡ psi = omega arith in rw same (ground arith)

-- For a frequency above 0 and below twice that of the PLL, the search ends with divisors that the
-- clock has, n of 1, 2, 4, 8 and m of 1 to 16, and no such pair comes closer to the frequency.
pub best_dividers_closest :
    (psi freq : ℕ)
    → 0 < freq
    → freq < 2 * psi
    → IsDivisor (best_dividers psi freq).best_n (best_dividers psi freq).best_m
      × ((n m : ℕ)
          → IsDivisor n m
          → distance psi freq ((best_dividers psi freq).best_n, (best_dividers psi freq).best_m)
            ≤ distance psi freq (n, m))
best_dividers_closest psi freq pos small = chosen_here (
    search-Chosen psi freq dividers start start (factors_from 1 16 (omega arith) (omega arith))
      (inl refl))
  where
    start : Best
    start = record { err = psi; best_n = 0; best_m = 0 }

    final : Best
    final = best_dividers psi freq

    all : Every (λ d. final.err ≤ distance psi freq d) dividers
    all = search-le psi freq dividers start

    below : final.err < psi
    below = omega (arith, all.0, distance_one psi freq pos small)

    least : (n m : ℕ) → is_factor_n n ≡ true → 0 < m → m < 17 → final.err ≤ distance psi freq (n, m)
    least n m factor low high =
        let back : 1 + (m - 1) ≡ m = omega arith in
        subst (λ (x : ℕ). final.err ≤ distance psi freq (n, x)) back
          (Every-at (λ d. final.err ≤ distance psi freq d) 1 16 (m - 1) n all (omega arith) factor)

    chosen_here :
        Chosen psi freq start final
        → IsDivisor final.best_n final.best_m
          × ((n m : ℕ)
              → IsDivisor n m
              → distance psi freq (final.best_n, final.best_m) ≤ distance psi freq (n, m))
    chosen_here (inl same) =
        let e : final.err ≡ psi = ap (λ (b : Best). b.err) same in absurd (omega (arith, below, e))
    chosen_here (inr (factor, e)) = (
      factor,
      λ n m d. subst (λ (x : ℕ). x ≤ distance psi freq (n, m)) e (least n m d.factor d.low d.high),
    )
