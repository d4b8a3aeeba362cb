-- ===== src/Prelude/Bits.antt =====
-- `&` and `|` with masks and fields, as arithmetic at every width.
use Prim.Native.Nat.{max, digits, bitwise, bit_and-bitwise, bit_or-bitwise}
use Prim.Native.Nat.{ℕ, zero, suc, ◌+◌, ◌-◌, ◌*◌, ◌/◌, ◌%◌, ◌^◌, ◌≤◌, ◌<◌, min, bit_and, bit_or}
use mathlib.Core.Path.{◌≡◌, refl, ap, ◌∙◌}
use native.Mathlib.Decide.{dec_le}
use native.Mathlib.Nat.{
  pow-succ', div-div-eq-div-mul, le_refl, pow-suc, pow-zero, mul-one, add-zero, one-le-pow,
  mul-div_cancel, mul-mod_left, div-eq_of_lt, mod-eq_of_lt,
}
use native.Mathlib.Omega.{arith}

-- `digits` recurs on fuel. One round more than is needed changes nothing.
digits_more :
    (zs : ℕ → ℕ) (op : ℕ → ℕ → ℕ) (n a b : ℕ)
    → a ≤ n
    → digits zs op (suc n) a b ≡ digits zs op n a b
digits_more zs op zero zero b h = refl
digits_more zs op zero (suc a) b h = absurd (omega arith)
digits_more zs op (suc n) zero b h = refl
digits_more zs op (suc n) (suc a) b h =
    ap (λ t. t * 2 + op (suc a % 2) (b % 2)) (digits_more zs op n (suc a / 2) (b / 2) (omega arith))

-- So any fuel from the first number on is as good as that number.
digits_fit :
    (zs : ℕ → ℕ) (op : ℕ → ℕ → ℕ) (n a b : ℕ) → a ≤ n → digits zs op n a b ≡ bitwise zs op a b
digits_fit zs op zero a b h = let e : a ≡ 0 = omega arith in rw e refl
digits_fit zs op (suc n) a b h = elim (dec_le a n) [
  | yes fits ↦ digits_more zs op n a b fits ∙ digits_fit zs op n a b fits
  | no over ↦ let e : a ≡ suc n = omega arith in rw e refl
]

-- The lowest binary digit of a result, and the digits above it.
pub bit_or_step : (x y : ℕ) → bit_or x y ≡ bit_or (x / 2) (y / 2) * 2 + max (x % 2) (y % 2)
bit_or_step zero b = simp bit_or-bitwise (omega arith)
bit_or_step (suc a) b = simp bit_or-bitwise (
    ap (λ t. t * 2 + max (suc a % 2) (b % 2))
      (digits_fit (λ y. y) max a (suc a / 2) (b / 2) (omega arith)))

pub bit_and_step : (x y : ℕ) → bit_and x y ≡ bit_and (x / 2) (y / 2) * 2 + min (x % 2) (y % 2)
bit_and_step zero b = simp bit_and-bitwise (omega arith)
bit_and_step (suc a) b = simp bit_and-bitwise (
    ap (λ t. t * 2 + min (suc a % 2) (b % 2))
      (digits_fit (λ y. 0) min a (suc a / 2) (b / 2) (omega arith)))

zero_below : (n a : ℕ) → a ≤ n → (bit_and a 0 ≡ 0) × (bit_or a 0 ≡ a)
zero_below n zero h = (refl, refl)
zero_below zero (suc a) h = absurd (omega arith)
zero_below (suc n) (suc a) h =
    let ih = zero_below n (suc a / 2) (omega arith) in
    (omega (arith, bit_and_step (suc a) 0, ih.0), omega (arith, bit_or_step (suc a) 0, ih.1))

pub bit_and-zero : (a : ℕ) → bit_and a 0 ≡ 0
bit_and-zero a = (zero_below a a (le_refl a)).0

pub bit_or-zero : (a : ℕ) → bit_or a 0 ≡ a
bit_or-zero a = (zero_below a a (le_refl a)).1

pub bit_and-one : (x : ℕ) → bit_and x 1 ≡ x % 2
bit_and-one x = bit_and_step x 1 ∙ omega (arith, bit_and-zero (x / 2))

pub two_pow : (m k : ℕ) → m * 2 ^ suc k ≡ 2 * (m * 2 ^ k)
two_pow m k = omega (arith, ap (λ (t : ℕ). m * t) (pow-suc 2 k))

and_low_field : (k q r : ℕ) → r < 2 ^ k → bit_and (q * 2 ^ k + r) (2 ^ k - 1) ≡ r
and_low_field zero q r fits = rw bit_and-zero (omega arith)
and_low_field (suc k) q r fits = ground (
  arith,
  bit_and_step (q * 2 ^ suc k + r) (2 ^ suc k - 1),
  two_pow q k,
  pow-suc 2 k,
  and_low_field k q (r / 2) (omega arith),
)

-- A mask of `k` low ones is the remainder by `2 ^ k`.
pub bit_and_mask : (k a : ℕ) → bit_and a (2 ^ k - 1) ≡ a % 2 ^ k
bit_and_mask k a = ground (arith, one-le-pow k 2, and_low_field k (a / 2 ^ k) (a % 2 ^ k))

-- A mask that begins at bit `k` sees the bits from `k` on.
and_high_field :
    (k q r m : ℕ) → r < 2 ^ k → bit_and (q * 2 ^ k + r) (m * 2 ^ k) ≡ bit_and q m * 2 ^ k
and_high_field zero q r m fits =
    let e : r ≡ 0 = omega arith in rw e (simp (pow-zero, mul-one, add-zero))
and_high_field (suc k) q r m fits = ground (
  arith,
  bit_and_step (q * 2 ^ suc k + r) (m * 2 ^ suc k),
  two_pow q k,
  two_pow m k,
  two_pow (bit_and q m) k,
  and_high_field k q (r / 2) m (omega arith),
)

pub bit_and_shift : (k a m : ℕ) → bit_and a (m * 2 ^ k) ≡ bit_and (a / 2 ^ k) m * 2 ^ k
bit_and_shift k a m = ground (arith, one-le-pow k 2, and_high_field k (a / 2 ^ k) (a % 2 ^ k) m)

-- A test of one bit.
pub bit_and_bit : (k a : ℕ) → bit_and a (2 ^ k) ≡ a / 2 ^ k % 2 * 2 ^ k
bit_and_bit k a = ground (arith, bit_and_shift k a 1, bit_and-one (a / 2 ^ k))

comm_below : (n a b : ℕ) → a ≤ n → b ≤ n → (bit_or a b ≡ bit_or b a) × (bit_and a b ≡ bit_and b a)
comm_below zero a b p q =
    let e : a ≡ 0 = omega arith in let f : b ≡ 0 = omega arith in rw (e, f) (refl, refl)
comm_below (suc n) a b p q =
    let ih = comm_below n (a / 2) (b / 2) (omega arith) (omega arith) in
    (
      omega (arith, bit_or_step a b, bit_or_step b a, ih.0),
      omega (arith, bit_and_step a b, bit_and_step b a, ih.1),
    )

pub bit_or_comm : (a b : ℕ) → bit_or a b ≡ bit_or b a
bit_or_comm a b = (comm_below (a + b) a b (omega arith) (omega arith)).0

pub bit_and_comm : (a b : ℕ) → bit_and a b ≡ bit_and b a
bit_and_comm a b = (comm_below (a + b) a b (omega arith) (omega arith)).1

pub bit_or_split :
    (k a b : ℕ)
    → bit_or a b ≡ bit_or (a / 2 ^ k) (b / 2 ^ k) * 2 ^ k + bit_or (a % 2 ^ k) (b % 2 ^ k)
bit_or_split zero a b = ground (arith, bit_or-zero 0)
bit_or_split (suc k) a b = ground (
  arith,
  bit_or_step a b,
  bit_or_step (a % 2 ^ suc k) (b % 2 ^ suc k),
  pow-succ' 2 k,
  div-div-eq-div-mul a 2 (2 ^ k),
  div-div-eq-div-mul b 2 (2 ^ k),
  two_pow (bit_or (a / 2 / 2 ^ k) (b / 2 / 2 ^ k)) k,
  bit_or_split k (a / 2) (b / 2),
)

-- `(q << k) | r` is a sum when `r` fits `k` bits.
pub bit_or_fields : (k q r : ℕ) → r < 2 ^ k → bit_or (q * 2 ^ k) r ≡ q * 2 ^ k + r
bit_or_fields k q r fits =
    let high : q * 2 ^ k / 2 ^ k ≡ q = mul-div_cancel q (one-le-pow k 2 (omega arith)) in
    let low : q * 2 ^ k % 2 ^ k ≡ 0 = mul-mod_left q (2 ^ k) in
    let none_above : r / 2 ^ k ≡ 0 = div-eq_of_lt fits in
    let all_below : r % 2 ^ k ≡ r = mod-eq_of_lt fits in
    bit_or_split k (q * 2 ^ k) r
    ∙ rw (high, low, none_above, all_below, bit_or-zero q, bit_or_comm 0 r, bit_or-zero r) refl

le_below : (n a b : ℕ) → a ≤ n → (bit_and a b ≤ a) × (a ≤ bit_or a b) × (bit_or a b ≤ a + b)
le_below zero a b p =
    let e : a ≡ 0 = omega arith in
    rw e (omega (arith, bit_and_comm 0 b, bit_and-zero b, bit_or_comm 0 b, bit_or-zero b))
le_below (suc n) a b p =
    let ih = le_below n (a / 2) (b / 2) (omega arith) in
    omega (arith, bit_and_step a b, bit_or_step a b, ih)

pub bit_and-le : (a b : ℕ) → bit_and a b ≤ a
bit_and-le a b = (le_below a a b (le_refl a)).0

pub bit_or-le : (a b : ℕ) → bit_or a b ≤ a + b
bit_or-le a b = (le_below a a b (le_refl a)).2

pub le-bit_or : (a b : ℕ) → a ≤ bit_or a b
le-bit_or a b = (le_below a a b (le_refl a)).1

-- Bit `k` of a disjunction.
pub bit_of_bit_or : (k a b : ℕ) → bit_or a b / 2 ^ k % 2 ≡ max (a / 2 ^ k % 2) (b / 2 ^ k % 2)
bit_of_bit_or zero a b = ground (arith, bit_or_step a b)
bit_of_bit_or (suc k) a b = ground (
  arith,
  bit_or_step a b,
  pow-succ' 2 k,
  div-div-eq-div-mul a 2 (2 ^ k),
  div-div-eq-div-mul b 2 (2 ^ k),
  div-div-eq-div-mul (bit_or a b) 2 (2 ^ k),
  bit_of_bit_or k (a / 2) (b / 2),
)

-- A mask in two parts, at bit `k`.
pub bit_and_split :
    (k a b : ℕ)
    → bit_and a b ≡ bit_and (a / 2 ^ k) (b / 2 ^ k) * 2 ^ k + bit_and (a % 2 ^ k) (b % 2 ^ k)
bit_and_split zero a b = ground (arith, bit_and-zero 0)
bit_and_split (suc k) a b = ground (
  arith,
  bit_and_step a b,
  bit_and_step (a % 2 ^ suc k) (b % 2 ^ suc k),
  pow-succ' 2 k,
  div-div-eq-div-mul a 2 (2 ^ k),
  div-div-eq-div-mul b 2 (2 ^ k),
  two_pow (bit_and (a / 2 / 2 ^ k) (b / 2 / 2 ^ k)) k,
  bit_and_split k (a / 2) (b / 2),
)

pub bit_or-lt : (k a b : ℕ) → a < 2 ^ k → b < 2 ^ k → bit_or a b < 2 ^ k
bit_or-lt zero a b p q =
    let e : a ≡ 0 = omega arith in let f : b ≡ 0 = omega arith in rw (e, f) (omega arith)
bit_or-lt (suc k) a b p q = omega (
  arith,
  bit_or_step a b,
  pow-succ' 2 k,
  bit_or-lt k (a / 2) (b / 2) (omega (arith, pow-succ' 2 k)) (omega (arith, pow-succ' 2 k)),
)
