-- ===== src/Prelude/Tests.antt =====
-- Boolean tests on the native numbers, and the conditional.
use Prim.Native.Nat.{ℕ, compare, Ordering}
use mathlib.Core.Path.{◌≡◌, refl}
use mathlib.Core.Logic.{◌≢◌, ◌↔◌, ◌⊎◌, inl, inr}
use mathlib.Core.Bool.{Bool, true, false, not}
use native.Mathlib.Omega.{arith}

abbrev pub ltb : ℕ → ℕ → Bool
ltb a b = elim (compare a b) [ Ordering.lt ↦ true | _ ↦ false ]

abbrev pub leb : ℕ → ℕ → Bool
leb a b = elim (compare a b) [ Ordering.gt ↦ false | _ ↦ true ]

infix 50 ◌==◌
abbrev pub ◌==◌ : ℕ → ℕ → Bool
a == b = elim (compare a b) [ Ordering.eq ↦ true | _ ↦ false ]

infix 1 if◌then◌else◌
abbrev pub if◌then◌else◌ {ℓ} : {A : Type ℓ} → Bool → A → A → A
if true then x else y = x
if false then x else y = y

pub ==_iff : (a b : ℕ) → ((a == b) ≡ true) ↔ (a ≡ b)
==_iff a b = ground arith

pub eqb_refl : (a : ℕ) → (a == a) ≡ true
eqb_refl a = ground arith

pub Bool-cases : (b : Bool) → (b ≡ true) ⊎ (b ≡ false)
Bool-cases true = inl refl
Bool-cases false = inr refl

-- What holds of both branches holds of the conditional.
pub if_ind {ℓ κ} :
    {A : Type ℓ} (Holds : A → Type κ) (test : Bool) {yes_case no_case : A}
    → Holds yes_case
    → Holds no_case
    → Holds (if test then yes_case else no_case)
if_ind Holds true first second = first
if_ind Holds false first second = second

-- Two tests in a row, the second one reached.
pub second_test :
    {A : Type 0} (w a b : ℕ) (x y z : A)
    → w ≡ b
    → a ≢ b
    → (if w == a then x else if w == b then y else z) ≡ y
second_test w a b x y z e ne = ground arith

pub first_test : {A : Type 0} (w a : ℕ) (x y : A) → w ≡ a → (if w == a then x else y) ≡ x
first_test w a x y e = ground arith

pub no_test :
    {A : Type 0} (w a b : ℕ) (x y z : A)
    → w ≢ a
    → w ≢ b
    → (if w == a then x else if w == b then y else z) ≡ z
no_test w a b x y z ne ne' = ground arith

-- A test of two numbers that differ.
pub differing {ℓ} :
    {A : Type ℓ} (x y : ℕ) (first second : A)
    → x ≢ y
    → (if not (x == y) then first else second) ≡ first
differing x y first second ne = let e : (x == y) ≡ false = ground arith in rw e refl
