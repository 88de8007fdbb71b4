-- ===== src/Prelude/Bits.antt =====
-- The bits of a number by halving: what `&` and `|` do at variables.
use Prim.Native.Nat.{
  ℕ, zero, suc, ◌+◌, ◌*◌, ◌/◌, ◌%◌, ◌≤◌, ◌<◌, min, max, bit_and, bit_or, digits, bit_and-bitwise,
  bit_or-bitwise,
}
use mathlib.Core.Path.{◌≡◌, refl, sym, ◌∙◌, ap}
use native.Mathlib.Nat.{zero-add, suc-add}
use native.Mathlib.Omega.{arith}

-- `shr i x` is `x >> i`.
abbrev pub shr : ℕ → ℕ → ℕ
shr zero x = x
shr (suc i) x = shr i (x / 2)

pub shr-zero : (i : ℕ) → shr i 0 ≡ 0
shr-zero zero = refl
shr-zero (suc i) = shr-zero i

pub shr_suc : (i x : ℕ) → shr i (x / 2) ≡ shr i x / 2
shr_suc zero x = refl
shr_suc (suc i) x = shr_suc i (x / 2)

-- Shifts commute.
pub shr_comm : (i j x : ℕ) → shr i (shr j x) ≡ shr j (shr i x)
shr_comm i zero x = refl
shr_comm i (suc j) x = shr_comm i j (x / 2) ∙ ap (shr j) (shr_suc i x)

pub shr_add : (i j x : ℕ) → shr (i + j) x ≡ shr j (shr i x)
shr_add zero j x = rw (zero-add j)
shr_add (suc i) j x = rw (suc-add i j) (shr_add i j (x / 2))

-- Both operations are one recursion on the digits, from the lowest. `tail` is what is left of the
-- second number when the first is used up.
module _ (tail : ℕ → ℕ) (digit : ℕ → ℕ → ℕ) where
  abbrev run : ℕ → ℕ → ℕ → ℕ
  run fuel = digits tail digit fuel

  -- More fuel than the first number does not matter.
  spare : (x y fuel more : ℕ) → x ≤ more → x ≤ fuel → run fuel x y ≡ run more x y
  spare zero y zero zero h k = refl
  spare zero y zero (suc more) h k = refl
  spare zero y (suc fuel) zero h k = refl
  spare zero y (suc fuel) (suc more) h k = refl
  spare (suc x) y zero more h k = absurd (omega arith)
  spare (suc x) y (suc fuel) zero h k = absurd (omega arith)
  spare (suc x) y (suc fuel) (suc more) h k =
      ap (λ v. v * 2 + digit (suc x % 2) (y % 2))
        (spare (suc x / 2) (y / 2) fuel more (omega arith) (omega arith))

  -- Any operation that this recursion computes obeys the law of the lowest digit.
  lowest :
      (f : ℕ → ℕ → ℕ)
      → ((x y : ℕ) → f x y ≡ run x x y)
      → (x y : ℕ) → f (suc x) y ≡ f (suc x / 2) (y / 2) * 2 + digit (suc x % 2) (y % 2)
  lowest f computes x y =
      computes (suc x) y
      ∙ ap (λ v. v * 2 + digit (suc x % 2) (y % 2))
          (spare (suc x / 2) (y / 2) x (suc x / 2) (omega arith) (omega arith)
            ∙ sym (computes (suc x / 2) (y / 2)))

pub bit_and_step : (a b : ℕ) → bit_and a b ≡ bit_and (a / 2) (b / 2) * 2 + min (a % 2) (b % 2)
bit_and_step (suc a) b = lowest (λ _. 0) min bit_and bit_and-bitwise a b
bit_and_step zero b =
    let none_left = λ (y : ℕ). bit_and-bitwise 0 y in
    none_left b ∙ rw (none_left (b / 2)) (omega arith)

pub bit_or_step : (a b : ℕ) → bit_or a b ≡ bit_or (a / 2) (b / 2) * 2 + max (a % 2) (b % 2)
bit_or_step (suc a) b = lowest (λ y. y) max bit_or bit_or-bitwise a b
bit_or_step zero b =
    let others = λ (y : ℕ). bit_or-bitwise 0 y in others b ∙ rw (others (b / 2)) (omega arith)

-- Bit `i` of `a | b` is the larger of the two bits.
pub shr-bit_or : (i a b : ℕ) → shr i (bit_or a b) % 2 ≡ max (shr i a % 2) (shr i b % 2)
shr-bit_or zero a b = omega (arith, bit_or_step a b)
shr-bit_or (suc i) a b = rw half (shr-bit_or i (a / 2) (b / 2))
  where
    half : bit_or a b / 2 ≡ bit_or (a / 2) (b / 2)
    half = omega (arith, bit_or_step a b)

-- `a & a` is `a`, and `a & 0` is 0.
and_same_or_zero : (bound a : ℕ) → a < bound → (bit_and a a ≡ a) × (bit_and a 0 ≡ 0)
and_same_or_zero zero a h = elim h [ ]
and_same_or_zero (suc bound) zero h = (refl, refl)
and_same_or_zero (suc bound) (suc a) h =
    let (same, none_left) = and_same_or_zero bound (suc a / 2) (omega arith) in
    let s = bit_and_step (suc a) (suc a) in
    let z = bit_and_step (suc a) 0 in (omega arith, omega arith)

pub bit_and_self : (a : ℕ) → bit_and a a ≡ a
bit_and_self a = (and_same_or_zero (suc a) a (omega arith)).0

-- `a & 1` is the parity.
pub bit_and-one : (a : ℕ) → bit_and a 1 ≡ a % 2
bit_and-one a =
    let z = (and_same_or_zero (suc a) (a / 2) (omega arith)).1 in omega (arith, bit_and_step a 1)
