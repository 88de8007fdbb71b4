-- ===== src/Prelude/Slices.antt =====
-- Parts of lists: what `take` and `drop` make of a list in two parts, and of a write into one.
use Prim.Native.Nat.{ℕ, zero, suc, ◌-◌, min}
use mathlib.Core.Path.{◌≡◌, refl, ap, ◌∙◌, sym}
use mathlib.Core.List.{List, [], ◌∷◌, ◌++◌, append-nil}
use native.Mathlib.Numerals.{unary_clauses}
use native.Mathlib.Omega.{arith}
use kvsev.Prelude.Lists.{length, take, drop, set, get_or}

module _ {ℓ} {A : Type ℓ} where
  pub take-nil : (n : ℕ) → take {A = A} n [] ≡ []
  take-nil zero = refl
  take-nil (suc n) = refl

  pub drop-nil : (n : ℕ) → drop {A = A} n [] ≡ []
  drop-nil zero = refl
  drop-nil (suc n) = refl

  -- The front of a list in two parts, by what the first part gives.
  pub take-append :
      (n : ℕ) (xs ys : List A)
      → take n (xs ++ ys) ≡ take (min (length xs) n) xs ++ take (n - min (length xs) n) ys
  take-append zero xs ys = simp unary_clauses refl
  take-append (suc n) [] ys = simp unary_clauses refl
  take-append (suc n) (x ∷ xs) ys = simp unary_clauses (ap (λ l. x ∷ l) (take-append n xs ys))

  pub drop-append :
      (n : ℕ) (xs ys : List A)
      → drop n (xs ++ ys) ≡ drop (min (length xs) n) xs ++ drop (n - min (length xs) n) ys
  drop-append zero xs ys = simp unary_clauses refl
  drop-append (suc n) [] ys = simp unary_clauses refl
  drop-append (suc n) (x ∷ xs) ys = simp unary_clauses (drop-append n xs ys)

  pub take_all : (xs : List A) → take (length xs) xs ≡ xs
  take_all [] = refl
  take_all (x ∷ xs) = ap (λ l. x ∷ l) (take_all xs)

  pub take-drop : (n : ℕ) (xs : List A) → take n xs ++ drop n xs ≡ xs
  take-drop zero xs = refl
  take-drop (suc n) [] = refl
  take-drop (suc n) (x ∷ xs) = ap (λ l. x ∷ l) (take-drop n xs)

  pub length-drop : (n : ℕ) (xs : List A) → length (drop n xs) ≡ length xs - n
  length-drop zero xs = omega arith
  length-drop (suc n) [] = omega arith
  length-drop (suc n) (x ∷ xs) = omega (arith, length-drop n xs)

  pub set_twice : (xs : List A) (i : ℕ) (v w : A) → set (set xs i v) i w ≡ set xs i w
  set_twice [] i v w = refl
  set_twice (x ∷ xs) zero v w = refl
  set_twice (x ∷ xs) (suc i) v w = ap (λ l. x ∷ l) (set_twice xs i v w)

  pub set_same : (xs : List A) (i : ℕ) (d : A) → set xs i (get_or xs i d) ≡ xs
  set_same [] i d = refl
  set_same (x ∷ xs) zero d = refl
  set_same (x ∷ xs) (suc i) d = ap (λ l. x ∷ l) (set_same xs i d)

  -- The first part of a list in two parts, and what is behind it.
  pub take_front : (k : ℕ) (xs ys : List A) → length xs ≡ k → take k (xs ++ ys) ≡ xs
  take_front k xs ys h =
      let all : min (length xs) k ≡ k = omega arith in
      let none_left : k - min (length xs) k ≡ 0 = omega arith in
      take-append k xs ys
      ∙ ap (λ n. take (min (length xs) k) xs ++ take n ys) none_left
      ∙ append-nil (take (min (length xs) k) xs)
      ∙ ap (λ n. take n xs) (all ∙ sym h)
      ∙ take_all xs

  pub drop_front : (k : ℕ) (xs ys : List A) → length xs ≡ k → drop k (xs ++ ys) ≡ ys
  drop_front k [] ys h = rw (← h) refl
  drop_front zero (x ∷ xs) ys h = absurd (omega arith)
  drop_front (suc k) (x ∷ xs) ys h = drop_front k xs ys (omega arith)
