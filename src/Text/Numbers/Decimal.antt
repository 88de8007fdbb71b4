-- ===== src/Text/Numbers/Decimal.antt =====
-- The decimal digits of a number, as the protocol prints it.
use kvsev.Prelude.{
  ℕ, zero, suc, ◌+◌, ◌-◌, ◌*◌, ◌/◌, ◌%◌, ◌^◌, ◌<◌, ◌≡◌, ◌≢◌, refl, ◌∙◌, ap, true, List, [], ◌∷◌,
  ◌++◌, ◌==◌, if◌then◌else◌, ==_iff, ==_false, Bool-cases, inl, inr, arith, if_true, if_false,
  if_either,
}
use native.Mathlib.Numerals.{unary_clauses}
use kvsev.Text.Numbers.{is_digit, digits_from, starts_digit}

unfoldable pub decimal_loop : ℕ → ℕ → List ℕ → List ℕ
decimal_loop zero n acc = acc
decimal_loop (suc f) n acc =
    let digits = (48 + n % 10) ∷ acc in
    let more = decimal_loop f (n / 10) digits in if n / 10 == 0 then digits else more

-- The numbers of 64 bits have at most 20 digits.
unfoldable pub decimal : ℕ → List ℕ
decimal n = decimal_loop 20 n []

digits_from-digit :
    (v d : ℕ) (rest : List ℕ)
    → d < 10
    → digits_from v ((48 + d) ∷ rest) ≡ digits_from (v * 10 + d) rest
unfolding digits_from
digits_from-digit v d rest h =
    let yes_digit : is_digit (48 + d) ≡ true = ground (arith, h) in
    let value : v * 10 + (48 + d - 48) ≡ v * 10 + d = omega arith in
    if_true (is_digit (48 + d)) (digits_from (v * 10 + (48 + d - 48)) rest) (v, (48 + d) ∷ rest)
      yes_digit
    ∙ ap (λ w. digits_from w rest) value

pow-below : (f n : ℕ) → n < 10 ^ suc f → n / 10 < 10 ^ f
pow-below f n h =
    let step : 10 ^ suc f ≡ 10 * 10 ^ f = simp unary_clauses (omega arith) in omega (arith, h, step)

fuel-pos : (f m : ℕ) → m < 10 ^ f → m ≢ 0 → 0 < f
fuel-pos zero m h ne = absurd (ne (omega (arith, h)))
fuel-pos (suc f) m h ne = omega arith

pub digits_from-decimal_loop :
    (f n : ℕ) (acc : List ℕ)
    → 0 < f
    → n < 10 ^ f
    → digits_from 0 (decimal_loop f n acc) ≡ digits_from n acc
unfolding decimal_loop
digits_from-decimal_loop zero n acc p h = absurd (omega (arith, p))
digits_from-decimal_loop (suc f) n acc p h =
    let digits : List ℕ = (48 + n % 10) ∷ acc in
    let one = λ (v : ℕ). digits_from-digit v (n % 10) acc (omega arith) in
    elim (Bool-cases (n / 10 == 0)) [
      | inl e ↦
          let small = (==_iff (n / 10) 0).0 e in
          let all : 0 * 10 + n % 10 ≡ n = omega (arith, small) in
          ap (digits_from 0) (if_true (n / 10 == 0) digits (decimal_loop f (n / 10) digits) e)
          ∙ one 0
          ∙ ap (λ v. digits_from v acc) all
      | inr e ↦
          let large = ==_false (n / 10) 0 e in
          let below : n / 10 < 10 ^ f = pow-below f n h in
          let all : n / 10 * 10 + n % 10 ≡ n = omega arith in
          ap (digits_from 0) (if_false (n / 10 == 0) digits (decimal_loop f (n / 10) digits) e)
          ∙ digits_from-decimal_loop f (n / 10) digits (fuel-pos f (n / 10) below large) below
          ∙ one (n / 10)
          ∙ ap (λ v. digits_from v acc) all
    ]

-- Only digits are printed.
abbrev pub AllDigits : List ℕ → Type 0
AllDigits [] = Unit {0}
AllDigits (c ∷ rest) = (is_digit c ≡ true) × AllDigits rest

decimal_loop-AllDigits : (f n : ℕ) (acc : List ℕ) → AllDigits acc → AllDigits (decimal_loop f n acc)
unfolding decimal_loop
decimal_loop-AllDigits zero n acc all = all
decimal_loop-AllDigits (suc f) n acc all =
    let low : n % 10 < 10 = omega arith in
    let here : is_digit (48 + n % 10) ≡ true = ground (arith, low) in
    if_either AllDigits (n / 10 == 0) (here, all)
      (decimal_loop-AllDigits f (n / 10) ((48 + n % 10) ∷ acc) (here, all))

pub decimal-AllDigits : (n : ℕ) → AllDigits (decimal n)
unfolding decimal
decimal-AllDigits n = decimal_loop-AllDigits 20 n [] tt

starts_digit-decimal_loop :
    (f n : ℕ) (acc : List ℕ) → starts_digit acc ≡ true → starts_digit (decimal_loop f n acc) ≡ true
unfolding decimal_loop
starts_digit-decimal_loop zero n acc h = h
starts_digit-decimal_loop (suc f) n acc h =
    let low : n % 10 < 10 = omega arith in
    let here : is_digit (48 + n % 10) ≡ true = ground (arith, low) in
    if_either (λ l. starts_digit l ≡ true) (n / 10 == 0) (first here)
      (starts_digit-decimal_loop f (n / 10) ((48 + n % 10) ∷ acc) (first here))
  where
    first : is_digit (48 + n % 10) ≡ true → starts_digit ((48 + n % 10) ∷ acc) ≡ true
    first e = unfold starts_digit in e

pub decimal_loop-append :
    (f n : ℕ) (acc rest : List ℕ) → decimal_loop f n acc ++ rest ≡ decimal_loop f n (acc ++ rest)
unfolding decimal_loop
decimal_loop-append zero n acc rest = refl
decimal_loop-append (suc f) n acc rest = elim (Bool-cases (n / 10 == 0)) [
  | inl e ↦ rw e
  | inr e ↦ rw e (decimal_loop-append f (n / 10) ((48 + n % 10) ∷ acc) rest)
]

-- The digits of a number of 64 bits are read back, whatever follows them.
pub digits_from-decimal :
    (n : ℕ) (rest : List ℕ) → n < 2 ^ 64 → digits_from 0 (decimal n ++ rest) ≡ digits_from n rest
unfolding decimal
digits_from-decimal n rest h =
    ap (digits_from 0) (decimal_loop-append 20 n [] rest)
    ∙ digits_from-decimal_loop 20 n rest (omega arith) (omega (arith, h))

starts_digit-decimal_loop_digit :
    (f n : ℕ) (acc : List ℕ) → starts_digit (decimal_loop (suc f) n acc) ≡ true
unfolding decimal_loop starts_digit
starts_digit-decimal_loop_digit f n acc =
    let low : n % 10 < 10 = omega arith in
    let here : is_digit (48 + n % 10) ≡ true = ground (arith, low) in
    if_either (λ l. starts_digit l ≡ true) (n / 10 == 0) here
      (starts_digit-decimal_loop f (n / 10) ((48 + n % 10) ∷ acc) here)

pub starts_digit-decimal : (n : ℕ) (rest : List ℕ) → starts_digit (decimal n ++ rest) ≡ true
unfolding decimal
starts_digit-decimal n rest =
    ap starts_digit (decimal_loop-append 20 n [] rest) ∙ starts_digit-decimal_loop_digit 19 n rest
