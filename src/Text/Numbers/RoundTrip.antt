-- ===== src/Text/Numbers/RoundTrip.antt =====
-- memcached/util.c: what is printed in decimal is read back.
use mathlib.Core.List.{append-nil}
use kvsev.Prelude.{
  ℕ, ◌%◌, ◌-◌, ◌^◌, ◌<◌, ◌≡◌, refl, ◌∙◌, ap, true, false, none, some, List, [], ◌∷◌, ◌++◌, ◌==◌,
  if◌then◌else◌, Bool-cases, inl, inr, arith, if_false, leb, lt→leb_false, ltb, ltb→lt, ltb→ge,
  le→leb, ==_ne, sym, Option,
}
use kvsev.Text.Numbers.{
  is_digit, is_space, has_byte, skip_space, sign, digits_from, starts_digit, Scanned, scan, ends,
  unsigned_value, safe_strtoull, safe_strtoull_from, safe_strtoul, safe_strtol, safe_strtol_from,
}
use kvsev.Text.Numbers.Decimal.{
  decimal, AllDigits, decimal-AllDigits, digits_from-decimal, starts_digit-decimal,
}

-- A digit is neither space nor sign.
skip_space-digit : (s : List ℕ) → starts_digit s ≡ true → skip_space s ≡ s
unfolding skip_space starts_digit
skip_space-digit [] h = refl
skip_space-digit (c ∷ rest) h =
    if_false (is_space c) (skip_space rest) (c ∷ rest) (ground (arith, h))

sign-digit : (s : List ℕ) → starts_digit s ≡ true → sign s ≡ (false, s)
unfolding sign starts_digit
sign-digit [] h = refl
sign-digit (c ∷ rest) h = ground (arith, h)

digits_from-ends : (v : ℕ) (rest : List ℕ) → ends rest ≡ true → digits_from v rest ≡ (v, rest)
unfolding digits_from ends
digits_from-ends v [] h = refl
digits_from-ends v (c ∷ rest) h = if_false (is_digit c) _ (v, c ∷ rest) (ground (arith, h))

pub has_byte-AllDigits :
    (b : ℕ) (s rest : List ℕ)
    → is_digit b ≡ false
    → AllDigits s
    → has_byte b rest ≡ false
    → has_byte b (s ++ rest) ≡ false
unfolding has_byte
has_byte-AllDigits b [] rest no_digit all h = h
has_byte-AllDigits b (c ∷ s) rest no_digit all h =
    let digit = all.0 in
    let other : (c == b) ≡ false = ==_ne c b (λ e. cc (sym digit ∙ ap is_digit e ∙ no_digit)) in
    let nonzero : (c == 0) ≡ false = ==_ne c 0 (λ e. cc (sym digit ∙ ap is_digit e)) in
    let later = has_byte b (s ++ rest) in
    if_false (c == b) true (if c == 0 then false else later) other
    ∙ if_false (c == 0) false later nonzero
    ∙ has_byte-AllDigits b s rest no_digit all.1 h

-- The scan of a printed number stops behind its digits.
pub scan-decimal :
    (n : ℕ) (rest : List ℕ)
    → n < 2 ^ 64
    → ends rest ≡ true
    → scan (decimal n ++ rest) ≡ some (record { negative = false; magnitude = n; endptr = rest })
unfolding scan
scan-decimal n rest h e =
    let s = decimal n ++ rest in
    let d = starts_digit-decimal n rest in
    let signed : sign (skip_space s) ≡ (false, s) =
      ap sign (skip_space-digit s d) ∙ sign-digit s d in
    let read : digits_from 0 s ≡ (n, rest) =
      digits_from-decimal n rest h ∙ digits_from-ends n rest e in
    rw (signed, d, read)

pub safe_strtoull-scan :
    (s : List ℕ) (r : Scanned) → scan s ≡ some r → safe_strtoull s ≡ safe_strtoull_from s r
unfolding safe_strtoull
safe_strtoull-scan s r e = rw (e, safe_strtoull)

-- `safe_strtoull` reads back every number of 64 bits that is printed in decimal, if a space or the end
-- follows, and no "-" behind it.
pub safe_strtoull-decimal :
    (n : ℕ) (rest : List ℕ)
    → n < 2 ^ 64
    → ends rest ≡ true
    → has_byte 45 rest ≡ false
    → safe_strtoull (decimal n ++ rest) ≡ some n
unfolding safe_strtoull_from unsigned_value
safe_strtoull-decimal n rest h e no_minus =
    let scanned = scan-decimal n rest h e in
    let plain = has_byte-AllDigits 45 (decimal n) rest refl (decimal-AllDigits n) no_minus in
    let small : leb (2 ^ 64) n ≡ false = lt→leb_false (2 ^ 64) n h in
    safe_strtoull-scan (decimal n ++ rest) _ scanned ∙ elim (Bool-cases (leb (2 ^ 63) n)) [
      | inl t ↦ rw (small, e, t, plain)
      | inr t ↦ rw (small, e, t)
    ]

scan-minus :
    (n : ℕ) (rest : List ℕ)
    → n < 2 ^ 64
    → ends rest ≡ true
    → scan (45 ∷ decimal n ++ rest)
      ≡ some (record { negative = true; magnitude = n; endptr = rest })
unfolding scan skip_space sign
scan-minus n rest h e =
    let s = decimal n ++ rest in
    let d = starts_digit-decimal n rest in
    let read : digits_from 0 s ≡ (n, rest) =
      digits_from-decimal n rest h ∙ digits_from-ends n rest e in
    rw (d, read)

-- A negative number is rejected down to - 2 ^ 63; below that `safe_strtoull` accepts it, and returns it
-- turned around in 64 bits.
pub safe_strtoull-minus :
    (n : ℕ) (rest : List ℕ)
    → 0 < n
    → n < 2 ^ 64
    → ends rest ≡ true
    → safe_strtoull (45 ∷ decimal n ++ rest) ≡ (if ltb (2 ^ 63) n then some (2 ^ 64 - n) else none)
unfolding safe_strtoull_from unsigned_value has_byte
safe_strtoull-minus n rest p h e =
    let scanned = scan-minus n rest h e in
    let small : leb (2 ^ 64) n ≡ false = lt→leb_false (2 ^ 64) n h in
    let turned : (2 ^ 64 - n) % 2 ^ 64 ≡ 2 ^ 64 - n = omega (arith, p, h) in
    safe_strtoull-scan (45 ∷ decimal n ++ rest) _ scanned ∙ elim (Bool-cases (ltb (2 ^ 63) n)) [
      | inl t ↦
          let lt = ltb→lt (2 ^ 63) n t in
          let low : leb (2 ^ 63) (2 ^ 64 - n) ≡ false =
            lt→leb_false (2 ^ 63) (2 ^ 64 - n) (omega (arith, lt, h)) in
          rw (small, e, turned, low, t)
      | inr t ↦
          let le = ltb→ge (2 ^ 63) n t in
          let high : leb (2 ^ 63) (2 ^ 64 - n) ≡ true =
            le→leb (2 ^ 63) (2 ^ 64 - n) (omega (arith, le, h)) in
          rw (small, e, turned, high, t)
    ]

-- `safe_strtoul` and `safe_strtol` read back what fits.
pub safe_strtoul-decimal : (n : ℕ) → n < 2 ^ 32 → safe_strtoul (decimal n) ≡ some n
unfolding safe_strtoul ends has_byte
safe_strtoul-decimal n h =
    let read : safe_strtoull (decimal n) ≡ some n =
      ap safe_strtoull (sym (append-nil (decimal n)))
      ∙ safe_strtoull-decimal n [] (omega (arith, h)) refl refl in
    let small : n % 2 ^ 32 ≡ n = omega (arith, h) in
    ap (λ (m : Option ℕ). elim m as (λ _. Option ℕ) [ none ↦ none | some l ↦ some (l % 2 ^ 32) ])
      read
    ∙ ap some small

safe_strtol-scan : (s : List ℕ) (r : Scanned) → scan s ≡ some r → safe_strtol s ≡ safe_strtol_from r
unfolding safe_strtol
safe_strtol-scan s r e = rw (e, safe_strtol) refl

pub safe_strtol-decimal : (n : ℕ) → n < 2 ^ 32 → safe_strtol (decimal n) ≡ some n
unfolding safe_strtol_from ends
safe_strtol-decimal n h =
    let scanned =
      ap scan (sym (append-nil (decimal n))) ∙ scan-decimal n [] (omega (arith, h)) refl in
    let small : n % 2 ^ 32 ≡ n = omega (arith, h) in
    let fits : leb (2 ^ 63) n ≡ false = lt→leb_false (2 ^ 63) n (omega (arith, h)) in
    safe_strtol-scan (decimal n) _ scanned ∙ rw (fits, small) refl
