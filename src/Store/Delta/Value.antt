-- ===== src/Store/Delta/Value.antt =====
-- memcached/memcached.c: the number that do_add_delta leaves.
use mathlib.Core.List.{append_assoc}
use kvsev.Prelude.{
  ℕ, zero, suc, ◌+◌, ◌-◌, ◌^◌, ◌≤◌, ◌<◌, ◌≡◌, refl, sym, ap, ◌∙◌, Bool, true, false, some, [], ◌∷◌,
  ◌++◌, ltb, if_either, length, drop, replicate, length-append, length-replicate, arith,
}
use kvsev.Prelude.Slices.{drop_front}
use kvsev.Merkle.Config.{Bytes}
use kvsev.Text.Numbers.{safe_strtoull, has_byte, ends, starts_digit}
use kvsev.Text.Numbers.Decimal.{decimal, starts_digit-decimal}
use kvsev.Text.Numbers.RoundTrip.{safe_strtoull-decimal}
use kvsev.Store.Delta.{overwritten, new_value}

abbrev pub crlf : Bytes
crlf = 13 ∷ 10 ∷ []

-- The data of an item that holds the number `n`, with `k` spaces behind it.
abbrev pub numeral : ℕ → ℕ → Bytes
numeral n k = decimal n ++ (replicate k 32 ++ crlf)

ends-spaces : (k : ℕ) (beyond : Bytes) → ends (replicate k 32 ++ crlf ++ beyond) ≡ true
unfolding ends
ends-spaces zero beyond = refl
ends-spaces (suc k) beyond = refl

has_byte-spaces :
    (k : ℕ) (beyond : Bytes)
    → has_byte 45 beyond ≡ false
    → has_byte 45 (replicate k 32 ++ crlf ++ beyond) ≡ false
unfolding has_byte
has_byte-spaces zero beyond h = h
has_byte-spaces (suc k) beyond h = has_byte-spaces k beyond h

-- The number is read back, if no "-" stands in the memory behind it.
pub safe_strtoull-numeral :
    (n k : ℕ) (beyond : Bytes)
    → n < 2 ^ 64
    → has_byte 45 beyond ≡ false
    → safe_strtoull (numeral n k ++ beyond) ≡ some n
safe_strtoull-numeral n k beyond small plain =
    ap safe_strtoull (append_assoc (decimal n) (replicate k 32 ++ crlf) beyond)
    ∙ safe_strtoull-decimal n (replicate k 32 ++ crlf ++ beyond) small (ends-spaces k beyond)
        (has_byte-spaces k beyond plain)

pub length-numeral : (n k : ℕ) → length (numeral n k) ≡ length (decimal n) + k + 2
length-numeral n k =
    let spaces : length {A = ℕ} (replicate k 32) ≡ k = length-replicate k 32 in
    omega (
      arith,
      length-append (decimal n) (replicate k 32 ++ crlf),
      length-append (replicate k 32) crlf,
      spaces,
    )

pub decimal_nonempty : (n : ℕ) → 0 < length (decimal n)
unfolding starts_digit
decimal_nonempty n = go (decimal n) (starts_digit-decimal n [])
  where
    go : (l : Bytes) → starts_digit (l ++ []) ≡ true → 0 < length l
    go [] h = cc h
    go (x ∷ l) h = omega arith

-- A shorter or equal number over an old one.
pub overwritten-numeral :
    (n n' k : ℕ)
    → length (decimal n') ≤ length (decimal n) + k
    → overwritten (decimal n') (numeral n k)
      ≡ numeral n' (length (decimal n) + k - length (decimal n'))
unfolding overwritten
overwritten-numeral n n' k le =
    let front = decimal n ++ replicate k 32 in
    let spaces : length {A = ℕ} (replicate k 32) ≡ k = length-replicate k 32 in
    let size = length-numeral n k in
    let front_size = length-append (decimal n) (replicate k 32) in
    let last : drop (length (numeral n k) - 2) (numeral n k) ≡ crlf =
      ap (drop (length (numeral n k) - 2)) (sym (append_assoc (decimal n) (replicate k 32) crlf))
      ∙ drop_front (length (numeral n k) - 2) front crlf (omega arith) in
    let pad : length (numeral n k) - length (decimal n') - 2
        ≡ length (decimal n) + k - length (decimal n') =
      omega arith in
    ap (λ l. decimal n' ++ (replicate (length (numeral n k) - length (decimal n') - 2) 32 ++ l))
      last
    ∙ ap (λ j. decimal n' ++ (replicate j 32 ++ crlf)) pad

pub new_value-small : (incr : Bool) (delta v : ℕ) → v < 2 ^ 64 → new_value incr delta v < 2 ^ 64
unfolding new_value
new_value-small true delta v h = omega arith
new_value-small false delta v h =
    if_either (λ n. n < 2 ^ 64) (ltb v delta) (omega arith) (omega (arith, h))
