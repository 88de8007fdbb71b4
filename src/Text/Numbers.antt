-- ===== src/Text/Numbers.antt =====
-- memcached/util.c: safe_strtoull and its like, over the strtoull and strtol of C in base 10 and the
-- "C" locale; and `realtime` of memcached/memcached.c.
pub mod Decimal
pub mod RoundTrip
pub mod Expiry
use kvsev.Prelude.{
  ℕ, zero, suc, ◌+◌, ◌-◌, ◌*◌, ◌/◌, ◌%◌, ◌^◌, Bool, true, false, ◌&&◌, ◌||◌, not, Option, none,
  some, List, [], ◌∷◌, ltb, leb, ◌==◌, if◌then◌else◌,
}

-- A byte as `isspace` and `isdigit` see it.
abbrev pub is_space : ℕ → Bool
is_space c = c == 32 || (leb 9 c && leb c 13)

abbrev pub is_digit : ℕ → Bool
is_digit c = leb 48 c && leb c 57

-- `strchr(str, c) != NULL`: a string ends at a byte 0.
unfoldable pub has_byte : ℕ → List ℕ → Bool
has_byte c [] = false
has_byte c (x ∷ rest) =
    let later = has_byte c rest in if x == c then true else if x == 0 then false else later

unfoldable pub skip_space : List ℕ → List ℕ
skip_space [] = []
skip_space (c ∷ rest) = let skipped = skip_space rest in if is_space c then skipped else c ∷ rest

-- Whether a sign "-" stands in front, and what follows the sign.
unfoldable pub sign : List ℕ → Bool × List ℕ
sign [] = (false, [])
sign (c ∷ rest) =
    if c == 45 then (true, rest) else if c == 43 then (false, rest) else (false, c ∷ rest)

-- The digits in front, put to the number before them, and what follows.
unfoldable pub digits_from : ℕ → List ℕ → ℕ × List ℕ
digits_from v [] = (v, [])
digits_from v (c ∷ rest) =
    let more = digits_from (v * 10 + (c - 48)) rest in if is_digit c then more else (v, c ∷ rest)

unfoldable pub starts_digit : List ℕ → Bool
starts_digit [] = false
starts_digit (c ∷ rest) = is_digit c

-- What `strtoull` and `strtol` read: the sign, the number without bound and the end; `none` if there is
-- no number, where `endptr` is `str`.
pub record Scanned : Type 0 where
  pub negative : Bool
  pub magnitude : ℕ
  pub endptr : List ℕ

unfoldable pub scan : List ℕ → Option Scanned
scan str =
    let signed = sign (skip_space str) in
    let read = digits_from 0 signed.1 in
    if starts_digit signed.1
    then some (record { negative = signed.0; magnitude = read.0; endptr = read.1 })
    else none

-- `xisspace(*endptr) || *endptr == '\0'`
unfoldable pub ends : List ℕ → Bool
ends [] = true
ends (c ∷ rest) = is_space c || c == 0

-- The value of `strtoull` in 64 bits: a negative number is turned around. ERANGE is for a magnitude of
-- more than 64 bits.
unfoldable pub unsigned_value : Scanned → ℕ
unsigned_value r = if r.negative then (2 ^ 64 - r.magnitude) % 2 ^ 64 else r.magnitude

unfoldable pub safe_strtoull_from : List ℕ → Scanned → Option ℕ
safe_strtoull_from str r =
    let ull = unsigned_value r in
    if leb (2 ^ 64) r.magnitude
    then none
    else if ends r.endptr
    then if leb (2 ^ 63) ull && has_byte 45 str then none else some ull
    else none

unfoldable pub safe_strtoull : List ℕ → Option ℕ
safe_strtoull str = elim (scan str) [ none ↦ none | some r ↦ safe_strtoull_from str r ]

-- `safe_strtoul`: `unsigned long` has 64 bits, and the result is cut to 32.
unfoldable pub safe_strtoul : List ℕ → Option ℕ
safe_strtoul str = elim (safe_strtoull str) [ none ↦ none | some l ↦ some (l % 2 ^ 32) ]

-- `safe_strtol`: `long` has 64 bits, ERANGE is outside of them, and the result is cut to the 32 bits of
-- an `int32_t`, given as their pattern.
unfoldable pub safe_strtol_from : Scanned → Option ℕ
safe_strtol_from r =
    let value = if r.negative then (2 ^ 64 - r.magnitude) % 2 ^ 32 else r.magnitude % 2 ^ 32 in
    if (if r.negative then ltb (2 ^ 63) r.magnitude else leb (2 ^ 63) r.magnitude)
    then none
    else if ends r.endptr
    then some value
    else none

unfoldable pub safe_strtol : List ℕ → Option ℕ
safe_strtol str = elim (scan str) [ none ↦ none | some r ↦ safe_strtol_from r ]

-- The sign of an `int32_t`.
abbrev pub is_negative : ℕ → Bool
is_negative w = leb (2 ^ 31) w

abbrev pub realtime_maxdelta : ℕ
realtime_maxdelta = 2592000

-- `EXPTIME_TO_POSITIVE_TIME`
unfoldable pub exptime_to_positive : ℕ → ℕ
exptime_to_positive w = if is_negative w then realtime_maxdelta + 1 else w

-- `realtime`, of a time that is not negative.
unfoldable pub realtime : ℕ → ℕ → ℕ → ℕ
realtime process_started current_time exptime =
    if exptime == 0
    then 0
    else if ltb realtime_maxdelta exptime
    then if leb exptime process_started then 1 else (exptime - process_started) % 2 ^ 32
    else (exptime + current_time) % 2 ^ 32
