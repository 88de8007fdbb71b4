-- ===== src/Bipbuffer/Region.antt =====
-- memcached/bipbuffer.c: bytes of a region, and what `memcpy` leaves of them.
use kvsev.Prelude.{
  ℕ, zero, suc, ◌+◌, ◌≤◌, ◌<◌, ◌≡◌, refl, ap, ◌∙◌, List, [], ◌∷◌, ◌++◌, length, get_or, set,
  length-set, get_or-set_self, get_or-set_ne, arith,
}
use kvsev.Bipbuffer.{copy}

-- The `n` bytes from the offset `i` on.
abbrev pub region : List ℕ → ℕ → ℕ → List ℕ
region bytes i zero = []
region bytes i (suc n) = get_or bytes i 0 ∷ region bytes (suc i) n

pub length-copy : (bytes : List ℕ) (p : ℕ) (d : List ℕ) → length (copy bytes p d) ≡ length bytes
unfolding copy
length-copy bytes p [] = refl
length-copy bytes p (x ∷ d) = length-copy (set bytes p x) (suc p) d ∙ length-set bytes p x

get_or-copy_before :
    (bytes : List ℕ) (p : ℕ) (d : List ℕ) (j : ℕ)
    → j < p
    → get_or (copy bytes p d) j 0 ≡ get_or bytes j 0
unfolding copy
get_or-copy_before bytes p [] j h = refl
get_or-copy_before bytes p (x ∷ d) j h =
    get_or-copy_before (set bytes p x) (suc p) d j (omega (arith, h))
    ∙ get_or-set_ne bytes p j x 0 (λ e. omega (arith, e, h))

get_or-copy_after :
    (bytes : List ℕ) (p : ℕ) (d : List ℕ) (j : ℕ)
    → p + length d ≤ j
    → get_or (copy bytes p d) j 0 ≡ get_or bytes j 0
unfolding copy
get_or-copy_after bytes p [] j h = refl
get_or-copy_after bytes p (x ∷ d) j h =
    get_or-copy_after (set bytes p x) (suc p) d j (omega (arith, h))
    ∙ get_or-set_ne bytes p j x 0 (λ e. omega (arith, e, h))

-- A region beside the copied bytes, and the copied bytes.
pub region-copy_before :
    (bytes : List ℕ) (p : ℕ) (d : List ℕ) (i n : ℕ)
    → i + n ≤ p
    → region (copy bytes p d) i n ≡ region bytes i n
region-copy_before bytes p d i zero h = refl
region-copy_before bytes p d i (suc n) h =
    let rest = region-copy_before bytes p d (suc i) n (omega (arith, h)) in
    let here = get_or-copy_before bytes p d i (omega (arith, h)) in cc (rest, here)

pub region-copy_after :
    (bytes : List ℕ) (p : ℕ) (d : List ℕ) (i n : ℕ)
    → p + length d ≤ i
    → region (copy bytes p d) i n ≡ region bytes i n
region-copy_after bytes p d i zero h = refl
region-copy_after bytes p d i (suc n) h =
    let rest = region-copy_after bytes p d (suc i) n (omega (arith, h)) in
    let here = get_or-copy_after bytes p d i h in cc (rest, here)

pub region-copy_self :
    (bytes : List ℕ) (p : ℕ) (d : List ℕ)
    → p + length d ≤ length bytes
    → region (copy bytes p d) p (length d) ≡ d
unfolding copy
region-copy_self bytes p [] h = refl
region-copy_self bytes p (x ∷ d) h =
    let wide = length-set bytes p x in
    let rest = region-copy_self (set bytes p x) (suc p) d (omega (arith, h, wide)) in
    let here =
      get_or-copy_before (set bytes p x) (suc p) d p (omega arith)
      ∙ get_or-set_self bytes p x 0 (omega (arith, h)) in
    cc (rest, here)

pub region-append :
    (bytes : List ℕ) (i n k : ℕ)
    → region bytes i (n + k) ≡ region bytes i n ++ region bytes (i + n) k
region-append bytes i zero k =
    let count : 0 + k ≡ k = omega arith in
    let place : i ≡ i + 0 = omega arith in
    ap (region bytes i) count ∙ ap (λ j. region bytes j k) place
region-append bytes i (suc n) k =
    let count : suc n + k ≡ suc (n + k) = omega arith in
    let place : suc i + n ≡ i + suc n = omega arith in
    ap (region bytes i) count
    ∙ ap (λ r. get_or bytes i 0 ∷ r)
        (region-append bytes (suc i) n k
          ∙ ap (λ j. region bytes (suc i) n ++ region bytes j k) place)
