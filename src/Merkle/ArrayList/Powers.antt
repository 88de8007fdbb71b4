-- ===== src/Merkle/ArrayList/Powers.antt =====
-- src/merkle/mt_array_list.c: the two bit tricks, `is_power_of_two` and `round_next_power_two`.
use Prim.Native.Nat.{bit_and, bit_or}
use native.Mathlib.Nat.{pow-suc}
use kvsev.Prelude.{
  ℕ, zero, suc, ◌+◌, ◌-◌, ◌*◌, ◌/◌, ◌%◌, ◌^◌, ◌≤◌, ◌<◌, max, min, ◌≡◌, refl, ◌∙◌, ap, true, arith,
  ◌==◌, ==_iff, ==_ne, ==_false, if◌then◌else◌, Bool-cases, inl, inr,
}
use kvsev.Prelude.Bits.{shr, shr_add, shr_comm, shr-bit_or, bit_and_step, bit_and_self}
use kvsev.Merkle.Config.{u32}
use kvsev.Merkle.ArrayList.{is_power_of_two, smear, round_next_power_two, dec_u32, add_u32}

pub pow-pos : (k : ℕ) → 0 < 2 ^ k
pow-pos zero = omega arith
pow-pos (suc k) = rw (pow-suc 2 k) (omega (arith, pow-pos k))

bit_and-pow : (k : ℕ) → bit_and (2 ^ k) (2 ^ k - 1) ≡ 0
bit_and-pow zero = refl
bit_and-pow (suc k) =
    let p = pow-pos k in
    let half : (2 ^ suc k / 2 ≡ 2 ^ k) × ((2 ^ suc k - 1) / 2 ≡ 2 ^ k - 1) =
      rw (pow-suc 2 k) (omega arith) in
    let even : 2 ^ suc k % 2 ≡ 0 = rw (pow-suc 2 k) (omega arith) in
    bit_and_step (2 ^ suc k) (2 ^ suc k - 1)
    ∙ rw (half.0, half.1, bit_and-pow k, even) (omega arith)

pow_of_bit_and : (n v : ℕ) → v ≤ n → 0 < v → bit_and v (v - 1) ≡ 0 → (k : ℕ) × (v ≡ 2 ^ k)
pow_of_bit_and zero v h p e = absurd (omega arith)
pow_of_bit_and (suc n) v h p e = elim (Bool-cases (v % 2 == 0)) [
  | inl even ↦
      let z = (==_iff (v % 2) 0).0 even in
      let half : (v - 1) / 2 ≡ v / 2 - 1 = omega arith in
      let e' : bit_and (v / 2) (v / 2 - 1) ≡ 0 =
        rw half at (
          let w : bit_and (v / 2) ((v - 1) / 2) ≡ 0 = omega (arith, bit_and_step v (v - 1)) in w) in
      let (k, q) = pow_of_bit_and n (v / 2) (omega arith) (omega arith) e' in
      (suc k, rw (pow-suc 2 k, ← q) (omega arith))
  | inr odd ↦
      let z = ==_false (v % 2) 0 odd in
      let half : (v - 1) / 2 ≡ v / 2 = omega arith in
      let e' : bit_and (v / 2) (v / 2) ≡ 0 =
        rw half at (
          let w : bit_and (v / 2) ((v - 1) / 2) ≡ 0 = omega (arith, bit_and_step v (v - 1)) in w) in
      (zero, omega (arith, bit_and_self (v / 2)))
]

dec_u32-pos : (v : ℕ) → 0 < v → v < u32 → dec_u32 v ≡ v - 1
dec_u32-pos v h k = omega arith

-- `is_power_of_two` accepts every power of two,
pub is_power_of_two-pow : (v k : ℕ) → v < u32 → v ≡ 2 ^ k → is_power_of_two v ≡ true
unfolding is_power_of_two
is_power_of_two-pow v k h e =
    let p : 0 < v = omega (arith, pow-pos k) in
    rw (dec_u32-pos v p h, ==_ne v 0 (omega arith)) (rw (e, bit_and-pow k))

-- and nothing else.
pub pow_of_is_power_of_two : (v : ℕ) → v < u32 → is_power_of_two v ≡ true → (k : ℕ) × (v ≡ 2 ^ k)
unfolding is_power_of_two
pow_of_is_power_of_two v h t =
    let p : 0 < v = ground arith in
    let t' = rw (dec_u32-pos v p h) at t in pow_of_bit_and v v (omega arith) p (ground (arith, t'))

-- Bit `i` of `x` tells whether any of the `m` low bits of `a >> i` is set.
abbrev Smears : ℕ → ℕ → ℕ → Type 0
Smears m a x = (i : ℕ) → shr i x % 2 ≡ min 1 (shr i a % m)

-- `x |= x >> k` doubles the run of bits that is smeared, for each of the five shifts.
smear_1 : (a : ℕ) → Smears 4 a (bit_or a (a / 2))
smear_1 a i = omega (arith, shr-bit_or i a (a / 2), shr_comm i 1 a)

smear_2 : (a x : ℕ) → Smears 4 a x → Smears 16 a (bit_or x (x / 4))
smear_2 a x h i =
    let q : x / 4 ≡ shr 2 x = omega arith in
    omega (
      arith,
      shr-bit_or i x (x / 4),
      ap (shr i) q,
      shr_comm i 2 x,
      h i,
      h (suc (suc i)),
      shr_comm i 2 a,
    )

smear_4 : (a x : ℕ) → Smears 16 a x → Smears 256 a (bit_or x (x / 16))
smear_4 a x h i =
    let q : x / 16 ≡ shr 4 x = omega arith in
    omega (
      arith,
      shr-bit_or i x (x / 16),
      ap (shr i) q,
      shr_comm i 4 x,
      h i,
      h (suc (suc (suc (suc i)))),
      shr_comm i 4 a,
    )

smear_8 : (a x : ℕ) → Smears 256 a x → Smears 65536 a (bit_or x (x / 256))
smear_8 a x h i =
    let q : x / 256 ≡ shr 8 x = omega arith in
    omega (
      arith,
      shr-bit_or i x (x / 256),
      ap (shr i) q,
      shr_comm i 8 x,
      h i,
      h (8 + i),
      shr_add 8 i x,
      shr_add 8 i a,
      shr_comm i 8 a,
    )

smear_16 : (a x : ℕ) → Smears 65536 a x → Smears u32 a (bit_or x (x / 65536))
smear_16 a x h i =
    let q : x / 65536 ≡ shr 16 x = omega arith in
    omega (
      arith,
      shr-bit_or i x (x / 65536),
      ap (shr i) q,
      shr_comm i 16 x,
      h i,
      h (16 + i),
      shr_add 16 i x,
      shr_add 16 i a,
      shr_comm i 16 a,
    )

shr-le : (i a : ℕ) → shr i a ≤ a
shr-le zero a = omega arith
shr-le (suc i) a = omega (arith, shr-le i (a / 2))

-- A number with no bit set is 0.
no_bits : (n f : ℕ) → f ≤ n → ((i : ℕ) → shr i f % 2 ≡ 0) → f ≡ 0
no_bits zero f h z = omega arith
no_bits (suc n) f h z = elim (Bool-cases (f == 0)) [
  | inl e ↦ (==_iff f 0).0 e
  | inr e ↦
      let ne = ==_false f 0 e in
      omega (arith, z 0, no_bits n (f / 2) (omega arith) (λ i. z (suc i)))
]

-- A number whose bits are set up to the highest bit of `a` is one less than a power of two.
full_bits :
    (n a f : ℕ)
    → a ≤ n
    → ((i : ℕ) → shr i f % 2 ≡ min 1 (shr i a))
    → (k : ℕ) × (f + 1 ≡ 2 ^ k) × (a < 2 ^ k) × (2 ^ k ≤ max 1 (2 * a))
full_bits zero a f h bits =
    let za : a ≡ 0 = omega arith in
    let zf = no_bits f f (omega arith) (λ i. omega (arith, bits i, shr-le i a)) in
    (0, omega arith, omega arith, omega arith)
full_bits (suc n) a f h bits = elim (Bool-cases (a == 0)) [
  | inl e ↦
      let za = (==_iff a 0).0 e in
      let zf = no_bits f f (omega arith) (λ i. omega (arith, bits i, shr-le i a)) in
      (0, omega arith, omega arith, omega arith)
  | inr e ↦
      let ne = ==_false a 0 e in
      let (k, p, q, r) = full_bits n (a / 2) (f / 2) (omega arith) (λ i. bits (suc i)) in
      let b = bits 0 in let s = pow-suc 2 k in (suc k, omega arith, omega arith, omega arith)
]

smear-Smears : (a : ℕ) → Smears u32 a (smear a)
unfolding smear
smear-Smears a =
    let b = smear_1 a in
    let c = smear_2 a _ b in let d = smear_4 a _ c in let e = smear_8 a _ d in smear_16 a _ e

smear_full :
    (a : ℕ) → a < u32 → (k : ℕ) × (smear a + 1 ≡ 2 ^ k) × (a < 2 ^ k) × (2 ^ k ≤ max 1 (2 * a))
smear_full a h =
    full_bits a a (smear a) (omega arith) (λ i. omega (arith, smear-Smears a i, shr-le i a))

-- The last two steps of `round_next_power_two`, where they do not wrap.
round_step :
    (f v : ℕ) → f + 1 < u32 → add_u32 (add_u32 f 1) (if add_u32 f 1 == 0 then 1 else 0) ≡ f + 1
round_step f v h = ground arith

-- For 1 to 2 ^ 31 `round_next_power_two` returns the least power of two that is not below.
pub round_next_power_two_lem :
    (v : ℕ)
    → 0 < v
    → v ≤ 2147483648
    → (k : ℕ) × (round_next_power_two v ≡ 2 ^ k)
      × (v ≤ round_next_power_two v)
      × (round_next_power_two v < 2 * v)
round_next_power_two_lem v p h =
    let small = dec_u32-pos v p (omega arith) in
    let (k, q, r, s) = smear_full (dec_u32 v) (omega arith) in
    let e : round_next_power_two v ≡ smear (dec_u32 v) + 1 =
      unfold round_next_power_two in round_step (smear (dec_u32 v)) v (omega arith) in
    (k, e ∙ q, omega arith, omega arith)
