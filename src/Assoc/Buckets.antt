-- ===== src/Assoc/Buckets.antt =====
-- memcached/assoc.c: one array of buckets, `primary_hashtable` or `old_hashtable`.
use kvsev.Prelude.{
  ℕ, ◌<◌, ◌≡◌, ◌∙◌, ap, ◌≢◌, none, List, [], arith, ◌==◌, ==_iff, ==_false, Bool-cases, inl, inr,
  length, get_or, set, length-set, get_or-set_self, get_or-set_ne,
}
use kvsev.Merkle.ArrayList.Powers.{pow-pos}
use kvsev.Assoc.{Key, Chain, hashsize, masked, find_in}
use kvsev.Assoc.Chain.{Distinct}

pub masked-lt : (hv n : ℕ) → masked hv n < hashsize n
masked-lt hv n = omega (arith, pow-pos n)

module _ (hash : Key → ℕ) where
  -- Each key is once in the array, in the bucket of its hash.
  pub record Buckets (n : ℕ) (xs : List Chain) : Type 0 where
    pub width : length xs ≡ hashsize n
    pub distinct : (b : ℕ) → Distinct (get_or xs b [])
    pub home : (k : Key) (b : ℕ) → masked (hash k) n ≢ b → find_in k (get_or xs b []) ≡ none

  -- Another chain for the bucket of `key`, which differs from the old one only at `key`.
  module _ (n : ℕ) (xs : List Chain) (ok : Buckets n xs) (key : Key) (c : Chain) (once : Distinct c)
      (others : (k : Key)
        → k ≢ key
        → find_in k c ≡ find_in k (get_or xs (masked (hash key) n) [])) where
    pub get_or-put_self : get_or (set xs (masked (hash key) n) c) (masked (hash key) n) [] ≡ c
    get_or-put_self =
        get_or-set_self xs (masked (hash key) n) c [] (rw ok.width (masked-lt (hash key) n))

    pub find_in-put_ne :
        (k : Key) (b : ℕ)
        → k ≢ key
        → find_in k (get_or (set xs (masked (hash key) n) c) b []) ≡ find_in k (get_or xs b [])
    find_in-put_ne k b ne = elim (Bool-cases (masked (hash key) n == b)) [
      | inl e ↦
          let z = (==_iff (masked (hash key) n) b).0 e in
          rw (← z) (ap (find_in k) get_or-put_self ∙ others k ne)
      | inr e ↦
          ap (find_in k)
            (get_or-set_ne xs (masked (hash key) n) b c [] (==_false (masked (hash key) n) b e))
    ]

    pub put-Buckets : Buckets n (set xs (masked (hash key) n) c)
    put-Buckets = record {
      width = length-set xs (masked (hash key) n) c ∙ ok.width;
      distinct = λ b. elim (Bool-cases (masked (hash key) n == b)) [
        | inl e ↦ let z = (==_iff (masked (hash key) n) b).0 e in rw (← z, get_or-put_self) once
        | inr e ↦
            rw (get_or-set_ne xs (masked (hash key) n) b c [] (==_false (masked (hash key) n) b e))
              (ok.distinct b)
      ];
      home = λ k b ne. elim (Bool-cases (masked (hash key) n == b)) [
        | inl e ↦
            let z = (==_iff (masked (hash key) n) b).0 e in
            let other : k ≢ key = λ w. ne (ap (λ j. masked (hash j) n) w ∙ z) in
            find_in-put_ne k b other ∙ ok.home k b ne
        | inr e ↦
            rw (get_or-set_ne xs (masked (hash key) n) b c [] (==_false (masked (hash key) n) b e))
              (ok.home k b ne)
      ];
    }
