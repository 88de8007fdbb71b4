-- ===== src/Assoc/Placed.antt =====
-- memcached/assoc.c: where the items of a table stand, before, during and after an expansion.
use kvsev.Prelude.{
  ℕ, suc, ◌-◌, ◌≤◌, ◌<◌, ◌≡◌, true, false, none, [], arith, leb, Bool-cases, inl, inr, get_or,
}
use kvsev.Assoc.{Key, Assoc, hashsize, masked, in_old, chain_of, find_in}
use kvsev.Assoc.Chain.{Distinct}
use kvsev.Assoc.Buckets.{Buckets}

module _ (hash : Key → ℕ) where
  -- While the table grows, the keys of the buckets from `expand_bucket` on are in the old array.
  pub record Growing (s : Assoc) : Type 0 where
    pub power : ℕ
    pub half : s.hashpower ≡ suc power
    pub old_buckets : Buckets hash power s.old
    pub next : s.expand_bucket < hashsize power
    pub not_moved :
        (k : Key) (b : ℕ)
        → s.expand_bucket ≤ masked (hash k) power
        → find_in k (get_or s.primary b []) ≡ none

  -- Each key is once in the table, in the bucket that the operations look in.
  pub record Placed (s : Assoc) : Type 0 where
    pub buckets : Buckets hash s.hashpower s.primary
    pub growing : s.expanding ≡ true → Growing s

-- The test at the head of the operations, in a table that grows and in one that does not.
pub in_old-expanding : (s : Assoc) (hv : ℕ) → in_old s hv ≡ true → s.expanding ≡ true
unfolding in_old
in_old-expanding s hv h = ground (arith, h)

pub in_old_growing :
    (s : Assoc) (hv p : ℕ)
    → s.expanding ≡ true
    → s.hashpower ≡ suc p
    → in_old s hv ≡ leb s.expand_bucket (masked hv p)
unfolding in_old
in_old_growing s hv p e h = let q : s.hashpower - 1 ≡ p = omega arith in rw (e, q)

pub in_old_resting : (s : Assoc) (hv : ℕ) → s.expanding ≡ false → in_old s hv ≡ false
unfolding in_old
in_old_resting s hv e = rw e

pub chain_of-old :
    (s : Assoc) (hv p : ℕ)
    → in_old s hv ≡ true
    → s.hashpower ≡ suc p
    → chain_of s hv ≡ get_or s.old (masked hv p) []
unfolding chain_of
chain_of-old s hv p e h = let q : s.hashpower - 1 ≡ p = omega arith in rw (e, q)

pub chain_of-primary :
    (s : Assoc) (hv : ℕ)
    → in_old s hv ≡ false
    → chain_of s hv ≡ get_or s.primary (masked hv s.hashpower) []
unfolding chain_of
chain_of-primary s hv e = rw e

module _ (hash : Key → ℕ) where
  pub chain_of-Distinct : (s : Assoc) (hv : ℕ) → Placed hash s → Distinct (chain_of s hv)
  chain_of-Distinct s hv p = elim (Bool-cases (in_old s hv)) [
    | inl e ↦
        let g = p.growing (in_old-expanding s hv e) in
        rw (chain_of-old s hv g.power e g.half) (g.old_buckets.distinct (masked hv g.power))
    | inr e ↦ rw (chain_of-primary s hv e) (p.buckets.distinct (masked hv s.hashpower))
  ]
