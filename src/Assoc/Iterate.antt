-- ===== src/Assoc/Iterate.antt =====
-- memcached/assoc.c: assoc_iterate, the walk over the table while no expansion runs (the iterator holds
-- the lock of the maintenance thread).
use kvsev.Prelude.{
  ℕ, zero, suc, ◌+◌, ◌≤◌, ◌<◌, ◌≡◌, refl, sym, ap, ◌∙◌, Bool, true, false, Option, none, some, List,
  [], ◌∷◌, ◌++◌, ◌==◌, ==_iff, ==_ne, if◌then◌else◌, length, get_or, drop, arith,
}
use kvsev.Assoc.{Item, Chain, Assoc, hashsize}

-- `struct assoc_iterator`: `next` is the rest of the chain.
pub record Iterator : Type 0 where
  pub bucket : ℕ
  pub bucket_locked : Bool
  pub next : Chain

-- `assoc_get_iterator`
abbrev pub get_iterator : Iterator
get_iterator = record { bucket = 0; bucket_locked = false; next = [] }

-- What the call makes of the iterator, the item, and the return value.
unfoldable pub iterate : Assoc → Iterator → Iterator × Option Item × Bool
iterate s iter =
    let onward : Iterator = record iter { bucket = iter.bucket + 1; bucket_locked = false } in
    if iter.bucket_locked
    then elim iter.next [
      | [] ↦ (onward, none, true)
      | it ∷ rest ↦ (record iter { next = rest }, some it, true)
    ]
    else if iter.bucket == hashsize s.hashpower
    then (iter, none, false)
    else elim (get_or s.primary iter.bucket []) [
      | [] ↦ (onward, none, true)
      | it ∷ rest ↦ (record iter { bucket_locked = true; next = rest }, some it, true)
    ]

-- The calls until one returns false, at most `fuel`: the items, and whether it came to that.
unfoldable pub iterate_all : ℕ → Assoc → Iterator → List Item × Bool
iterate_all zero s iter = ([], false)
iterate_all (suc fuel) s iter =
    let (iter', it, more) = iterate s iter in
    let rest = iterate_all fuel s iter' in
    if more then (elim it [ none ↦ rest.0 | some i ↦ i ∷ rest.0 ], rest.1) else ([], true)

-- All items, bucket by bucket.
abbrev pub items_of : List Chain → List Item
items_of [] = []
items_of (c ∷ chains) = c ++ items_of chains

-- The calls that are enough.
abbrev pub calls : List Chain → ℕ
calls [] = 1
calls (c ∷ chains) = length c + 1 + calls chains

drop_one :
    (b : ℕ) (xs : List Chain) (c : Chain) (cs : List Chain)
    → drop b xs ≡ c ∷ cs
    → (get_or xs b [] ≡ c) × (drop (suc b) xs ≡ cs) × (b < length xs)
drop_one zero [] c cs h = cc h
drop_one zero (x ∷ xs) c cs h = (cc h, cc h, omega arith)
drop_one (suc b) [] c cs h = cc h
drop_one (suc b) (x ∷ xs) c cs h =
    let (at, on, lt) = drop_one b xs c cs h in (at, on, omega (arith, lt))

-- A bucket on the way.
drop_cons :
    (b : ℕ) (xs : List Chain) (c : Chain) (cs : List Chain)
    → drop b xs ≡ c ∷ cs
    → (get_or xs b [] ≡ c) × (drop (b + 1) xs ≡ cs) × (b < length xs)
drop_cons b xs c cs h =
    let (at, on, lt) = drop_one b xs c cs h in
    let next : b + 1 ≡ suc b = omega arith in (at, ap (λ n. drop n xs) next ∙ on, lt)

drop_all : (b : ℕ) (xs : List Chain) → drop b xs ≡ [] → b ≤ length xs → b ≡ length xs
drop_all zero [] h le = refl
drop_all zero (x ∷ xs) h le = cc h
drop_all (suc b) [] h le = absurd (omega arith)
drop_all (suc b) (x ∷ xs) h le = ap suc (drop_all b xs h (omega arith))

module _ (s : Assoc) (whole : hashsize s.hashpower ≡ length s.primary) where
  -- One call, then the others.
  step :
      (n : ℕ) (iter : Iterator) (r : Iterator × Option Item × Bool)
      → iterate s iter ≡ r
      → iterate_all (suc n) s iter ≡ (
          if r.2
          then (
            elim r.1 [ none ↦ (iterate_all n s r.0).0 | some i ↦ i ∷ (iterate_all n s r.0).0 ],
            (iterate_all n s r.0).1,
          )
          else ([], true))
  unfolding iterate_all
  step n iter r e =
      ap
        (λ (x : Iterator × Option Item × Bool).
          if x.2
          then (
            elim x.1 as (λ _. List Item) [
              | none ↦ (iterate_all n s x.0).0
              | some i ↦ i ∷ (iterate_all n s x.0).0
            ],
            (iterate_all n s x.0).1,
          )
          else ([], true))
        e

  -- The answers of a call.
  at_end :
      (b : ℕ) (nx : Chain)
      → b ≡ length s.primary
      → iterate s (record { bucket = b; bucket_locked = false; next = nx })
        ≡ (record { bucket = b; bucket_locked = false; next = nx }, none, false)
  unfolding iterate
  at_end b nx e = rw ((==_iff b (hashsize s.hashpower)).1 (e ∙ sym whole)) refl

  at_empty :
      (b : ℕ) (nx : Chain)
      → b < length s.primary
      → get_or s.primary b [] ≡ []
      → iterate s (record { bucket = b; bucket_locked = false; next = nx })
        ≡ (record { bucket = b + 1; bucket_locked = false; next = nx }, none, true)
  unfolding iterate
  at_empty b nx lt e =
      rw (==_ne b (hashsize s.hashpower) (λ w. omega (arith, w, whole, lt)), e) refl

  at_chain :
      (b : ℕ) (nx : Chain) (it : Item) (rest : Chain)
      → b < length s.primary
      → get_or s.primary b [] ≡ it ∷ rest
      → iterate s (record { bucket = b; bucket_locked = false; next = nx })
        ≡ (record { bucket = b; bucket_locked = true; next = rest }, some it, true)
  unfolding iterate
  at_chain b nx it rest lt e =
      rw (==_ne b (hashsize s.hashpower) (λ w. omega (arith, w, whole, lt)), e) refl

  Unlocked : ℕ → Type 0
  Unlocked n =
      (b : ℕ) (nx : Chain) (cs : List Chain)
      → drop b s.primary ≡ cs
      → b ≤ length s.primary
      → calls cs ≤ n
      → iterate_all n s (record { bucket = b; bucket_locked = false; next = nx })
        ≡ (items_of cs, true)

  Locked : ℕ → Type 0
  Locked n =
      (b : ℕ) (nx : Chain) (cs : List Chain)
      → drop (b + 1) s.primary ≡ cs
      → b < length s.primary
      → length nx + 1 + calls cs ≤ n
      → iterate_all n s (record { bucket = b; bucket_locked = true; next = nx })
        ≡ (nx ++ items_of cs, true)

  from_bucket : (n : ℕ) → Unlocked n → Locked n → Unlocked (suc n)
  unfolding Unlocked Locked
  from_bucket n unlocked locked b nx [] at le few =
      step n _ _ (at_end b nx (drop_all b s.primary at le))
  from_bucket n unlocked locked b nx ([] ∷ cs) at le few =
      let (here, on, lt) = drop_cons b s.primary [] cs at in
      step n _ _ (at_empty b nx lt here)
      ∙ unlocked (b + 1) nx cs on (omega (arith, lt)) (omega (arith, few))
  from_bucket n unlocked locked b nx ((it ∷ rest) ∷ cs) at le few =
      let (here, on, lt) = drop_cons b s.primary (it ∷ rest) cs at in
      step n _ _ (at_chain b nx it rest lt here)
      ∙ ap (λ (r : List Item × Bool). (it ∷ r.0, r.1)) (locked b rest cs on lt (omega (arith, few)))

  from_chain : (n : ℕ) → Unlocked n → Locked n → Locked (suc n)
  unfolding Unlocked Locked iterate
  from_chain n unlocked locked b [] cs at lt few =
      step n _ _ refl ∙ unlocked (b + 1) [] cs at (omega (arith, lt)) (omega (arith, few))
  from_chain n unlocked locked b (it ∷ nx) cs at lt few =
      step n _ _ refl
      ∙ ap (λ (r : List Item × Bool). (it ∷ r.0, r.1)) (locked b nx cs at lt (omega (arith, few)))

  walk : (n : ℕ) → Unlocked n × Locked n
  unfolding Unlocked Locked
  walk zero = (
    λ b nx cs at le few. absurd (some_call cs few),
    λ b nx cs at lt few. absurd (omega (arith, few)),
  )
    where
      some_call : (cs : List Chain) → calls cs ≤ 0 → ⊥
      some_call [] few = omega (arith, few)
      some_call (c ∷ cs) few = omega (arith, few)
  walk (suc n) =
      let (unlocked, locked) = walk n in
      (from_bucket n unlocked locked, from_chain n unlocked locked)

-- A walk over a table of 2 ^ hashpower buckets comes to its end after one call for each bucket and each
-- item, and one more, and has then met exactly the items of the table, bucket by bucket, each as often as
-- it stands there.
pub iterate_all_lem :
    (s : Assoc) (n : ℕ)
    → hashsize s.hashpower ≡ length s.primary
    → calls s.primary ≤ n
    → iterate_all n s get_iterator ≡ (items_of s.primary, true)
unfolding Unlocked
iterate_all_lem s n whole few = (walk s whole n).0 0 [] s.primary refl (omega arith) few
