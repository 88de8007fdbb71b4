-- ===== src/Assoc/Chain.antt =====
-- memcached/assoc.c: one chain.
use kvsev.Prelude.{
  ◌≡◌, refl, sym, ◌∙◌, ◌≢◌, inl, inr, true, false, none, some, [], ◌∷◌, arith, ==_iff, Bool-cases,
  length,
}
use kvsev.Prelude.Bytes.{same_bytes_refl, same_bytes→eq}
use kvsev.Assoc.{Key, Item, Chain, matches, find_in, remove_in}

-- The two tests on a key decide its equality.
pub matches_self : (k : Key) (it : Item) → k ≡ it.key → matches k it ≡ true
unfolding matches
matches_self k it e =
    rw (e, (==_iff (length it.key) (length it.key)).1 refl, same_bytes_refl it.key)

pub matches→eq : (k : Key) (it : Item) → matches k it ≡ true → k ≡ it.key
unfolding matches
matches→eq k it h = same_bytes→eq k it.key (ground (arith, h))

pub matches_ne : (k : Key) (it : Item) → k ≢ it.key → matches k it ≡ false
matches_ne k it ne = elim (Bool-cases (matches k it)) [
  | inl e ↦ absurd (ne (matches→eq k it e))
  | inr e ↦ e
]

-- A chain has each key once.
abbrev pub Distinct : Chain → Type 0
Distinct [] = Unit {0}
Distinct (it ∷ rest) = (find_in it.key rest ≡ none) × Distinct rest

pub find_in-cons_self :
    (k : Key) (it : Item) (c : Chain) → k ≡ it.key → find_in k (it ∷ c) ≡ some it
unfolding find_in
find_in-cons_self k it c e = rw (matches_self k it e)

pub find_in-cons_ne :
    (k : Key) (it : Item) (c : Chain) → k ≢ it.key → find_in k (it ∷ c) ≡ find_in k c
unfolding find_in
find_in-cons_ne k it c ne = rw (matches_ne k it ne)

-- What is found has the key.
pub find_in-key : (k : Key) (c : Chain) (it : Item) → find_in k c ≡ some it → k ≡ it.key
unfolding find_in
find_in-key k [] it h = cc
find_in-key k (j ∷ c) it h = elim (Bool-cases (matches k j)) [
  | inl e ↦
      let same : some j ≡ some it = rw e at h in
      let e' : j ≡ it = (cc) in rw (← e') (matches→eq k j e)
  | inr e ↦ find_in-key k c it (rw e at h)
]

-- Removal takes the item of the key out, where there is one, and leaves the others.
pub remove_in_lem :
    (k : Key) (c : Chain) (it : Item)
    → Distinct c
    → find_in k c ≡ some it
    → (r : Chain) × (remove_in k c ≡ some r)
      × (find_in k r ≡ none)
      × ((j : Key) → j ≢ k → find_in j r ≡ find_in j c)
      × Distinct r
unfolding find_in remove_in
remove_in_lem k [] it d h = cc
remove_in_lem k (i ∷ c) it d h = elim (Bool-cases (matches k i)) [
  | inl e ↦
      let same = matches→eq k i e in
      (c, rw e, rw same d.0, λ j ne. sym (rw (matches_ne j i (λ w. ne (w ∙ sym same)))), d.1)
  | inr e ↦
      let (r, run, gone, others, dr) = remove_in_lem k c it d.1 (rw e at h) in
      let ne : i.key ≢ k = λ w. (cc (matches_self k i (sym w))) in
      (i ∷ r, rw (e, run), rw (e, gone), λ j nj. rw (others j nj), (others i.key ne ∙ d.0, dr))
]

pub remove_in-none : (k : Key) (c : Chain) → find_in k c ≡ none → remove_in k c ≡ none
unfolding find_in remove_in
remove_in-none k [] h = refl
remove_in-none k (i ∷ c) h = elim (Bool-cases (matches k i)) [
  | inl e ↦ cc (rw e at h)
  | inr e ↦ rw (e, remove_in-none k c (rw e at h))
]
