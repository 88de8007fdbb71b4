-- ===== src/Lru/Chains.antt =====
-- memcached/items.c: items linked by `prev` and `next`, as a list of addresses.
use kvsev.Prelude.{
  ℕ, ◌≡◌, ◌≢◌, refl, sym, ap, ◌∙◌, Option, none, some, List, [], ◌∷◌, ◌++◌, ◌==◌, ==_iff, ==_ne,
  if_true, if_false,
}
use kvsev.Lru.{Node, put, set_prev, set_next}

-- The first address, or `e`; the last one, or `p`.
abbrev pub first_or : List ℕ → Option ℕ → Option ℕ
first_or [] e = e
first_or (x ∷ xs) e = some x

abbrev pub last_or : Option ℕ → List ℕ → Option ℕ
last_or p [] = p
last_or p (x ∷ xs) = last_or (some x) xs

abbrev pub Absent : ℕ → List ℕ → Type 0
Absent a [] = Unit {0}
Absent a (x ∷ xs) = (a ≢ x) × Absent a xs

abbrev pub NoDup : List ℕ → Type 0
NoDup [] = Unit {0}
NoDup (x ∷ xs) = Absent x xs × NoDup xs

-- The items `xs` are linked both ways, from `p` before them to `e` behind them.
abbrev pub Chain : (ℕ → Node) → Option ℕ → List ℕ → Option ℕ → Type 0
Chain node p [] e = Unit {0}
Chain node p (x ∷ xs) e =
    ((node x).prev ≡ p) × ((node x).next ≡ first_or xs e) × Chain node (some x) xs e

pub put_self {ℓ} : {A : Type ℓ} (f : ℕ → A) (a : ℕ) (v : A) → put f a v a ≡ v
put_self f a v = if_true (a == a) v (f a) ((==_iff a a).1 refl)

pub put_ne {ℓ} : {A : Type ℓ} (f : ℕ → A) (a : ℕ) (v : A) (x : ℕ) → a ≢ x → put f a v x ≡ f x
put_ne f a v x ne = if_false (x == a) v (f x) (==_ne x a (λ e. ne (sym e)))

-- A write to an item outside.
pub Chain-put :
    (node : ℕ → Node) (a : ℕ) (v : Node) (p : Option ℕ) (xs : List ℕ) (e : Option ℕ)
    → Absent a xs
    → Chain node p xs e
    → Chain (put node a v) p xs e
Chain-put node a v p [] e out h = tt
Chain-put node a v p (x ∷ xs) e (ne, out) (back, on, h) = (
  ap (λ o. o.prev) (put_ne node a v x ne) ∙ back,
  ap (λ o. o.next) (put_ne node a v x ne) ∙ on,
  Chain-put node a v (some x) xs e out h,
)

pub first_or-append :
    (xs ys : List ℕ) (e : Option ℕ) → first_or (xs ++ ys) e ≡ first_or xs (first_or ys e)
first_or-append [] ys e = refl
first_or-append (x ∷ xs) ys e = refl

pub last_or-append :
    (p : Option ℕ) (xs ys : List ℕ) → last_or p (xs ++ ys) ≡ last_or (last_or p xs) ys
last_or-append p [] ys = refl
last_or-append p (x ∷ xs) ys = last_or-append (some x) xs ys

-- A chain in two parts.
pub Chain-split :
    (node : ℕ → Node) (p : Option ℕ) (xs ys : List ℕ) (e : Option ℕ)
    → Chain node p (xs ++ ys) e
    → Chain node p xs (first_or ys e) × Chain node (last_or p xs) ys e
Chain-split node p [] ys e h = (tt, h)
Chain-split node p (x ∷ xs) ys e (back, on, h) =
    let (l, r) = Chain-split node (some x) xs ys e h in ((back, on ∙ first_or-append xs ys e, l), r)

pub Chain-join :
    (node : ℕ → Node) (p : Option ℕ) (xs ys : List ℕ) (e : Option ℕ)
    → Chain node p xs (first_or ys e)
    → Chain node (last_or p xs) ys e
    → Chain node p (xs ++ ys) e
Chain-join node p [] ys e l r = r
Chain-join node p (x ∷ xs) ys e (back, on, l) r =
    (back, on ∙ sym (first_or-append xs ys e), Chain-join node (some x) xs ys e l r)

-- The item before a chain is another.
pub Chain-before :
    (node : ℕ → Node) (p p' : Option ℕ) (xs : List ℕ) (e : Option ℕ)
    → NoDup xs
    → Chain node p xs e
    → Chain (set_prev node (first_or xs none) p') p' xs e
unfolding set_prev
Chain-before node p p' [] e fresh h = tt
Chain-before node p p' (x ∷ xs) e (out, fresh) (back, on, h) =
    let v : Node = record (node x) { prev = p' } in
    (
      ap (λ o. o.prev) (put_self node x v),
      ap (λ o. o.next) (put_self node x v) ∙ on,
      Chain-put node x v (some x) xs e out h,
    )

pub Absent-last :
    (x y : ℕ) (xs : List ℕ) → Absent x (y ∷ xs) → (b : ℕ) → last_or (some y) xs ≡ some b → x ≢ b
Absent-last x y [] (ne, out) b h = λ e. ne (cc (h, e))
Absent-last x y (z ∷ xs) (ne, out) b h = Absent-last x z xs out b h

pub set_next_ne :
    (node : ℕ → Node) (m v : Option ℕ) (x : ℕ)
    → ((b : ℕ) → m ≡ some b → x ≢ b)
    → set_next node m v x ≡ node x
unfolding set_next
set_next_ne node none v x h = refl
set_next_ne node (some b) v x h = put_ne node b _ x (λ e. h b refl (sym e))

-- The item behind a chain is another.
pub Chain-behind :
    (node : ℕ → Node) (p : Option ℕ) (xs : List ℕ) (e e' : Option ℕ)
    → NoDup xs
    → Chain node p xs e
    → Chain (set_next node (last_or none xs) e') p xs e'
unfolding set_next
Chain-behind node p [] e e' fresh h = tt
Chain-behind node p (x ∷ []) e e' fresh (back, on, h) =
    let v : Node = record (node x) { next = e' } in
    (ap (λ o. o.prev) (put_self node x v) ∙ back, ap (λ o. o.next) (put_self node x v), tt)
Chain-behind node p (x ∷ y ∷ xs) e e' (out, fresh) (back, on, h) =
    let same = set_next_ne node (last_or (some y) xs) e' x (Absent-last x y xs out) in
    (
      ap (λ o. o.prev) same ∙ back,
      ap (λ o. o.next) same ∙ on,
      Chain-behind node (some x) (y ∷ xs) e e' fresh h,
    )

pub set_prev_ne :
    (node : ℕ → Node) (m v : Option ℕ) (x : ℕ)
    → ((b : ℕ) → m ≡ some b → x ≢ b)
    → set_prev node m v x ≡ node x
unfolding set_prev
set_prev_ne node none v x h = refl
set_prev_ne node (some b) v x h = put_ne node b _ x (λ e. h b refl (sym e))
