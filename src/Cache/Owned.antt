-- ===== src/Cache/Owned.antt =====
-- memcached/cache.c: which objects are out and which are free.
use kvsev.Prelude.{
  subst, ℕ, suc, ◌+◌, ◌-◌, ◌≤◌, ◌<◌, ◌≡◌, ◌≢◌, refl, sym, ◌∙◌, ap, true, false, not, ◌&&◌, ◌||◌,
  Option, none, some, List, [], ◌∷◌, ◌++◌, ltb, ◌==◌, ltb→lt, lt→ltb, ge→ltb, if◌then◌else◌,
  if_true, if_false, arith, length, length-append, Bool-cases, inl, inr, ◌⊎◌, ==_iff,
}
use kvsev.Prelude.Outcome.{Outcome, done}
use kvsev.Cache.{Cache, take_first, take_new, do_cache_alloc, do_cache_free}

-- How often an object stands in a list, and a list less the first stand of one.
abbrev pub tally : ℕ → ℕ → ℕ
tally o x = if o == x then 1 else 0

abbrev pub occurs : ℕ → List ℕ → ℕ
occurs o [] = 0
occurs o (x ∷ rest) = tally o x + occurs o rest

abbrev pub erase : ℕ → List ℕ → List ℕ
erase o [] = []
erase o (x ∷ rest) = let less = erase o rest in if o == x then rest else x ∷ less

pub occurs-append : (o : ℕ) (xs ys : List ℕ) → occurs o (xs ++ ys) ≡ occurs o xs + occurs o ys
occurs-append o [] ys = omega arith
occurs-append o (x ∷ xs) ys = omega (arith, occurs-append o xs ys)

-- The objects that are out and the free ones are different objects, and all are counted.
pub record Owned (c : Cache) (out : List ℕ) : Type 0 where
  pub free_count : c.freecurr ≡ length c.head
  pub total_count : c.total ≡ length out + length c.head
  pub single : (o : ℕ) → occurs o out + occurs o c.head ≤ 1

-- What an allocation leaves.
abbrev Allocated : List ℕ → Cache → Outcome (Cache × Option ℕ) → Type 0
Allocated out c r =
    ((o : ℕ) × (c' : Cache) × (r ≡ done (c', some o))
      × (occurs o out ≡ 0)
      × Owned c' (o ∷ out)
      × ((c'.total ≡ c.total) ⊎ ((c.limit ≡ 0) ⊎ (c'.total ≤ c.limit))))
    ⊎ ((r ≡ done (c, none)) × (c.freecurr ≡ 0))

take_first-Allocated :
    (c : Cache) (out : List ℕ) (o : ℕ) (rest : List ℕ)
    → Owned c out
    → c.head ≡ o ∷ rest
    → Allocated out c (take_first c (o ∷ rest))
unfolding take_first
take_first-Allocated c out o rest w e =
    let long : length c.head ≡ suc (length rest) = ap length e in
    let free = w.free_count in
    let total = w.total_count in
    let both : (j : ℕ) → occurs j out + (tally j o + occurs j rest) ≤ 1 = λ j. rw e at w.single j in
    let here : tally o o ≡ 1 = if_true (o == o) 1 0 ((==_iff o o).1 refl) in
    let once = both o in
    inl (
      o,
      record c { head = rest; freecurr = c.freecurr - 1 },
      refl,
      omega (arith, once, here),
      record {
        free_count = omega (arith, free, long);
        total_count = omega (arith, total, long);
        single = λ j. let two = both j in omega (arith, two);
      },
      inl refl,
    )

take_new-Allocated :
    (mem : Option ℕ) (c : Cache) (out : List ℕ)
    → Owned c out
    → ((o : ℕ) → mem ≡ some o → occurs o out + occurs o c.head ≡ 0)
    → c.freecurr ≡ 0
    → (c.limit == 0 || ltb c.total c.limit) ≡ true
    → Allocated out c (done (take_new c mem))
unfolding take_new
take_new-Allocated none c out w fresh empty room = inr (refl, empty)
take_new-Allocated (some o) c out w fresh empty room =
    let new = fresh o refl in
    let total = w.total_count in
    inl (
      o,
      record c { total = c.total + 1 },
      refl,
      omega (arith, new),
      record {
        free_count = w.free_count;
        total_count = omega (arith, total);
        single = λ j. elim (Bool-cases (j == o)) [
          | inl t ↦
              let z = (==_iff j o).0 t in
              let one : tally j o ≡ 1 = if_true (j == o) 1 0 t in
              let gone : occurs j out + occurs j c.head ≡ 0 = rw z new in omega (arith, one, gone)
          | inr t ↦
              let nothing : tally j o ≡ 0 = if_false (j == o) 1 0 t in
              let two = w.single j in omega (arith, nothing, two)
        ];
      },
      inr (below room),
    )
  where
    below : (c.limit == 0 || ltb c.total c.limit) ≡ true → (c.limit ≡ 0) ⊎ (c.total + 1 ≤ c.limit)
    below room = elim (Bool-cases (c.limit == 0)) [
      | inl t ↦ inl ((==_iff c.limit 0).0 t)
      | inr t ↦ let lt = ltb→lt c.total c.limit (rw t at room) in inr (omega (arith, lt))
    ]

-- An allocation of a well-kept cache, where `malloc` returns no object that is out or free, never goes
-- through NULL. It hands out an object that is not out, and keeps the account; the count of the objects
-- stays, or there is no limit, or the limit is kept. Or it hands out none and changes nothing, and then
-- no object was free.
pub do_cache_alloc_lem :
    (mem : Option ℕ) (c : Cache) (out : List ℕ)
    → Owned c out
    → ((o : ℕ) → mem ≡ some o → occurs o out + occurs o c.head ≡ 0)
    → ((o : ℕ) × (c' : Cache) × (do_cache_alloc mem c ≡ done (c', some o))
        × (occurs o out ≡ 0)
        × Owned c' (o ∷ out)
        × ((c'.total ≡ c.total) ⊎ ((c.limit ≡ 0) ⊎ (c'.total ≤ c.limit))))
      ⊎ ((do_cache_alloc mem c ≡ done (c, none)) × (c.freecurr ≡ 0))
unfolding do_cache_alloc
do_cache_alloc_lem mem c out w fresh = go c.head refl
  where
    go : (h : List ℕ) → c.head ≡ h → Allocated out c (do_cache_alloc mem c)
    go (o ∷ rest) e =
        let long : length c.head ≡ suc (length rest) = ap length e in
        let free = w.free_count in
        let test = lt→ltb 0 c.freecurr (omega (arith, long, free)) in
        subst (Allocated out c)
          (sym (
            if_true (ltb 0 c.freecurr) (take_first c c.head)
              (if c.limit == 0 || ltb c.total c.limit
                then done (take_new c mem)
                else done (c, none))
              test
            ∙ ap (take_first c) e))
          (take_first-Allocated c out o rest w e)
    go [] e =
        let none_free : length c.head ≡ 0 = ap length e in
        let free = w.free_count in
        let empty : c.freecurr ≡ 0 = free ∙ none_free in
        let test = ge→ltb 0 c.freecurr (omega (arith, empty)) in
        elim (Bool-cases (c.limit == 0 || ltb c.total c.limit)) [
          | inl room ↦ rw (test, room) (take_new-Allocated mem c out w fresh empty room)
          | inr full ↦ rw (test, full) (inr (refl, empty))
        ]

length-erase : (o : ℕ) (xs : List ℕ) → occurs o xs ≡ 1 → length (erase o xs) + 1 ≡ length xs
length-erase o [] h = absurd (omega (arith, h))
length-erase o (x ∷ xs) h = elim (Bool-cases (o == x)) [
  | inl t ↦ rw t (omega arith)
  | inr t ↦
      let nothing : tally o x ≡ 0 = if_false (o == x) 1 0 t in
      let rest = length-erase o xs (omega (arith, h, nothing)) in rw t (omega (arith, rest))
]

occurs-erase :
    (j o : ℕ) (xs : List ℕ) → occurs o xs ≡ 1 → occurs j (erase o xs) + tally j o ≡ occurs j xs
occurs-erase j o [] h = absurd (omega (arith, h))
occurs-erase j o (x ∷ xs) h = elim (Bool-cases (o == x)) [
  | inl t ↦
      let z = (==_iff o x).0 t in
      let kept : erase o (x ∷ xs) ≡ xs = if_true (o == x) xs (x ∷ erase o xs) t in
      ap (λ l. occurs j l + tally j o) kept ∙ ap (λ y. occurs j xs + tally j y) z ∙ omega arith
  | inr t ↦
      let nothing : tally o x ≡ 0 = if_false (o == x) 1 0 t in
      let rest = occurs-erase j o xs (omega (arith, h, nothing)) in
      let kept : erase o (x ∷ xs) ≡ x ∷ erase o xs = if_false (o == x) xs (x ∷ erase o xs) t in
      ap (λ l. occurs j l + tally j o) kept ∙ omega (arith, rest)
]

-- Freeing an object that is out keeps the account; above a limit the object is given back, so that the
-- count of the objects goes down by one.
pub do_cache_free_lem :
    (c : Cache) (out : List ℕ) (o : ℕ)
    → Owned c out
    → occurs o out ≡ 1
    → Owned (do_cache_free c o) (erase o out)
      × ((c.limit ≢ 0) → c.limit < c.total → (do_cache_free c o).total + 1 ≡ c.total)
unfolding do_cache_free
do_cache_free_lem c out o w here =
    let free = w.free_count in
    let total = w.total_count in
    let less = length-erase o out here in
    elim (Bool-cases (not (c.limit == 0) && ltb c.limit c.total)) [
      | inl t ↦ rw t (
        record {
          free_count = w.free_count;
          total_count = omega (arith, total, less);
          single = λ j.
              let two = w.single j in
              let gone = occurs-erase j o out here in omega (arith, two, gone);
        },
        λ ne lt. omega (arith, lt),
      )
      | inr t ↦ rw t (
        record {
          free_count = omega (arith, free, length-append c.head (o ∷ []));
          total_count = omega (arith, total, less, length-append c.head (o ∷ []));
          single = λ j.
              let two = w.single j in
              let gone = occurs-erase j o out here in
              let back = occurs-append j c.head (o ∷ []) in omega (arith, two, gone, back);
        },
        λ ne lt. absurd (ne (limit_zero lt t)),
      )
    ]
  where
    limit_zero :
        c.limit < c.total → (not (c.limit == 0) && ltb c.limit c.total) ≡ false → c.limit ≡ 0
    limit_zero lt t = ground (arith, t, lt)
