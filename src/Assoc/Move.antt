-- ===== src/Assoc/Move.antt =====
-- memcached/assoc.c: the inner loop of assoc_maintenance_thread, which empties one old bucket.
use kvsev.Prelude.{
  ℕ, ◌≡◌, refl, sym, ◌∙◌, ap, ◌≢◌, none, some, List, [], ◌∷◌, Bool-cases, inl, inr, get_or, set,
}
use kvsev.Assoc.{Key, Item, Chain, masked, matches, find_in, move_chain}
use kvsev.Assoc.Chain.{Distinct, matches→eq, find_in-cons_self, find_in-cons_ne}
use kvsev.Assoc.Buckets.{Buckets, find_in-put_ne, put-Buckets, get_or-put_self}

module _ (hash : Key → ℕ) (n : ℕ) where
  -- `xs'` is `xs` with the items of the chain `c` in their buckets.
  pub record Moved (c : Chain) (xs xs' : List Chain) : Type 0 where
    pub buckets : Buckets hash n xs'
    pub arrived :
        (k : Key) (it : Item)
        → find_in k c ≡ some it
        → find_in k (get_or xs' (masked (hash k) n) []) ≡ some it
    pub stayed :
        (k : Key) (b : ℕ)
        → find_in k c ≡ none
        → find_in k (get_or xs' b []) ≡ find_in k (get_or xs b [])

  -- The keys of the chain are not in the array.
  abbrev pub Fresh : Chain → List Chain → Type 0
  Fresh c xs =
      (k : Key) (it : Item) (b : ℕ) → find_in k c ≡ some it → find_in k (get_or xs b []) ≡ none

  pub move_chain-Moved :
      (c : Chain) (xs : List Chain)
      → Distinct c
      → Buckets hash n xs
      → Fresh c xs
      → Moved c xs (move_chain hash n c xs)
  unfolding move_chain find_in
  move_chain-Moved [] xs d ok fresh = record {
    buckets = ok;
    arrived = λ k it e. cc e;
    stayed = λ k b e. refl;
  }
  move_chain-Moved (i ∷ c) xs d ok fresh =
      let m = masked (hash i.key) n in
      let top : Chain = i ∷ get_or xs m [] in
      let ys : List Chain = set xs m top in
      let here : find_in i.key (i ∷ c) ≡ some i = find_in-cons_self i.key i c refl in
      let like : (k : Key) → k ≢ i.key → find_in k top ≡ find_in k (get_or xs m []) =
        λ k ne. find_in-cons_ne k i (get_or xs m []) ne in
      let once : Distinct top = (fresh i.key i m here, ok.distinct m) in
      let other : (k : Key) (b : ℕ)
          → k ≢ i.key
          → find_in k (get_or ys b []) ≡ find_in k (get_or xs b []) =
        λ k b ne. find_in-put_ne hash n xs ok i.key top once like k b ne in
      let rest : Moved c ys (move_chain hash n c ys) =
        move_chain-Moved c ys d.1 (put-Buckets hash n xs ok i.key top once like) (λ k it b e.
          let ne : k ≢ i.key = λ w. (cc (e, d.0, ap (λ j. find_in j c) w)) in
          other k b ne ∙ fresh k it b (find_in-cons_ne k i c ne ∙ e)) in
      record {
        buckets = rest.buckets;
        arrived = λ k it e. elim (Bool-cases (matches k i)) [
          | inl t ↦
              let w = matches→eq k i t in
              let there : find_in k (get_or (move_chain hash n c ys) (masked (hash k) n) [])
                  ≡ find_in k top =
                rest.stayed k (masked (hash k) n) (ap (λ j. find_in j c) w ∙ d.0)
                ∙ ap (find_in k) (
                    ap (λ j. get_or ys (masked (hash j) n) []) w
                    ∙ get_or-put_self hash n xs ok i.key top once like) in
              there ∙ find_in-cons_self k i (get_or xs m []) w ∙ sym (find_in-cons_self k i c w) ∙ e
          | inr t ↦ rest.arrived k it (rw t at e)
        ];
        stayed = λ k b e.
            let ne : k ≢ i.key = λ w. (cc (e, find_in-cons_self k i c w)) in
            rest.stayed k b (sym (find_in-cons_ne k i c ne) ∙ e) ∙ other k b ne;
      }
