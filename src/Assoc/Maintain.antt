-- ===== src/Assoc/Maintain.antt =====
-- memcached/assoc.c: the first table, and the rounds of the maintenance thread.
use kvsev.Prelude.{
  subst, ◌*◌, ℕ, suc, ◌-◌, ◌≤◌, ◌≡◌, inl, inr, refl, ◌∙◌, sym, ap, Bool, true, false, none, some,
  List, [], ◌∷◌, arith, Bool-cases, if◌then◌else◌, if_true, if_false, replicate, ◌==◌,
  get_or-replicate,
}
use kvsev.Assoc.{
  Key, Chain, Assoc, hashsize, find, find_in, init, migrate, bulk_move, maintain, expand, masked,
}
use kvsev.Assoc.Placed.{Placed, chain_of-primary, in_old_resting}
use kvsev.Assoc.Grow.{SameFinds, expand_lem, empty-Buckets}
use kvsev.Assoc.Migrate.{left, migrate_lem}

-- The rounds in which the thread got the lock.
abbrev pub locked_rounds : List Bool → ℕ
locked_rounds [] = 0
locked_rounds (true ∷ rest) = suc (locked_rounds rest)
locked_rounds (false ∷ rest) = locked_rounds rest

module _ (hash : Key → ℕ) where
  left-resting : (s : Assoc) → s.expanding ≡ false → left hash s ≡ 0
  left-resting s h = rw h

  left-zero : (s : Assoc) → Placed hash s → left hash s ≡ 0 → s.expanding ≡ false
  left-zero s p e = elim (Bool-cases s.expanding) [
    | inl x ↦
        let g = p.growing x in
        let q : s.hashpower - 1 ≡ g.power = omega (arith, g.half) in
        absurd (omega (arith, g.next, rw (x, q) at e))
    | inr x ↦ x
  ]

  bulk_move-on :
      (l : Bool) (rest : List Bool) (s : Assoc)
      → s.expanding ≡ true
      → bulk_move hash (l ∷ rest) s ≡ bulk_move hash rest (if l then migrate hash s else s)
  unfolding bulk_move
  bulk_move-on l rest s x =
      if_true s.expanding (bulk_move hash rest (if l then migrate hash s else s)) s x

  bulk_move-off :
      (l : Bool) (rest : List Bool) (s : Assoc)
      → s.expanding ≡ false
      → bulk_move hash (l ∷ rest) s ≡ s
  unfolding bulk_move
  bulk_move-off l rest s x =
      if_false s.expanding (bulk_move hash rest (if l then migrate hash s else s)) s x

  -- `s'` comes from `s` by `n` rounds with the lock.
  abbrev pub Advanced : ℕ → Assoc → Assoc → Type 0
  Advanced n s s' =
      Placed hash s'
      × SameFinds hash s s'
      × (left hash s' ≡ left hash s - n)
      × (left hash s ≤ n → s'.expanding ≡ false)

  Advanced-resting : (n : ℕ) (s : Assoc) → Placed hash s → s.expanding ≡ false → Advanced n s s
  Advanced-resting n s p x =
      let none_left = left-resting s x in (p, λ k. refl, omega (arith, none_left), λ le. x)

  -- The bulk loop keeps the table well-formed and changes no lookup, and moves one bucket for each
  -- round with the lock, as long as buckets are left: so the expansion is over once the thread has had
  -- as many such rounds as buckets were left.
  pub bulk_move_lem :
      (locks : List Bool) (s : Assoc)
      → Placed hash s
      → Placed hash (bulk_move hash locks s)
        × SameFinds hash s (bulk_move hash locks s)
        × (left hash (bulk_move hash locks s) ≡ left hash s - locked_rounds locks)
        × (left hash s ≤ locked_rounds locks → (bulk_move hash locks s).expanding ≡ false)
  unfolding bulk_move
  bulk_move_lem [] s p = (p, λ k. refl, omega arith, λ le. left-zero s p (omega (arith, le)))
  bulk_move_lem (true ∷ rest) s p = elim (Bool-cases s.expanding) [
    | inl x ↦
        let (p1, same, one, last) = migrate_lem hash s p x in
        let (p2, same2, many, over) = bulk_move_lem rest (migrate hash s) p1 in
        let after : Advanced (locked_rounds (true ∷ rest)) s
            (bulk_move hash rest (migrate hash s)) =
          (
            p2,
            λ k. same2 k ∙ same k,
            omega (arith, one, many),
            λ le. over (omega (arith, one, le)),
          ) in
        subst (Advanced (locked_rounds (true ∷ rest)) s) (sym (bulk_move-on true rest s x)) after
    | inr x ↦
        subst (Advanced (locked_rounds (true ∷ rest)) s) (sym (bulk_move-off true rest s x))
          (Advanced-resting (locked_rounds (true ∷ rest)) s p x)
  ]
  bulk_move_lem (false ∷ rest) s p = elim (Bool-cases s.expanding) [
    | inl x ↦
        subst (Advanced (locked_rounds rest) s) (sym (bulk_move-on false rest s x))
          (bulk_move_lem rest s p)
    | inr x ↦
        subst (Advanced (locked_rounds rest) s) (sym (bulk_move-off false rest s x))
          (Advanced-resting (locked_rounds rest) s p x)
  ]

  abbrev Kept : Assoc → Assoc → Type 0
  Kept s t = Placed hash t × SameFinds hash s t

  -- The end of the round, where the table does not grow.
  resting :
      (go_on mem : Bool) (s t : Assoc)
      → t.expanding ≡ false
      → Placed hash t
      → SameFinds hash s t
      → Kept s (if go_on then expand mem t else t)
  resting true mem s t x p same =
      let (p', same') = expand_lem hash mem t p x in (p', λ k. same' k ∙ same k)
  resting false mem s t x p same = (p, same)

  -- A round of the maintenance thread, with whatever locks, signal and memory, keeps the table
  -- well-formed and changes no lookup.
  pub maintain_lem :
      (locks : List Bool) (go_on mem : Bool) (s : Assoc)
      → Placed hash s
      → Placed hash (maintain hash locks go_on mem s)
        × SameFinds hash s (maintain hash locks go_on mem s)
  unfolding maintain
  maintain_lem locks go_on mem s p =
      let s' = bulk_move hash locks s in
      let (p', same, _, _) = bulk_move_lem locks s p in
      elim (Bool-cases s'.expanding) [
        | inl x ↦
            subst (Kept s) (sym (if_true s'.expanding s' (if go_on then expand mem s' else s') x))
              (p', same)
        | inr x ↦
            subst (Kept s) (sym (if_false s'.expanding s' (if go_on then expand mem s' else s') x))
              (resting go_on mem s s' x p' same)
      ]

  -- The table that is built is well-formed and empty.
  pub init-Placed :
      (power : ℕ) (s : Assoc)
      → init true power ≡ some s
      → Placed hash s × ((k : Key) → find s k (hash k) ≡ none)
  unfolding init find find_in
  init-Placed power s h =
      let w : ℕ = if power == 0 then 16 else power in
      let made : Assoc = record {
        hashpower = w;
        primary = replicate (hashsize w) [];
        old = [];
        expanding = false;
        expand_bucket = 0;
        hash_power_level = w;
        hash_bytes = hashsize w * 8;
        hash_is_expanding = false;
      } in
      let same : made ≡ s = (cc h) in
      subst (λ t. Placed hash t × ((k : Key) → find t k (hash k) ≡ none)) same
        (
          record { buckets = empty-Buckets hash w; growing = λ x. cc x },
          λ k. ap (find_in k) (
              chain_of-primary made (hash k) (in_old_resting made (hash k) refl)
              ∙ get_or-replicate {A = Chain} (hashsize w) (masked (hash k) w) []),
        )
