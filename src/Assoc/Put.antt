-- ===== src/Assoc/Put.antt =====
-- memcached/assoc.c: the write of one chain, by assoc_insert and assoc_delete.
use kvsev.Prelude.{
  ℕ, suc, ◌-◌, ◌≡◌, refl, ◌∙◌, ap, ◌≢◌, true, false, List, [], arith, Bool-cases, inl, inr, get_or,
  set, le→leb,
}
use kvsev.Assoc.{Key, Chain, Assoc, masked, in_old, chain_of, put_chain, find_in}
use kvsev.Assoc.Chain.{Distinct}
use kvsev.Assoc.Buckets.{find_in-put_ne, put-Buckets, get_or-put_self}
use kvsev.Assoc.Placed.{Placed, in_old-expanding, in_old_growing, chain_of-old, chain_of-primary}

-- The two writes.
put_chain-old :
    (s : Assoc) (hv p : ℕ) (c : Chain)
    → in_old s hv ≡ true
    → s.hashpower ≡ suc p
    → put_chain s hv c ≡ record s { old = set s.old (masked hv p) c }
unfolding put_chain
put_chain-old s hv p c e h = let q : s.hashpower - 1 ≡ p = omega arith in rw (e, q)

put_chain-primary :
    (s : Assoc) (hv : ℕ) (c : Chain)
    → in_old s hv ≡ false
    → put_chain s hv c ≡ record s { primary = set s.primary (masked hv s.hashpower) c }
unfolding put_chain
put_chain-primary s hv c e = rw e

-- No test reads the buckets.
in_old-with_old :
    (s : Assoc) (xs : List Chain) (hv : ℕ) → in_old (record s { old = xs }) hv ≡ in_old s hv
unfolding in_old
in_old-with_old s xs hv = refl

in_old-with_primary :
    (s : Assoc) (xs : List Chain) (hv : ℕ) → in_old (record s { primary = xs }) hv ≡ in_old s hv
unfolding in_old
in_old-with_primary s xs hv = refl

module _ (hash : Key → ℕ) where
  -- The chain where `key` is looked for is `c` in `s'`, and the other keys are found as in `s`.
  pub record Swapped (s : Assoc) (key : Key) (c : Chain) (s' : Assoc) : Type 0 where
    pub placed : Placed hash s'
    pub at : chain_of s' (hash key) ≡ c
    pub elsewhere :
        (k : Key) → k ≢ key → find_in k (chain_of s' (hash k)) ≡ find_in k (chain_of s (hash k))

  module _ (s : Assoc) (p : Placed hash s) (key : Key) (c : Chain) (once : Distinct c)
      (others : (k : Key) → k ≢ key → find_in k c ≡ find_in k (chain_of s (hash key))) where
    put_old : (e : in_old s (hash key) ≡ true) → Swapped s key c (put_chain s (hash key) c)
    put_old e =
        let g = p.growing (in_old-expanding s (hash key) e) in
        let q = g.power in
        let xs : List Chain = set s.old (masked (hash key) q) c in
        let s' : Assoc = record s { old = xs } in
        let here : chain_of s (hash key) ≡ get_or s.old (masked (hash key) q) [] =
          chain_of-old s (hash key) q e g.half in
        let like : (k : Key)
            → k ≢ key
            → find_in k c ≡ find_in k (get_or s.old (masked (hash key) q) []) =
          λ k ne. others k ne ∙ ap (find_in k) here in
        let made : Swapped s key c s' = record {
          placed = record {
            buckets = p.buckets;
            growing = λ _. record {
              power = q;
              half = g.half;
              old_buckets = put-Buckets hash q s.old g.old_buckets key c once like;
              next = g.next;
              not_moved = g.not_moved;
            };
          };
          at =
              chain_of-old s' (hash key) q (in_old-with_old s xs (hash key) ∙ e) g.half
              ∙ get_or-put_self hash q s.old g.old_buckets key c once like;
          elsewhere = λ k ne. elim (Bool-cases (in_old s (hash k))) [
            | inl i ↦
                rw
                  (
                    chain_of-old s (hash k) q i g.half,
                    chain_of-old s' (hash k) q (in_old-with_old s xs (hash k) ∙ i) g.half,
                  )
                  (find_in-put_ne hash q s.old g.old_buckets key c once like k (masked (hash k) q)
                    ne)
            | inr i ↦ rw (
              chain_of-primary s (hash k) i,
              chain_of-primary s' (hash k) (in_old-with_old s xs (hash k) ∙ i),
            )
          ];
        } in
        rw (put_chain-old s (hash key) q c e g.half) made

    put_primary : (e : in_old s (hash key) ≡ false) → Swapped s key c (put_chain s (hash key) c)
    put_primary e =
        let n = s.hashpower in
        let xs : List Chain = set s.primary (masked (hash key) n) c in
        let s' : Assoc = record s { primary = xs } in
        let here : chain_of s (hash key) ≡ get_or s.primary (masked (hash key) n) [] =
          chain_of-primary s (hash key) e in
        let like : (k : Key)
            → k ≢ key
            → find_in k c ≡ find_in k (get_or s.primary (masked (hash key) n) []) =
          λ k ne. others k ne ∙ ap (find_in k) here in
        let other : (k : Key) (b : ℕ)
            → k ≢ key
            → find_in k (get_or xs b []) ≡ find_in k (get_or s.primary b []) =
          λ k b ne. find_in-put_ne hash n s.primary p.buckets key c once like k b ne in
        let made : Swapped s key c s' = record {
          placed = record {
            buckets = put-Buckets hash n s.primary p.buckets key c once like;
            growing = λ x.
                let g = p.growing x in
                record {
                  power = g.power;
                  half = g.half;
                  old_buckets = g.old_buckets;
                  next = g.next;
                  not_moved = λ k b le.
                      let ne : k ≢ key = λ w. cc (
                        e,
                        in_old_growing s (hash key) g.power x g.half,
                        le→leb s.expand_bucket (masked (hash key) g.power) (rw (← w) le),
                      ) in
                      other k b ne ∙ g.not_moved k b le;
                };
          };
          at =
              chain_of-primary s' (hash key) (in_old-with_primary s xs (hash key) ∙ e)
              ∙ get_or-put_self hash n s.primary p.buckets key c once like;
          elsewhere = λ k ne. elim (Bool-cases (in_old s (hash k))) [
            | inl i ↦
                let g = p.growing (in_old-expanding s (hash k) i) in
                rw (
                  chain_of-old s (hash k) g.power i g.half,
                  chain_of-old s' (hash k) g.power (in_old-with_primary s xs (hash k) ∙ i) g.half,
                )
            | inr i ↦
                rw
                  (
                    chain_of-primary s (hash k) i,
                    chain_of-primary s' (hash k) (in_old-with_primary s xs (hash k) ∙ i),
                  )
                  (other k (masked (hash k) n) ne)
          ];
        } in
        rw (put_chain-primary s (hash key) c e) made

    pub put_chain-Swapped : Swapped s key c (put_chain s (hash key) c)
    put_chain-Swapped = elim (Bool-cases (in_old s (hash key))) [
      | inl e ↦ put_old e
      | inr e ↦ put_primary e
    ]
