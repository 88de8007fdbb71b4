-- ===== src/Assoc/Grow.antt =====
-- memcached/assoc.c: assoc_expand and assoc_maintenance_thread, which no lookup notices.
use kvsev.Prelude.{
  ◌⊎◌, ℕ, zero, suc, ◌+◌, ◌≡◌, refl, ◌∙◌, List, [], ◌∷◌, Bool, true, false, inl, inr, get_or, set,
  le→leb, arith, replicate, length-replicate, get_or-replicate, length-set,
}
use kvsev.Assoc.{Key, Chain, Assoc, hashsize, masked, in_old, find, find_in, expand}
use kvsev.Merkle.ArrayList.Powers.{pow-pos}
use kvsev.Assoc.Buckets.{Buckets}
use kvsev.Assoc.Placed.{Placed, in_old_growing, in_old_resting, chain_of-old, chain_of-primary}

module _ (hash : Key → ℕ) where
  -- Every lookup has the same answer.
  abbrev pub SameFinds : Assoc → Assoc → Type 0
  SameFinds s s' = (k : Key) → find s' k (hash k) ≡ find s k (hash k)

  cleared :
      (b : ℕ) (xs : List Chain) (j : ℕ)
      → (get_or (set xs b []) j [] ≡ []) ⊎ (get_or (set xs b []) j [] ≡ get_or xs j [])
  cleared b [] j = inl refl
  cleared zero (x ∷ xs) zero = inl refl
  cleared zero (x ∷ xs) (suc j) = inr refl
  cleared (suc b) (x ∷ xs) zero = inr refl
  cleared (suc b) (x ∷ xs) (suc j) = cleared b xs j

  pub clear-Buckets : (n b : ℕ) (xs : List Chain) → Buckets hash n xs → Buckets hash n (set xs b [])
  unfolding find_in
  clear-Buckets n b xs ok = record {
    width = length-set xs b [] ∙ ok.width;
    distinct = λ j. elim (cleared b xs j) [ inl e ↦ rw e tt | inr e ↦ rw e (ok.distinct j) ];
    home = λ k j ne. elim (cleared b xs j) [ inl e ↦ rw e | inr e ↦ rw e (ok.home k j ne) ];
  }

  pub empty-Buckets : (n : ℕ) → Buckets hash n (replicate (hashsize n) [])
  unfolding find_in
  empty-Buckets n = record {
    width = length-replicate (hashsize n) [];
    distinct = λ b. rw (get_or-replicate {A = Chain} (hashsize n) b []) tt;
    home = λ k b ne. rw (get_or-replicate {A = Chain} (hashsize n) b []);
  }

  -- The start of an expansion, with memory or without, keeps a table that does not grow well-formed
  -- and changes no lookup.
  pub expand_lem :
      (mem : Bool) (s : Assoc)
      → Placed hash s
      → s.expanding ≡ false
      → Placed hash (expand mem s) × SameFinds s (expand mem s)
  unfolding expand find find_in
  expand_lem false s p h =
      let s' : Assoc = record s { old = s.primary } in
      (
        record { buckets = p.buckets; growing = λ x. (cc (x, h)) },
        λ k. rw (
          chain_of-primary s' (hash k) (in_old_resting s' (hash k) h),
          chain_of-primary s (hash k) (in_old_resting s (hash k) h),
        ),
      )
  expand_lem true s p h =
      let s' = expand true s in
      let half : s.hashpower + 1 ≡ suc s.hashpower = omega arith in
      (
        record {
          buckets = empty-Buckets (s.hashpower + 1);
          growing = λ x. record {
            power = s.hashpower;
            half = half;
            old_buckets = p.buckets;
            next = omega (arith, pow-pos s.hashpower);
            not_moved =
                λ k b le. rw (get_or-replicate {A = Chain} (hashsize (s.hashpower + 1)) b []);
          };
        },
        λ k.
            let m = masked (hash k) s.hashpower in
            let e : in_old s' (hash k) ≡ true =
              in_old_growing s' (hash k) s.hashpower refl half ∙ le→leb 0 m (omega arith) in
            rw (
              chain_of-old s' (hash k) s.hashpower e half,
              chain_of-primary s (hash k) (in_old_resting s (hash k) h),
            ),
      )
