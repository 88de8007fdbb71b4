-- ===== src/Assoc/Migrate.antt =====
-- memcached/assoc.c: one round of assoc_maintenance_thread, which moves a bucket.
use kvsev.Prelude.{
  ◌↔◌, ℕ, ◌+◌, ◌*◌, ◌-◌, ◌≤◌, ◌<◌, ◌≡◌, refl, sym, ◌∙◌, ap, ◌≢◌, none, List, [], Bool-cases,
  Option-cases, true, false, inl, inr, get_or, set, if◌then◌else◌, leb→le, le→leb, lt→leb_false,
  arith, ◌==◌, ==_iff, ==_ne, ==_false, leb, get_or-set_ne,
}
use kvsev.Assoc.{
  Key, Chain, Assoc, hashsize, masked, find, find_in, move_chain, migrate, pointer_size,
}
use kvsev.Assoc.Buckets.{masked-lt}
use kvsev.Assoc.Placed.{
  Placed, Growing, in_old_growing, in_old_resting, chain_of-old, chain_of-primary,
}
use kvsev.Assoc.Move.{Moved, Fresh, move_chain-Moved}
use kvsev.Assoc.Grow.{SameFinds, clear-Buckets}

module _ (hash : Key → ℕ) where
  module _ (s : Assoc) (p : Placed hash s) (h : s.expanding ≡ true) where
    -- The chain that is moved, and the arrays after it.
    abbrev g : Growing hash s
    g = p.growing h

    abbrev moving : Chain
    moving = get_or s.old s.expand_bucket []

    abbrev after : List Chain
    after = move_chain hash s.hashpower moving s.primary

    moving-home : (k : Key) → masked (hash k) g.power ≢ s.expand_bucket → find_in k moving ≡ none
    moving-home k ne = g.old_buckets.home k s.expand_bucket ne

    moving-Fresh : Fresh hash s.hashpower moving s.primary
    moving-Fresh k it b e = elim (Bool-cases (masked (hash k) g.power == s.expand_bucket)) [
      | inl t ↦
          let z = (==_iff (masked (hash k) g.power) s.expand_bucket).0 t in
          g.not_moved k b (omega (arith, z))
      | inr t ↦
          let away = moving-home k (==_false (masked (hash k) g.power) s.expand_bucket t) in
          cc (e, away)
    ]

    moved : Moved hash s.hashpower moving s.primary after
    moved =
        move_chain-Moved hash s.hashpower moving s.primary (g.old_buckets.distinct s.expand_bucket)
          p.buckets moving-Fresh

    -- A key of the bucket is found after the move where it was before.
    moving-found :
        (k : Key)
        → masked (hash k) g.power ≡ s.expand_bucket
        → find_in k (get_or after (masked (hash k) s.hashpower) []) ≡ find_in k moving
    moving-found k z = elim (Option-cases (find_in k moving)) [
      | inl e ↦
          moved.stayed k (masked (hash k) s.hashpower) e
          ∙ g.not_moved k (masked (hash k) s.hashpower) (omega (arith, z))
          ∙ sym e
      | inr (it, e) ↦ moved.arrived k it e ∙ sym e
    ]

    -- The other keys are found in the new array as before.
    moving-others :
        (k : Key) (b : ℕ)
        → masked (hash k) g.power ≢ s.expand_bucket
        → find_in k (get_or after b []) ≡ find_in k (get_or s.primary b [])
    moving-others k b ne = moved.stayed k b (moving-home k ne)

    -- The table when more buckets remain, and when none does.
    abbrev more : Assoc
    more = record s {
      primary = after;
      old = set s.old s.expand_bucket [];
      expand_bucket = s.expand_bucket + 1;
    }

    abbrev finished : Assoc
    finished = record more {
      expanding = false;
      old = [];
      hash_bytes = s.hash_bytes - hashsize (s.hashpower - 1) * pointer_size;
      hash_is_expanding = false;
    }

    migrate-more : s.expand_bucket + 1 ≢ hashsize g.power → migrate hash s ≡ more
    unfolding migrate
    migrate-more ne =
        let q : s.hashpower - 1 ≡ g.power = omega (arith, g.half) in
        rw (q, ==_ne (s.expand_bucket + 1) (hashsize g.power) ne)

    migrate-finished : s.expand_bucket + 1 ≡ hashsize g.power → migrate hash s ≡ finished
    unfolding migrate
    migrate-finished e =
        let q : s.hashpower - 1 ≡ g.power = omega (arith, g.half) in
        rw (q, (==_iff (s.expand_bucket + 1) (hashsize g.power)).1 e)

    more-Placed : s.expand_bucket + 1 ≢ hashsize g.power → Placed hash more
    more-Placed ne = record {
      buckets = moved.buckets;
      growing = λ x. record {
        power = g.power;
        half = g.half;
        old_buckets = clear-Buckets hash g.power s.expand_bucket s.old g.old_buckets;
        next = omega (arith, g.next, ne);
        not_moved = λ k b le.
            moving-others k b (λ z. omega (arith, z, le)) ∙ g.not_moved k b (omega (arith, le));
      };
    }

    finished-Placed : Placed hash finished
    finished-Placed = record { buckets = moved.buckets; growing = λ x. cc x }

    -- Where a lookup goes before the move.
    find-old :
        (k : Key)
        → s.expand_bucket ≤ masked (hash k) g.power
        → find s k (hash k) ≡ find_in k (get_or s.old (masked (hash k) g.power) [])
    unfolding find
    find-old k le =
        let e =
          in_old_growing s (hash k) g.power h g.half
          ∙ le→leb s.expand_bucket (masked (hash k) g.power) le in
        ap (find_in k) (chain_of-old s (hash k) g.power e g.half)

    find-primary :
        (k : Key)
        → masked (hash k) g.power < s.expand_bucket
        → find s k (hash k) ≡ find_in k (get_or s.primary (masked (hash k) s.hashpower) [])
    unfolding find
    find-primary k lt =
        let e =
          in_old_growing s (hash k) g.power h g.half
          ∙ lt→leb_false s.expand_bucket (masked (hash k) g.power) lt in
        ap (find_in k) (chain_of-primary s (hash k) e)

    -- The keys of the moved buckets, this one included.
    find-after :
        (k : Key)
        → masked (hash k) g.power ≤ s.expand_bucket
        → find_in k (get_or after (masked (hash k) s.hashpower) []) ≡ find s k (hash k)
    find-after k le = elim (Bool-cases (masked (hash k) g.power == s.expand_bucket)) [
      | inl t ↦
          let z = (==_iff (masked (hash k) g.power) s.expand_bucket).0 t in
          moving-found k z
          ∙ sym (find-old k (omega (arith, z)) ∙ ap (λ b. find_in k (get_or s.old b [])) z)
      | inr t ↦
          let ne = ==_false (masked (hash k) g.power) s.expand_bucket t in
          moving-others k (masked (hash k) s.hashpower) ne
          ∙ sym (find-primary k (omega (arith, ne, le)))
    ]

    more-SameFinds : SameFinds hash s more
    unfolding find
    more-SameFinds k =
        let m = masked (hash k) g.power in
        let e = in_old_growing more (hash k) g.power h g.half in
        elim (Bool-cases (leb (s.expand_bucket + 1) m)) [
          | inl t ↦
              let le = leb→le (s.expand_bucket + 1) m t in
              let same =
                get_or-set_ne {A = Chain} s.old s.expand_bucket m [] []
                  (λ z. omega (arith, z, le)) in
              ap (find_in k) (chain_of-old more (hash k) g.power (e ∙ t) g.half ∙ same)
              ∙ sym (find-old k (omega (arith, le)))
          | inr t ↦
              ap (find_in k) (chain_of-primary more (hash k) (e ∙ t))
              ∙ find-after k (ground (arith, t))
        ]

    finished-SameFinds : s.expand_bucket + 1 ≡ hashsize g.power → SameFinds hash s finished
    unfolding find
    finished-SameFinds last k =
        ap (find_in k) (chain_of-primary finished (hash k) (in_old_resting finished (hash k) refl))
        ∙ find-after k (omega (arith, last, masked-lt (hash k) g.power))

  -- The buckets that an expansion still has to move.
  abbrev pub left : Assoc → ℕ
  left s = if s.expanding then hashsize (s.hashpower - 1) - s.expand_bucket else 0

  -- One bucket moved keeps a growing table well-formed, changes no lookup and leaves one bucket less
  -- to move; the expansion ends exactly when none is left.
  pub migrate_lem :
      (s : Assoc)
      → Placed hash s
      → s.expanding ≡ true
      → Placed hash (migrate hash s)
        × SameFinds hash s (migrate hash s)
        × (left (migrate hash s) + 1 ≡ left s)
        × (((migrate hash s).expanding ≡ false) ↔ (left s ≡ 1))
  migrate_lem s p h =
      let g = p.growing h in
      let q : s.hashpower - 1 ≡ g.power = omega (arith, g.half) in
      elim (Bool-cases (s.expand_bucket + 1 == hashsize g.power)) [
        | inl t ↦
            let last = (==_iff (s.expand_bucket + 1) (hashsize g.power)).0 t in
            rw (migrate-finished s p h last) (
              finished-Placed s p h,
              finished-SameFinds s p h last,
              rw (h, q) (omega (arith, last)),
              (λ x. rw (h, q) (omega (arith, last)), λ x. refl),
            )
        | inr t ↦
            let ne = ==_false (s.expand_bucket + 1) (hashsize g.power) t in
            rw (migrate-more s p h ne) (
              more-Placed s p h ne,
              more-SameFinds s p h,
              rw (h, q) (omega (arith, ne, g.next)),
              (λ x. cc (x, h), λ x. absurd (ne (omega (arith, rw (h, q) at x)))),
            )
      ]
