-- ===== src/Cache/Tests.antt =====
-- memcached/cache.c: a cache with one object out and one free.
use kvsev.Prelude.{
  ℕ, ◌+◌, ◌≤◌, ◌<◌, ◌≡◌, ◌≢◌, ◌⊎◌, refl, none, some, List, [], ◌∷◌, arith, Bool-cases, inl, inr,
  ==_iff, if_true, if_false, ◌==◌,
}
use kvsev.Prelude.Outcome.{done}
use kvsev.Cache.{
  Cache, cache_create, cache_set_limit, take_first, take_new, do_cache_alloc, do_cache_free,
}
use kvsev.Cache.Owned.{Owned, occurs, tally, erase, do_cache_alloc_lem, do_cache_free_lem}

abbrev limited : Cache
limited = record { head = 9 ∷ []; total = 2; freecurr = 1; limit = 2 }

abbrev out : List ℕ
out = 7 ∷ []

program : Unit {0}
unfolding cache_create cache_set_limit take_first take_new do_cache_alloc do_cache_free
program = tt

run : do_cache_alloc none limited ≡ done (record limited { head = []; freecurr = 0 }, some 9)
unfolding program
run = refl

over : do_cache_free (record limited { limit = 1 }) 7 ≡ record limited { limit = 1; total = 1 }
unfolding program
over = refl

limited-Owned : Owned limited out
limited-Owned = record {
  free_count = refl;
  total_count = refl;
  single = λ o. elim (Bool-cases (o == 7)) [
    | inl e ↦
        let z = (==_iff o 7).0 e in
        let seven : tally o 7 ≡ 1 = if_true (o == 7) 1 0 e in
        let not_nine : tally o 9 ≡ 0 = rw z in omega (arith, seven, not_nine)
    | inr e ↦
        let not_seven : tally o 7 ≡ 0 = if_false (o == 7) 1 0 e in
        elim (Bool-cases (o == 9)) [
          | inl f ↦
              let nine : tally o 9 ≡ 1 = if_true (o == 9) 1 0 f in omega (arith, nine, not_seven)
          | inr f ↦
              let not_nine : tally o 9 ≡ 0 = if_false (o == 9) 1 0 f in
              omega (arith, not_seven, not_nine)
        ]
  ];
}

do_cache_alloc_lem_example :
    ((o : ℕ) × (c' : Cache) × (do_cache_alloc none limited ≡ done (c', some o))
      × (occurs o out ≡ 0)
      × Owned c' (o ∷ out)
      × ((c'.total ≡ 2) ⊎ ((limited.limit ≡ 0) ⊎ (c'.total ≤ 2))))
    ⊎ ((do_cache_alloc none limited ≡ done (limited, none)) × (limited.freecurr ≡ 0))
do_cache_alloc_lem_example = do_cache_alloc_lem none limited out limited-Owned (λ o e. cc e)

do_cache_free_lem_example :
    Owned (do_cache_free limited 7) (erase 7 out)
    × ((limited.limit ≢ 0) → 2 < 2 → (do_cache_free limited 7).total + 1 ≡ 2)
do_cache_free_lem_example = do_cache_free_lem limited out 7 limited-Owned refl
