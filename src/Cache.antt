-- ===== src/Cache.antt =====
-- memcached/cache.c: the cache of objects of one size, as built with NDEBUG, which leaves the red zones
-- out. Objects are addresses; the free list is the list of its objects. The callers of the `do_`
-- functions hold the mutex.
pub mod Owned
mod Tests
use kvsev.Prelude.{
  ℕ, ◌+◌, ◌-◌, Bool, true, false, ◌&&◌, ◌||◌, not, Option, none, some, List, [], ◌∷◌, ◌++◌, ltb,
  ◌==◌, if◌then◌else◌,
}
use kvsev.Prelude.Outcome.{Outcome, done, fault, bad_access}

-- `cache_t`, less its name and the size of its objects; `limit` and `total` are ints, not negative here.
pub record Cache : Type 0 where
  pub head : List ℕ
  pub total : ℕ
  pub freecurr : ℕ
  pub limit : ℕ

-- `cache_create`, where memory is granted.
unfoldable pub cache_create : Cache
cache_create = record { head = []; total = 0; freecurr = 0; limit = 0 }

unfoldable pub cache_set_limit : Cache → ℕ → Cache
cache_set_limit c limit = record c { limit = limit }

-- The head of the free list; without one the code goes through NULL.
unfoldable pub take_first : Cache → List ℕ → Outcome (Cache × Option ℕ)
take_first c [] = fault bad_access
take_first c (o ∷ rest) = done (record c { head = rest; freecurr = c.freecurr - 1 }, some o)

-- A new object: `mem` is the answer of `malloc`.
unfoldable pub take_new : Cache → Option ℕ → Cache × Option ℕ
take_new c none = (c, none)
take_new c (some o) = (record c { total = c.total + 1 }, some o)

unfoldable pub do_cache_alloc : Option ℕ → Cache → Outcome (Cache × Option ℕ)
do_cache_alloc mem c =
    if ltb 0 c.freecurr
    then take_first c c.head
    else if c.limit == 0 || ltb c.total c.limit
    then done (take_new c mem)
    else done (c, none)

unfoldable pub do_cache_free : Cache → ℕ → Cache
do_cache_free c o =
    if not (c.limit == 0) && ltb c.limit c.total
    then record c { total = c.total - 1 }
    else record c { head = c.head ++ o ∷ []; freecurr = c.freecurr + 1 }
