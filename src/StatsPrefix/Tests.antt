-- ===== src/StatsPrefix/Tests.antt =====
-- memcached/stats_prefix.c: a few keys, all in one bucket.
use kvsev.Prelude.{ℕ, ◌+◌, ◌*◌, ◌^◌, ◌<◌, arith, ◌≡◌, refl, true, some, [], ◌∷◌, ◌++◌}
use kvsev.Prelude.Bytes.{same_bytes}
use kvsev.Prelude.Outcome.{done}
use kvsev.Merkle.Config.{Bytes}
use kvsev.Text.Numbers.Decimal.{decimal_loop, decimal}
use kvsev.StatsPrefix
use kvsev.StatsPrefix.{State, all_stats, text_end}
use kvsev.StatsPrefix.Accounts.{total, unit_weight, prefix_length}
use kvsev.StatsPrefix.Dump.{lines, started, got, Reaches-dump}

abbrev one_bucket : Bytes → ℕ
one_bucket p = 0

-- "ab:c" and "a:c"
abbrev long_key : Bytes
long_key = 97 ∷ 98 ∷ 58 ∷ 99 ∷ []

abbrev short_key : Bytes
short_key = 97 ∷ 58 ∷ 99 ∷ []

abbrev after_get : State
after_get = StatsPrefix.record_get one_bucket true (StatsPrefix.init 58) long_key true

-- The functions evaluated.
program : Unit {0}
unfolding StatsPrefix.init StatsPrefix.prefix_of StatsPrefix.same_start StatsPrefix.search
    StatsPrefix.insert StatsPrefix.find StatsPrefix.change StatsPrefix.record_get StatsPrefix.line
    StatsPrefix.dump_size StatsPrefix.dump_loop StatsPrefix.finish_dump StatsPrefix.dump same_bytes
    decimal_loop decimal
program = tt

-- "PREFIX ab get 1 hit 1 set 0 del 0"
one_line :
    lines (all_stats after_get.prefix_stats)
    ≡ 80 ∷ 82 ∷ 69 ∷ 70 ∷ 73 ∷ 88 ∷ 32 ∷ 97 ∷ 98 ∷ 32 ∷ 103 ∷ 101 ∷ 116 ∷ 32 ∷ 49 ∷ 32 ∷ 104 ∷ 105
      ∷ 116 ∷ 32 ∷ 49 ∷ 32 ∷ 115 ∷ 101 ∷ 116 ∷ 32 ∷ 48 ∷ 32 ∷ 100 ∷ 101 ∷ 108 ∷ 32 ∷ 48 ∷ 13 ∷ 10
      ∷ []
unfolding program
one_line = refl

-- The prefix "a" is answered by the statistics of "ab".
shorter_found : (StatsPrefix.find one_bucket true after_get short_key).1 ≡ some (0, 0)
unfolding program
shorter_found = refl

small :
    total prefix_length (all_stats after_get.prefix_stats)
      + 109 * total unit_weight (all_stats after_get.prefix_stats)
    < 2 ^ 31
unfolding program
small = omega arith

Reaches-dump_example :
    StatsPrefix.dump true after_get
    ≡ done (some (lines (all_stats after_get.prefix_stats) ++ text_end))
Reaches-dump_example = Reaches-dump one_bucket after_get (got true long_key true (started 58)) small
