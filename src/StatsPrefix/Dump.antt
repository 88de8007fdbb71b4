-- ===== src/StatsPrefix/Dump.antt =====
-- memcached/stats_prefix.c: stats_prefix_dump against the size of its buffer.
use mathlib.Core.List.{append-nil, append_assoc}
use kvsev.Prelude.{
  ℕ, zero, suc, ◌+◌, ◌*◌, ◌/◌, ◌%◌, ◌^◌, ◌≤◌, ◌<◌, ◌≡◌, sym, ◌∙◌, ap, Bool, true, some, List, [],
  ◌∷◌, ◌++◌, ◌==◌, length, length-append, Bool-cases, inl, inr, if_true, if_false, lt→ltb, le→leb,
  ltb, leb, lt→leb_false, if◌then◌else◌, arith,
}
use kvsev.Prelude.Outcome.{Outcome, done, fault, bad_access, assert, ◌>>=◌, ◌>>◌}
use kvsev.Merkle.Config.{Bytes}
use kvsev.Text.Numbers.Decimal.{decimal, decimal_loop}
use kvsev.StatsPrefix
use kvsev.StatsPrefix.{PrefixStats, State, all_stats, text_end, llu}
use kvsev.StatsPrefix.Accounts.{
  total, unit_weight, prefix_length, Accounted, init-Accounted, clear-Accounted,
  record_get-Accounted, record_set-Accounted, record_delete-Accounted,
}

length-decimal_loop : (f n : ℕ) (acc : List ℕ) → length (decimal_loop f n acc) ≤ f + length acc
unfolding decimal_loop
length-decimal_loop zero n acc = omega arith
length-decimal_loop (suc f) n acc =
    let digits : List ℕ = (48 + n % 10) ∷ acc in
    let more = decimal_loop f (n / 10) digits in
    elim (Bool-cases (n / 10 == 0)) [
      | inl e ↦ omega (arith, ap length (if_true (n / 10 == 0) digits more e))
      | inr e ↦ omega (
        arith,
        ap length (if_false (n / 10 == 0) digits more e),
        length-decimal_loop f (n / 10) digits,
      )
    ]

length-llu : (n : ℕ) → length (llu n) ≤ 20
unfolding decimal
length-llu n = length-decimal_loop 20 (n % 2 ^ 64) []

-- A line takes its prefix and 109 bytes at most.
length-line : (pfs : PrefixStats) → length (StatsPrefix.line pfs) ≤ length pfs.prefix + 109
unfolding StatsPrefix.line
length-line pfs =
    let r3 = StatsPrefix.text_del ++ (llu pfs.num_deletes ++ StatsPrefix.crlf) in
    let r2 = StatsPrefix.text_set ++ (llu pfs.num_sets ++ r3) in
    let r1 = StatsPrefix.text_hit ++ (llu pfs.num_hits ++ r2) in
    omega (
      arith,
      length-append pfs.prefix (StatsPrefix.text_get ++ (llu pfs.num_gets ++ r1)),
      length-append (llu pfs.num_gets) r1,
      length-append (llu pfs.num_hits) r2,
      length-append (llu pfs.num_sets) r3,
      length-append (llu pfs.num_deletes) StatsPrefix.crlf,
      length-llu pfs.num_gets,
      length-llu pfs.num_hits,
      length-llu pfs.num_sets,
      length-llu pfs.num_deletes,
    )

-- The lines of the prefixes.
abbrev pub lines : List PrefixStats → Bytes
lines [] = []
lines (pfs ∷ more) = StatsPrefix.line pfs ++ lines more

length-lines :
    (xs : List PrefixStats)
    → length (lines xs) ≤ total prefix_length xs + 109 * total unit_weight xs
length-lines [] = omega arith
length-lines (x ∷ xs) =
    omega (arith, length-append (StatsPrefix.line x) (lines xs), length-line x, length-lines xs)

dump_loop_lem :
    (size : ℕ) (xs : List PrefixStats) (buf : Bytes)
    → length buf + (total prefix_length xs + 109 * total unit_weight xs) < size
    → length buf + (total prefix_length xs + 109 * total unit_weight xs) < 2 ^ 31
    → StatsPrefix.dump_loop size xs buf ≡ done (buf ++ lines xs)
unfolding StatsPrefix.dump_loop
dump_loop_lem size [] buf h k = ap done (sym (append-nil buf))
dump_loop_lem size (x ∷ xs) buf h k =
    let l = StatsPrefix.line x in
    let fits = lt→ltb (length buf + length l) size (omega (arith, length-line x)) in
    let later = StatsPrefix.dump_loop size xs (buf ++ l) in
    let low = lt→ltb (length buf + length l) (2 ^ 31) (omega (arith, length-line x)) in
    ap (λ b. assert b >> (if ltb (length buf + length l) (2 ^ 31) then later else fault bad_access))
      fits
    ∙ if_true (ltb (length buf + length l) (2 ^ 31)) later (fault bad_access) low
    ∙ dump_loop_lem size xs (buf ++ l) (omega (arith, length-append buf l, length-line x))
        (omega (arith, length-append buf l, length-line x))
    ∙ ap done (append_assoc buf l (lines xs))

dump_lem :
    (s : State)
    → Accounted s
    → total prefix_length (all_stats s.prefix_stats)
        + 109 * total unit_weight (all_stats s.prefix_stats)
      < 2 ^ 31
    → StatsPrefix.dump true s ≡ done (some (lines (all_stats s.prefix_stats) ++ text_end))
unfolding StatsPrefix.dump StatsPrefix.dump_size StatsPrefix.finish_dump
dump_lem s h k =
    let xs = all_stats s.prefix_stats in
    let size = StatsPrefix.dump_size s in
    let total_size = total prefix_length xs + 109 * total unit_weight xs in
    let prefixes = h.prefixes in
    let sizes = h.sizes in
    let few : s.num_prefixes ≡ total unit_weight xs = omega arith in
    let short : s.total_prefix_size ≡ total prefix_length xs = omega arith in
    let plain_few : StatsPrefix.size_of_int s.num_prefixes ≡ s.num_prefixes =
      if_false (leb (2 ^ 31) s.num_prefixes) _ s.num_prefixes
        (lt→leb_false (2 ^ 31) s.num_prefixes (omega arith)) in
    let plain_short : StatsPrefix.size_of_int s.total_prefix_size ≡ s.total_prefix_size =
      if_false (leb (2 ^ 31) s.total_prefix_size) _ s.total_prefix_size
        (lt→leb_false (2 ^ 31) s.total_prefix_size (omega arith)) in
    let room : total_size + 53 ≡ size = omega arith in
    let fits = le→leb (length (lines xs) + 6) size (omega (arith, length-lines xs)) in
    ap (λ (m : Outcome Bytes). m >>= StatsPrefix.finish_dump size)
      (dump_loop_lem size xs [] (omega arith) (omega arith))
    ∙ if_true _ _ _ fits

-- The states that calls of the functions lead to.
pub data Reaches (hash : Bytes → ℕ) : State → Type 0 where
  started : (delimiter : ℕ) → Reaches hash (StatsPrefix.init delimiter)
  cleared : {s : State} → Reaches hash s → Reaches hash (StatsPrefix.clear s)
  got :
      {s : State} (granted : Bool) (key : Bytes) (is_hit : Bool)
      → Reaches hash s
      → Reaches hash (StatsPrefix.record_get hash granted s key is_hit)
  put :
      {s : State} (granted : Bool) (key : Bytes)
      → Reaches hash s
      → Reaches hash (StatsPrefix.record_set hash granted s key)
  removed :
      {s : State} (granted : Bool) (key : Bytes)
      → Reaches hash s
      → Reaches hash (StatsPrefix.record_delete hash granted s key)

Reaches-Accounted : (hash : Bytes → ℕ) (s : State) → Reaches hash s → Accounted s
Reaches-Accounted hash _ (started delimiter) = init-Accounted delimiter
Reaches-Accounted hash _ (cleared {s} r) = clear-Accounted s
Reaches-Accounted hash _ (got {s} granted key is_hit r) =
    record_get-Accounted hash granted s key is_hit (Reaches-Accounted hash s r)
Reaches-Accounted hash _ (put {s} granted key r) =
    record_set-Accounted hash granted s key (Reaches-Accounted hash s r)
Reaches-Accounted hash _ (removed {s} granted key r) =
    record_delete-Accounted hash granted s key (Reaches-Accounted hash s r)

-- After any calls of the functions, with any answers of the allocator to them, and while the lengths of
-- the prefixes and 109 for each of them stay below 2 ^ 31 together, stats_prefix_dump with memory writes the whole line of each prefix and "END\r\n": no assertion on the length fails, and
-- nothing is written outside of the buffer.
pub Reaches-dump :
    (hash : Bytes → ℕ) (s : State)
    → Reaches hash s
    → total prefix_length (all_stats s.prefix_stats)
        + 109 * total unit_weight (all_stats s.prefix_stats)
      < 2 ^ 31
    → StatsPrefix.dump true s ≡ done (some (lines (all_stats s.prefix_stats) ++ text_end))
Reaches-dump hash s r k = dump_lem s (Reaches-Accounted hash s r) k
