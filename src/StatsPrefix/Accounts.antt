-- ===== src/StatsPrefix/Accounts.antt =====
-- memcached/stats_prefix.c: the number of prefixes and the sum of their lengths.
use kvsev.Prelude.{
  if◌then◌else◌, ◌%◌, ◌^◌, ℕ, zero, suc, ◌+◌, ◌<◌, ◌≡◌, refl, sym, ◌∙◌, ap, Bool, true, false,
  Option, none, some, List, [], ◌∷◌, ◌++◌, length, set, get_or, replicate, length-set, arith,
}
use kvsev.Merkle.Config.{Bytes}
use kvsev.StatsPrefix
use kvsev.StatsPrefix.{PrefixStats, unused, State, prefix_hash_size, all_stats, chain_at}

-- The sum of a measure over the prefixes.
abbrev pub total : (PrefixStats → ℕ) → List PrefixStats → ℕ
total w [] = 0
total w (pfs ∷ more) = w pfs + total w more

abbrev pub unit_weight : PrefixStats → ℕ
unit_weight pfs = 1

abbrev pub prefix_length : PrefixStats → ℕ
prefix_length pfs = length pfs.prefix

module _ (w : PrefixStats → ℕ) where
  pub total-append : (xs ys : List PrefixStats) → total w (xs ++ ys) ≡ total w xs + total w ys
  total-append [] ys = omega arith
  total-append (x ∷ xs) ys = omega (arith, total-append xs ys)

  total-set :
      (f : PrefixStats → PrefixStats) (xs : List PrefixStats) (i : ℕ)
      → ((x : PrefixStats) → w (f x) ≡ w x)
      → total w (set xs i (f (get_or xs i unused))) ≡ total w xs
  total-set f [] i h = refl
  total-set f (x ∷ xs) zero h = omega (arith, h x)
  total-set f (x ∷ xs) (suc i) h = omega (arith, total-set f xs i h)

  -- A change of one place that keeps the measure.
  total-change :
      (f : PrefixStats → PrefixStats) (cs : List (List PrefixStats)) (b i : ℕ)
      → ((x : PrefixStats) → w (f x) ≡ w x)
      → total w
          (all_stats (set cs b (set (get_or cs b []) i (f (get_or (get_or cs b []) i unused)))))
        ≡ total w (all_stats cs)
  total-change f [] b i h = refl
  total-change f (x ∷ cs) zero i h = omega (
    arith,
    total-append (set x i (f (get_or x i unused))) (all_stats cs),
    total-append x (all_stats cs),
    total-set f x i h,
  )
  total-change f (x ∷ cs) (suc b) i h =
      let c = set (get_or cs b []) i (f (get_or (get_or cs b []) i unused)) in
      omega (
        arith,
        total-append x (all_stats cs),
        total-append x (all_stats (set cs b c)),
        total-change f cs b i h,
      )

  -- One chain for another.
  total-all_stats :
      (cs : List (List PrefixStats)) (b : ℕ) (c : List PrefixStats)
      → b < length cs
      → total w (all_stats (set cs b c)) + total w (get_or cs b [])
        ≡ total w (all_stats cs) + total w c
  total-all_stats [] b c h = absurd (omega arith)
  total-all_stats (x ∷ cs) zero c h =
      omega (arith, total-append c (all_stats cs), total-append x (all_stats cs))
  total-all_stats (x ∷ cs) (suc b) c h = omega (
    arith,
    total-append x (all_stats cs),
    total-append x (all_stats (set cs b c)),
    total-all_stats cs b c (omega arith),
  )

-- The counts are those of the chains, in 32 bits.
pub record Accounted (s : State) : Type 0 where
  pub buckets : length s.prefix_stats ≡ prefix_hash_size
  pub prefixes : s.num_prefixes ≡ total unit_weight (all_stats s.prefix_stats) % 2 ^ 32
  pub sizes : s.total_prefix_size ≡ total prefix_length (all_stats s.prefix_stats) % 2 ^ 32

insert-Accounted :
    (s : State) (b : ℕ) (p : Bytes)
    → b < prefix_hash_size
    → Accounted s
    → Accounted (StatsPrefix.insert s b p)
unfolding StatsPrefix.insert
insert-Accounted s b p lt h =
    let c = (record unused { prefix = p }) ∷ chain_at s b in
    let inside : b < length s.prefix_stats = omega (arith, h.buckets) in
    record {
      buckets = length-set s.prefix_stats b c ∙ h.buckets;
      prefixes = omega (arith, h.prefixes, total-all_stats unit_weight s.prefix_stats b c inside);
      sizes = omega (arith, h.sizes, total-all_stats prefix_length s.prefix_stats b c inside);
    }

no_chains-Accounted :
    (n : ℕ)
    → (length {A = List PrefixStats} (replicate n []) ≡ n)
      × ((w : PrefixStats → ℕ) → total w (all_stats (replicate n [])) ≡ 0)
no_chains-Accounted zero = (refl, λ w. refl)
no_chains-Accounted (suc n) = (ap suc (no_chains-Accounted n).0, (no_chains-Accounted n).1)

-- The functions on the statistics keep the counts.
pub init-Accounted : (delimiter : ℕ) → Accounted (StatsPrefix.init delimiter)
unfolding StatsPrefix.init
init-Accounted delimiter =
    let (size, none_there) = no_chains-Accounted prefix_hash_size in
    record {
      buckets = size;
      prefixes = omega (arith, none_there unit_weight);
      sizes = omega (arith, none_there prefix_length);
    }

pub clear-Accounted : (s : State) → Accounted (StatsPrefix.clear s)
unfolding StatsPrefix.clear
clear-Accounted s =
    let (size, none_there) = no_chains-Accounted prefix_hash_size in
    record {
      buckets = size;
      prefixes = omega (arith, none_there unit_weight);
      sizes = omega (arith, none_there prefix_length);
    }

module _ (hash : Bytes → ℕ) where
  found_in-Accounted :
      (granted : Bool) (s : State) (p : Bytes) (m : Option ℕ)
      → Accounted s
      → Accounted
          (elim m as (λ _. State × Option (ℕ × ℕ)) [
            | some i ↦ (s, some (StatsPrefix.bucket hash p, i))
            | none ↦
                if granted
                then (
                  StatsPrefix.insert s (StatsPrefix.bucket hash p) p,
                  some (StatsPrefix.bucket hash p, 0),
                )
                else (s, none)
          ]).0
  found_in-Accounted granted s p (some i) h = h
  found_in-Accounted true s p none h =
      insert-Accounted s (StatsPrefix.bucket hash p) p (omega arith) h
  found_in-Accounted false s p none h = h

  found_for-Accounted :
      (granted : Bool) (s : State) (m : Option Bytes)
      → Accounted s
      → Accounted
          (elim m as (λ _. State × Option (ℕ × ℕ)) [
            | none ↦ (s, none)
            | some p ↦ elim (StatsPrefix.search (chain_at s (StatsPrefix.bucket hash p)) p) [
              | some i ↦ (s, some (StatsPrefix.bucket hash p, i))
              | none ↦
                  if granted
                  then (
                    StatsPrefix.insert s (StatsPrefix.bucket hash p) p,
                    some (StatsPrefix.bucket hash p, 0),
                  )
                  else (s, none)
            ]
          ]).0
  found_for-Accounted granted s none h = h
  found_for-Accounted granted s (some p) h =
      found_in-Accounted granted s p (StatsPrefix.search (chain_at s (StatsPrefix.bucket hash p)) p)
        h

  find-Accounted :
      (granted : Bool) (s : State) (key : Bytes)
      → Accounted s
      → Accounted (StatsPrefix.find hash granted s key).0
  unfolding StatsPrefix.find
  find-Accounted granted s key h =
      found_for-Accounted granted s (StatsPrefix.prefix_of s.prefix_delimiter key) h

  on_found-Accounted :
      (r : State × Option (ℕ × ℕ)) (f : PrefixStats → PrefixStats)
      → ((x : PrefixStats) → length (f x).prefix ≡ length x.prefix)
      → Accounted r.0
      → Accounted (StatsPrefix.on_found hash r f)
  unfolding StatsPrefix.change
  on_found-Accounted (s, none) f keeps h = h
  on_found-Accounted (s, some (b, i)) f keeps h = record {
    buckets =
        length-set s.prefix_stats b (set (chain_at s b) i (f (get_or (chain_at s b) i unused)))
        ∙ h.buckets;
    prefixes =
        h.prefixes
        ∙ ap (λ n. n % 2 ^ 32) (sym (total-change unit_weight f s.prefix_stats b i (λ x. refl)));
    sizes =
        h.sizes
        ∙ ap (λ n. n % 2 ^ 32) (sym (total-change prefix_length f s.prefix_stats b i keeps));
  }

  pub record_get-Accounted :
      (granted : Bool) (s : State) (key : Bytes) (is_hit : Bool)
      → Accounted s
      → Accounted (StatsPrefix.record_get hash granted s key is_hit)
  unfolding StatsPrefix.record_get
  record_get-Accounted granted s key is_hit h =
      on_found-Accounted (StatsPrefix.find hash granted s key) _ (λ x. refl)
        (find-Accounted granted s key h)

  pub record_set-Accounted :
      (granted : Bool) (s : State) (key : Bytes)
      → Accounted s
      → Accounted (StatsPrefix.record_set hash granted s key)
  unfolding StatsPrefix.record_set
  record_set-Accounted granted s key h =
      on_found-Accounted (StatsPrefix.find hash granted s key) _ (λ x. refl)
        (find-Accounted granted s key h)

  pub record_delete-Accounted :
      (granted : Bool) (s : State) (key : Bytes)
      → Accounted s
      → Accounted (StatsPrefix.record_delete hash granted s key)
  unfolding StatsPrefix.record_delete
  record_delete-Accounted granted s key h =
      on_found-Accounted (StatsPrefix.find hash granted s key) _ (λ x. refl)
        (find-Accounted granted s key h)
