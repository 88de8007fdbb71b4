-- ===== src/StatsPrefix.antt =====
-- memcached/stats_prefix.c: the statistics of the keys by their prefix. The hash function is a parameter,
-- the answers of calloc and malloc are arguments, and the lock is held around each call. The counts of
-- the prefixes are of type int: patterns of 32 bits, which wrap.
pub mod Accounts
pub mod Dump
mod Tests
use kvsev.Prelude.{
  ℕ, suc, ◌+◌, ◌-◌, ◌*◌, ◌%◌, ◌^◌, Bool, true, false, ◌&&◌, Option, none, some, List, [], ◌∷◌, ◌++◌,
  ltb, leb, ◌==◌, if◌then◌else◌, length, take, replicate, set, get_or,
}
use kvsev.Prelude.Bytes.{same_bytes}
use kvsev.Prelude.Outcome.{Outcome, done, fault, bad_access, assert, ◌>>=◌, ◌>>◌}
use kvsev.Merkle.Config.{Bytes}
use kvsev.Text.Numbers.Decimal.{decimal}

-- `prefix_len` is the length of `prefix`.
pub record PrefixStats : Type 0 where
  pub prefix : Bytes
  pub num_gets : ℕ
  pub num_sets : ℕ
  pub num_deletes : ℕ
  pub num_hits : ℕ

abbrev pub unused : PrefixStats
unused = record { prefix = []; num_gets = 0; num_sets = 0; num_deletes = 0; num_hits = 0 }

-- The variables of the file; `prefix_stats` has the chain of each bucket.
pub record State : Type 0 where
  pub prefix_stats : List (List PrefixStats)
  pub prefix_delimiter : ℕ
  pub num_prefixes : ℕ
  pub total_prefix_size : ℕ

abbrev pub prefix_hash_size : ℕ
prefix_hash_size = 256

abbrev no_chains : List (List PrefixStats)
no_chains = replicate prefix_hash_size []

-- `stats_prefix_init`, on the variables as the program starts.
unfoldable init : ℕ → State
init delimiter = record {
  prefix_stats = no_chains;
  prefix_delimiter = delimiter;
  num_prefixes = 0;
  total_prefix_size = 0;
}

unfoldable clear : State → State
clear s = record s { prefix_stats = no_chains; num_prefixes = 0; total_prefix_size = 0 }

-- The bytes before the delimiter, if it comes before the end and before a byte 0.
unfoldable prefix_of : ℕ → Bytes → Option Bytes
prefix_of delimiter [] = none
prefix_of delimiter (c ∷ key) =
    let later = prefix_of delimiter key in
    if c == 0
    then none
    else if c == delimiter
    then some []
    else elim later [ none ↦ none | some p ↦ some (c ∷ p) ]

-- `strncmp(pfs->prefix, key, length) == 0`, for the first `length` bytes `p` of the key, none of them 0.
unfoldable same_start : PrefixStats → Bytes → Bool
same_start pfs p = same_bytes (take (length p) pfs.prefix) p

-- The place in a chain of the first one that the loop accepts.
unfoldable search : List PrefixStats → Bytes → Option ℕ
search [] p = none
search (pfs ∷ chain) p =
    let later = search chain p in
    if same_start pfs p then some 0 else elim later [ none ↦ none | some i ↦ some (suc i) ]

abbrev chain_at : State → ℕ → List PrefixStats
chain_at s b = get_or s.prefix_stats b []

-- A new one at the head of its chain.
unfoldable insert : State → ℕ → Bytes → State
insert s b p = record s {
  prefix_stats = set s.prefix_stats b ((record unused { prefix = p }) ∷ chain_at s b);
  num_prefixes = (s.num_prefixes + 1) % 2 ^ 32;
  total_prefix_size = (s.total_prefix_size + length p) % 2 ^ 32;
}

module _ (hash : Bytes → ℕ) where
  abbrev bucket : Bytes → ℕ
  bucket p = hash p % prefix_hash_size

  -- `stats_prefix_find`: the bucket and the place in its chain. `granted` says whether both requests for
  -- memory are met.
  unfoldable find : Bool → State → Bytes → State × Option (ℕ × ℕ)
  find granted s key = elim (prefix_of s.prefix_delimiter key) [
    | none ↦ (s, none)
    | some p ↦ elim (search (chain_at s (bucket p)) p) [
      | some i ↦ (s, some (bucket p, i))
      | none ↦ if granted then (insert s (bucket p) p, some (bucket p, 0)) else (s, none)
    ]
  ]

  -- The change that a record function makes at a place.
  unfoldable change : State → ℕ × ℕ → (PrefixStats → PrefixStats) → State
  change s (b, i) f = record s {
    prefix_stats = set s.prefix_stats b (set (chain_at s b) i (f (get_or (chain_at s b) i unused)));
  }

  abbrev on_found : State × Option (ℕ × ℕ) → (PrefixStats → PrefixStats) → State
  on_found (s, none) f = s
  on_found (s, some place) f = change s place f

  abbrev one_more : ℕ → ℕ
  one_more n = (n + 1) % 2 ^ 64

  unfoldable record_get : Bool → State → Bytes → Bool → State
  record_get granted s key is_hit = on_found (find granted s key) (λ (pfs : PrefixStats).
      record pfs {
        num_gets = one_more pfs.num_gets;
        num_hits = if is_hit then one_more pfs.num_hits else pfs.num_hits;
      })

  unfoldable record_delete : Bool → State → Bytes → State
  record_delete granted s key =
      on_found (find granted s key)
        (λ (pfs : PrefixStats). record pfs { num_deletes = one_more pfs.num_deletes })

  unfoldable record_set : Bool → State → Bytes → State
  record_set granted s key =
      on_found (find granted s key)
        (λ (pfs : PrefixStats). record pfs { num_sets = one_more pfs.num_sets })

-- "PREFIX ", " get ", " hit ", " set " and " del ", and the line end.
abbrev text_prefix : Bytes
text_prefix = 80 ∷ 82 ∷ 69 ∷ 70 ∷ 73 ∷ 88 ∷ 32 ∷ []

abbrev text_get : Bytes
text_get = 32 ∷ 103 ∷ 101 ∷ 116 ∷ 32 ∷ []

abbrev text_hit : Bytes
text_hit = 32 ∷ 104 ∷ 105 ∷ 116 ∷ 32 ∷ []

abbrev text_set : Bytes
text_set = 32 ∷ 115 ∷ 101 ∷ 116 ∷ 32 ∷ []

abbrev text_del : Bytes
text_del = 32 ∷ 100 ∷ 101 ∷ 108 ∷ 32 ∷ []

abbrev crlf : Bytes
crlf = 13 ∷ 10 ∷ []

-- `%llu` prints 64 bits.
abbrev llu : ℕ → Bytes
llu n = decimal (n % 2 ^ 64)

-- The line of one prefix, in the format of stats_prefix_dump, whose length is 47.
unfoldable line : PrefixStats → Bytes
line pfs =
    text_prefix
    ++ (pfs.prefix
        ++ (text_get
            ++ (llu pfs.num_gets
                ++ (text_hit
                    ++ (llu pfs.num_hits
                        ++ (text_set
                            ++ (llu pfs.num_sets
                                ++ (text_del ++ (llu pfs.num_deletes ++ crlf)))))))))

abbrev format_length : ℕ
format_length = 47

-- An int as a size_t.
abbrev size_of_int : ℕ → ℕ
size_of_int w = if leb (2 ^ 31) w then w + (2 ^ 64 - 2 ^ 32) else w

unfoldable dump_size : State → ℕ
dump_size s =
    (format_length
      + size_of_int s.total_prefix_size
      + size_of_int s.num_prefixes * (format_length - 2 + 4 * (20 - 4))
      + 6)
    % 2 ^ 64

-- The chains one after another.
abbrev all_stats : List (List PrefixStats) → List PrefixStats
all_stats [] = []
all_stats (chain ∷ chains) = chain ++ all_stats chains

-- The loops: the text in the buffer so far, with the assertion on its length. Within it, snprintf cuts
-- nothing off. `pos` is an int: past 2 ^ 31 - 1 it is negative, and `buf + pos` outside of the buffer.
unfoldable dump_loop : ℕ → List PrefixStats → Bytes → Outcome Bytes
dump_loop size [] buf = done buf
dump_loop size (pfs ∷ more) buf =
    let pos = length buf + length (line pfs) in
    let later = dump_loop size more (buf ++ line pfs) in
    assert (ltb pos size) >> (if ltb pos (2 ^ 31) then later else fault bad_access)

-- "END\r\n"
abbrev text_end : Bytes
text_end = 69 ∷ 78 ∷ 68 ∷ crlf

-- `memcpy(buf + pos, "END\r\n", 6)`, the 6th byte being a 0.
unfoldable finish_dump : ℕ → Bytes → Outcome (Option Bytes)
finish_dump size buf =
    if leb (length buf + 6) size then done (some (buf ++ text_end)) else fault bad_access

unfoldable dump : Bool → State → Outcome (Option Bytes)
dump granted s =
    if granted
    then dump_loop (dump_size s) (all_stats s.prefix_stats) [] >>= finish_dump (dump_size s)
    else done none
