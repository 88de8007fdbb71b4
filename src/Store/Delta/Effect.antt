-- ===== src/Store/Delta/Effect.antt =====
-- memcached/memcached.c: what do_add_delta leaves in the store.
use kvsev.Prelude.{ℕ, ◌<◌, ◌≡◌, some, ◌++◌, length, ◌⊎◌}
use kvsev.Merkle.Config.{Bytes}
use kvsev.Text.Numbers.{safe_strtoull}
use kvsev.Text.Numbers.Decimal.{decimal}
use kvsev.Store.Items.{Store, item_at}
use kvsev.Store.Delta.{Delta, ok}
use kvsev.Store.Delta.Value.{numeral}

-- The item under `key` holds `n`, and its MAC is `mac` or what the memory of a new item held.
pub record Counts (key : Bytes) (n : ℕ) (mac held : Bytes) (s : Store) : Type 0 where
  pub address : ℕ
  pub spaces : ℕ
  pub there : s.index key ≡ some address
  pub number : (item_at s address).item_data ≡ numeral n spaces
  pub mac_old : ((item_at s address).mac ≡ mac) ⊎ ((item_at s address).mac ≡ held)

-- An item under `key` that holds `v`.
pub record Holds (key : Bytes) (v k : ℕ) (s : Store) (a : ℕ) : Type 0 where
  pub there : s.index key ≡ some a
  pub inside : a < length s.heap
  pub same_key : (item_at s a).key ≡ key
  pub holds : (item_at s a).item_data ≡ numeral v k

-- What an `incr` or `decr` promises: the reply and the item under `key` hold `n`, as a read with
-- `behind` after the data sees it, and the MAC is `mac` or `held`.
abbrev pub Incremented : Bytes → ℕ → Bytes → Bytes → Bytes → Delta → Type 0
Incremented key n behind mac held r =
    (r.result ≡ ok)
    × (r.buf ≡ decimal n)
    × (b : ℕ) × (r.store.index key ≡ some b)
    × (safe_strtoull ((item_at r.store b).item_data ++ behind) ≡ some n)
    × (((item_at r.store b).mac ≡ mac) ⊎ ((item_at r.store b).mac ≡ held))

-- The promise of a success.
abbrev Counted : Bytes → ℕ → Bytes → Bytes → Delta → Type 0
Counted key n mac held d = (d.result ≡ ok) × (d.buf ≡ decimal n) × Counts key n mac held d.store
