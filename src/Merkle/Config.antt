-- ===== src/Merkle/Config.antt =====
-- src/merkle/merkle_config.h: the limits and the status codes.
use kvsev.Prelude.{ℕ, List}

-- `mt_hash_t` and a caller's tag: bytes.
abbrev pub Bytes : Type 0
Bytes = List ℕ

abbrev pub hash_length : ℕ
hash_length = 32

abbrev pub tree_levels : ℕ
tree_levels = 30

abbrev pub mt_al_max_elems : ℕ
mt_al_max_elems = 536870912

abbrev pub u32 : ℕ
u32 = 4294967296

pub data MtError : Type 0 where
  success out_of_memory illegal_param illegal_state root_mismatch unspecified : MtError

-- What a function leaves that returns bytes through a pointer and a status.
pub data Result {ℓ} (A : Type ℓ) : Type ℓ where
  ok : A → Result A
  err : MtError → Result A
