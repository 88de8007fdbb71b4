-- ===== src/Merkle/Hash.antt =====
-- src/merkle/mt_crypto.c: the hash of two nodes, over the functions of sha224-256.c, a copy of the
-- code of RFC 6234, which is a parameter.
use kvsev.Prelude.{◌≤◌, ◌≡◌, Option, none, some, [], ◌++◌, length, arith, length-append}
use kvsev.Merkle.Config.{Bytes, hash_length, Result, ok, err, illegal_param, illegal_state}

-- SHA256Reset, SHA256Input and SHA256Result, each `none` where it does not return shaSuccess.
pub record Sha256 : Type 1 where
  pub Context : Type 0
  pub reset : Option Context
  pub input : Context → Bytes → Option Context
  pub result : Context → Option Bytes

-- What RFC 6234 promises of them, for messages of up to 64 bytes: they succeed, the parts of a
-- message add up, and the result is a function of the message with values of 32 bytes.
pub record IsSha256 (sha : Sha256) (digest : Bytes → Bytes) : Type 0 where
  pub after : Bytes → sha.Context
  pub starts : sha.reset ≡ some (after [])
  pub feeds : (m n : Bytes) → length (m ++ n) ≤ 64 → sha.input (after m) n ≡ some (after (m ++ n))
  pub ends : (m : Bytes) → length m ≤ 64 → sha.result (after m) ≡ some (digest m)
  pub sized : (m : Bytes) → length (digest m) ≡ hash_length

module _ (sha : Sha256) where
  unfoldable pub hash_result : Option sha.Context → Result Bytes
  hash_result none = err illegal_state
  hash_result (some c) = elim (sha.result c) [ none ↦ err illegal_state | some d ↦ ok d ]

  unfoldable pub hash_right : Bytes → Option sha.Context → Result Bytes
  hash_right right none = err illegal_state
  hash_right right (some c) = hash_result (sha.input c right)

  unfoldable pub hash_left : Bytes → Bytes → Option sha.Context → Result Bytes
  hash_left left right none = err illegal_state
  hash_left left right (some c) = hash_right right (sha.input c left)

  -- A pointer that is NULL is `none`.
  unfoldable pub mt_hash : Option Bytes → Option Bytes → Result Bytes
  mt_hash none right = err illegal_param
  mt_hash (some l) none = err illegal_param
  mt_hash (some l) (some r) = hash_left l r sha.reset

  -- With a working SHA-256 `mt_hash` succeeds on two hashes, and returns the digest of the first
  -- followed by the second.
  pub mt_hash-digest :
      {digest : Bytes → Bytes}
      → IsSha256 sha digest
      → (l r : Bytes) → length l ≡ hash_length
      → length r ≡ hash_length
      → mt_hash (some l) (some r) ≡ ok (digest (l ++ r))
  unfolding mt_hash hash_left hash_right hash_result
  mt_hash-digest works l r hl hr = rw (
    works.starts,
    works.feeds [] l (omega arith),
    works.feeds l r (omega (arith, length-append l r)),
    works.ends (l ++ r) (omega (arith, length-append l r)),
  )
