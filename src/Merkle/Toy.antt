-- ===== src/Merkle/Toy.antt =====
-- A stand-in for SHA-256 in the tests, which works as far as the interface asks.
use kvsev.Prelude.{ℕ, ◌+◌, ◌*◌, ◌%◌, refl, some, [], ◌∷◌, ◌++◌, replicate}
use kvsev.Merkle.Config.{Bytes}
use kvsev.Merkle.Hash.{Sha256, IsSha256}

-- A checksum in place of SHA-256.
abbrev pub checksum : Bytes → ℕ
checksum [] = 1
checksum (x ∷ m) = (x + 31 * checksum m) % 251

abbrev pub toy : Bytes → Bytes
toy m = checksum m ∷ replicate 31 0

abbrev pub toy_sha : Sha256
toy_sha = record {
  Context = Bytes;
  reset = some [];
  input = λ c m. some (c ++ m);
  result = λ c. some (toy c);
}

pub toy_works : IsSha256 toy_sha toy
toy_works = record {
  after = λ m. m;
  starts = refl;
  feeds = λ m n _. refl;
  ends = λ m _. refl;
  sized = λ m. refl;
}
