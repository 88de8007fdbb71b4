-- ===== src/Merkle/Tree/State.antt =====
-- src/merkle/mt_impl.c: when the levels of a tree hold given sequences, and reads and writes there.
use kvsev.Prelude.{
  ℕ, ◌<◌, ◌≡◌, refl, sym, ◌∙◌, some, List, ◌==◌, ==_iff, ==_false, Bool-cases, inl, inr,
  if◌then◌else◌, length, get_elem?, set, length-set, get_elem?-set_self, get_elem?-set_ne,
}
use kvsev.Prelude.Bytes.{same_bytes_refl}
use kvsev.Prelude.Outcome.{Outcome, done, ◌>>=◌}
use kvsev.Merkle.Config.{Bytes, tree_levels, success}
use kvsev.Merkle.ArrayList.{ArrayList, Reply, get, get_size}
use kvsev.Merkle.ArrayList.Holds.{Holds}
use kvsev.Merkle.ArrayList.Change.{get-Holds}
use kvsev.Merkle.Tree.{Tree, at_level, get_at, on_level, stored_back, confirm, confirm_at}

-- Level l of the tree holds `f l`.
pub record LevelsAre (t : Tree) (f : ℕ → List Bytes) : Type 0 where
  pub count : length t.level ≡ tree_levels
  pub holds :
      (l : ℕ) → l < tree_levels → (a : ArrayList) × (get_elem? t.level l ≡ some a) × Holds a (f l)

abbrev pub change : (ℕ → List Bytes) → ℕ → List Bytes → ℕ → List Bytes
change f l ys m = if m == l then ys else f m

pub LevelsAre-congr :
    (t : Tree) (f g : ℕ → List Bytes) → ((l : ℕ) → f l ≡ g l) → LevelsAre t f → LevelsAre t g
LevelsAre-congr t f g e h = record {
  count = h.count;
  holds = λ l p. let (a, q, r) = h.holds l p in (a, q, rw (← e l) r);
}

pub at_level-LevelsAre :
    (t : Tree) (f : ℕ → List Bytes) (l : ℕ)
    → LevelsAre t f
    → l < tree_levels
    → (a : ArrayList) × (at_level t l ≡ done a)
      × (get_size a ≡ length (f l))
      × ((q : ℕ) → get a q ≡ done (get_elem? (f l) q))
unfolding at_level get_size
at_level-LevelsAre t f l h p =
    let (a, e, r) = h.holds l p in (a, rw (e, at_level), r.count, λ q. get-Holds a (f l) q r)

pub get_at-LevelsAre :
    (t : Tree) (f : ℕ → List Bytes) (l q : ℕ)
    → LevelsAre t f
    → l < tree_levels
    → get_at t l q ≡ done (get_elem? (f l) q)
unfolding get_at
get_at-LevelsAre t f l q h p =
    let (a, e, size, reads) = at_level-LevelsAre t f l h p in rw e (reads q)

-- A call on one level that turns its sequence into `ys`.
pub on_level-LevelsAre :
    (t : Tree) (f : ℕ → List Bytes) (l : ℕ) (op : ArrayList → Outcome Reply) (ys : List Bytes)
    → LevelsAre t f
    → l < tree_levels
    → ((a : ArrayList)
        → Holds a (f l)
        → (a' : ArrayList) × (op a ≡ done (success, a')) × Holds a' ys)
    → (t' : Tree) × (on_level t l op ≡ done (success, t'))
      × (t'.elems ≡ t.elems)
      × LevelsAre t' (change f l ys)
unfolding on_level at_level stored_back
on_level-LevelsAre t f l op ys h p run =
    let (a, e, r) = h.holds l p in
    let (a', q, r') = run a r in
    (
      record t { level = set t.level l a' },
      rw (e, ◌>>=◌, q),
      refl,
      record {
        count = length-set t.level l a' ∙ h.count;
        holds = λ m pm. elim (Bool-cases (m == l)) [
          | inl same ↦
              let z = (==_iff m l).0 same in
              (a', rw z (get_elem?-set_self t.level l a' (rw h.count p)), rw same r')
          | inr other ↦
              let ne = ==_false m l other in
              let (b, eb, rb) = h.holds m pm in
              (b, get_elem?-set_ne t.level l m a' (λ z. ne (sym z)) ∙ eb, rw other rb)
        ];
      },
    )

-- The final `assert` holds where the level has the digest.
pub confirm_at-LevelsAre :
    (t : Tree) (f : ℕ → List Bytes) (l q : ℕ) (d : Bytes)
    → LevelsAre t f
    → l < tree_levels
    → get_elem? (f l) q ≡ some d
    → confirm_at t l q d ≡ done (success, t)
unfolding confirm_at confirm
confirm_at-LevelsAre t f l q d h p e = rw (get_at-LevelsAre t f l q h p, e, same_bytes_refl d)
