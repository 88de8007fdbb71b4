-- ===== src/Store/Process/Delete.antt =====
-- memcached/proto_text.c: process_delete_command.
use kvsev.Prelude.{
  ℕ, ◌+◌, ◌-◌, ◌%◌, ◌≤◌, ◌≡◌, refl, sym, ap, ◌∙◌, Bool, true, false, ◌&&◌, ◌||◌, not, Option, none,
  some, List, length, ltb, leb, ◌==◌, if◌then◌else◌, if_true, if_false, if_either, ge→ltb,
  Bool-cases, inl, inr, ◌⊎◌, subst,
}
use kvsev.Prelude.Bytes.{same_bytes, same_bytes→eq}
use kvsev.Assoc.{Key}
use kvsev.Merkle.Config.{Bytes}
use kvsev.Store.Items.{
  Item, Store, item_at, modify, with_key, refcount_incr, do_item_remove, do_item_unlink,
  do_item_get, item_is_flushed, u64,
}
use kvsev.Store.Core.{
  Shrinks, Shrinks-trans, modify_kept, modify-index, do_item_get_lem, do_item_unlink-Shrinks,
  do_item_remove-Shrinks, do_item_remove-index,
}
use kvsev.Store.Secured.{Secured, Shrinks-Secured}
use kvsev.Store.Process.{
  Conn, Turn, Line, out_string, key_token, key_max_length, set_noreply_maybe, delete_valid,
  process_delete_command, deleted, not_found,
}

-- What the hash table says of `key` is an item that is linked, under this key.
abbrev pub Linked : Store → Key → Type 0
Linked s key =
    (a : ℕ) → s.index key ≡ some a → ((item_at s a).key ≡ key) × ((item_at s a).linked ≡ true)

-- The table without `key`.
abbrev pub Without : Store → Key → Store → Type 0
Without s key s' = (k : Key) → s'.index k ≡ with_key s.index key none k

same_table : (s : Store) (key : Key) → s.index key ≡ none → Without s key s
same_table s key h k = elim (Bool-cases (same_bytes k key)) [
  | inl e ↦
      ap s.index (same_bytes→eq k key e) ∙ h ∙ sym (if_true (same_bytes k key) none (s.index k) e)
  | inr e ↦ sym (if_false (same_bytes k key) none (s.index k) e)
]

-- An unlink and the release of the reference.
do_item_unlink-index :
    (s : Store) (a : ℕ)
    → (item_at s a).linked ≡ true
    → (do_item_remove (do_item_unlink s a) a).index ≡ with_key s.index (item_at s a).key none
unfolding do_item_unlink
do_item_unlink-index s a h =
    let gone : Store = record (modify s a (λ o. record o { linked = false })) {
      curr_items = (s.curr_items + (u64 - 1)) % u64;
      index = with_key s.index (item_at s a).key none;
    } in
    do_item_remove-index (do_item_unlink s a) a
    ∙ ap (λ t. t.index) (if_true (item_at s a).linked (do_item_remove gone a) s h)
    ∙ do_item_remove-index gone a

-- A reference more leaves the key and the link of the item.
refcount_incr_lem :
    (s : Store) (a : ℕ)
    → ((item_at (refcount_incr s a) a).key ≡ (item_at s a).key)
      × ((item_at (refcount_incr s a) a).linked ≡ (item_at s a).linked)
      × ((refcount_incr s a).index ≡ s.index)
unfolding refcount_incr
refcount_incr_lem s a =
    let up : Item → Item = λ o. record o { refcount = (o.refcount + 1) % 65536 } in
    (
      modify_kept (λ o. o.key) up s a a (λ o. refl),
      modify_kept (λ o. o.linked) up s a a (λ o. refl),
      modify-index s a up,
    )

unlinked :
    (s : Store) (key : Key) (a : ℕ)
    → Linked s key
    → s.index key ≡ some a
    → Without s key (do_item_remove (do_item_unlink (refcount_incr s a) a) a)
unlinked s key a ok at k =
    let (here, is_linked) = ok a at in
    let (same_key, same_link, same_index) = refcount_incr_lem s a in
    ap (λ m. m k) (do_item_unlink-index (refcount_incr s a) a (same_link ∙ is_linked))
    ∙ ap (λ m. with_key m (item_at (refcount_incr s a) a).key none k) same_index
    ∙ ap (λ x. with_key s.index x none k) (same_key ∙ here)

Fetched : Store → Key → Store × Option ℕ → Type 0
Fetched s key r =
    ((r.1 ≡ none) × Without s key r.0)
    ⊎ ((a : ℕ) × (r.1 ≡ some a) × (r.0 ≡ refcount_incr s a) × (s.index key ≡ some a))

do_item_get-Fetched :
    (s : Store) (key : Key) → Linked s key → Fetched s key (do_item_get none s key)
unfolding do_item_get Fetched
do_item_get-Fetched s key ok = go (s.index key) refl
  where
    go :
        (m : Option ℕ)
        → s.index key ≡ m
        → Fetched s key (elim m [
          | none ↦ (s, none)
          | some a ↦
              let s' = refcount_incr s a in
              let o = item_at s' a in
              if item_is_flushed s o || (not (o.exptime == 0) && leb o.exptime s.current_time)
              then (do_item_remove (do_item_unlink s' a) a, none)
              else (s', some a)
        ])
    go none e = inl (refl, same_table s key e)
    go (some a) e =
        if_either (Fetched s key) _ (inl (refl, unlinked s key a ok e)) (inr (a, refl, refl, e))

-- What follows the search for the item.
abbrev answer : Conn → Store × Option ℕ → Turn
answer c found = elim found.1 [
  | none ↦ out_string c found.0 not_found
  | some a ↦ out_string c (do_item_remove (do_item_unlink found.0 a) a) deleted
]

-- The connection after the test for "noreply".
abbrev pub asked : Conn → List Bytes → Conn
asked c tokens = if ltb 3 (length tokens + 1) then set_noreply_maybe c tokens else c

process_delete_command_run :
    (c : Conn) (s : Store) (tokens : List Bytes)
    → delete_valid (asked c tokens) tokens ≡ true
    → length (key_token tokens) ≤ key_max_length
    → process_delete_command c s tokens
      ≡ answer (asked c tokens) (do_item_get none s (key_token tokens))
unfolding process_delete_command
process_delete_command_run c s tokens valid short =
    rw (valid, ge→ltb key_max_length (length (key_token tokens)) short) refl

pub sent_line : (b : Bool) (l m : Line) → (if b then none else some l) ≡ some m → l ≡ m
sent_line true l m h = cc h
sent_line false l m h = cc h

-- The promise of a delete.
abbrev pub Deleted : Store → Key → Turn → Type 0
Deleted s key r =
    Shrinks s r.store
    × Without s key r.store
    × (r.sent ≡ some deleted → (a : ℕ) × (s.index key ≡ some a))

answer-Deleted :
    (c : Conn) (s : Store) (key : Key) (r : Store × Option ℕ)
    → Linked s key
    → Shrinks s r.0
    → Fetched s key r
    → Deleted s key (answer c r)
unfolding out_string Fetched
answer-Deleted c s key (t, none) ok p (inl (e, w)) =
    (p, w, λ h. cc (sent_line c.noreply not_found deleted h))
answer-Deleted c s key (t, none) ok p (inr (a, e, w, at)) = cc e
answer-Deleted c s key (t, some b) ok p (inl (e, w)) = cc e
answer-Deleted c s key (t, some b) ok p (inr (a, e, w, at)) =
    let b_a : b ≡ a = cc e in
    let gone = do_item_unlink t b in
    (
      Shrinks-trans s t (do_item_remove gone b) p (
          Shrinks-trans t gone (do_item_remove gone b) (do_item_unlink-Shrinks t b)
            (do_item_remove-Shrinks gone b)),
      λ k.
          ap (λ x. (do_item_remove (do_item_unlink t x) x).index k) b_a
          ∙ ap (λ x. (do_item_remove (do_item_unlink x a) a).index k) w
          ∙ unlinked s key a ok at k,
      λ h. (a, at),
    )

-- A valid delete: afterwards the key is not in the hash table, whatever was found, the other keys are
-- where they were, the items in the table stay covered, and DELETED is sent only if the key was there.
-- What the table has under the key is a linked item with this key.
pub process_delete_command_lem :
    (cmac digest : Bytes → Bytes) (c : Conn) (s : Store) (tokens : List Bytes) (xs : List Bytes)
    → Secured cmac digest s xs
    → Linked s (key_token tokens)
    → delete_valid (asked c tokens) tokens ≡ true
    → length (key_token tokens) ≤ key_max_length
    → Secured cmac digest (process_delete_command c s tokens).store xs
      × Without s (key_token tokens) (process_delete_command c s tokens).store
      × ((process_delete_command c s tokens).sent ≡ some deleted
          → (a : ℕ) × (s.index (key_token tokens) ≡ some a))
process_delete_command_lem cmac digest c s tokens xs q ok valid short =
    let key = key_token tokens in
    let (p, w, said) =
      subst (Deleted s key) (sym (process_delete_command_run c s tokens valid short)) (
        answer-Deleted (asked c tokens) s key (do_item_get none s key) ok
          (do_item_get_lem none s key).0 (do_item_get-Fetched s key ok)) in
    (Shrinks-Secured cmac digest s (process_delete_command c s tokens).store xs p q, w, said)
