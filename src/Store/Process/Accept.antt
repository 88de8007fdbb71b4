-- ===== src/Store/Process/Accept.antt =====
-- memcached/proto_text.c: process_update_command and process_delete_command on every branch, and the items that are covered.
use kvsev.Prelude.{
  ℕ, ◌+◌, ◌≡◌, ◌⊎◌, Bool, ◌&&◌, Option, none, some, List, length, ltb, leb, Bool-cases, inl, inr,
  if◌then◌else◌, if_either, if_true, if_false,
}
use kvsev.Assoc.{Key}
use kvsev.Merkle.Config.{Bytes}
use kvsev.Store.Items.{Store, do_item_get, do_item_alloc, do_item_unlink, do_item_remove}
use kvsev.Store.Command.{
  Command, nread_add, nread_set, nread_replace, nread_append, nread_prepend, nread_cas,
}
use kvsev.Store.Core.{
  Shrinks, Shrinks-refl, Shrinks-trans, do_item_get_lem, do_item_unlink-Shrinks,
  do_item_remove-Shrinks,
}
use kvsev.Store.Secured.{Secured, Shrinks-Secured}
use kvsev.Store.Process.{
  Conn, Turn, Allocation, Fields, out_string, key_token, key_max_length, bytes_held,
  set_noreply_maybe, update_fields, drop_old, no_item, new_item, process_update_command,
  delete_valid, process_delete_command, bad_line, deleted, not_found,
}
use kvsev.Store.Process.Beside.{allocated, Beside-Secured, Secured-Fresh}
use kvsev.Store.Process.Update.{awaiting, awaiting_lem}

gone-Shrinks : (s : Store) (a : ℕ) → Shrinks s (do_item_remove (do_item_unlink s a) a)
gone-Shrinks s a =
    Shrinks-trans s (do_item_unlink s a) (do_item_remove (do_item_unlink s a) a)
      (do_item_unlink-Shrinks s a) (do_item_remove-Shrinks (do_item_unlink s a) a)

taken-Shrinks :
    (s : Store) (r : Store × Option ℕ)
    → Shrinks s r.0
    → Shrinks s (elim r.1 as (λ _. Store) [
      | none ↦ r.0
      | some old ↦ do_item_remove (do_item_unlink r.0 old) old
    ])
taken-Shrinks s (t, none) p = p
taken-Shrinks s (t, some a) p =
    Shrinks-trans s t (do_item_remove (do_item_unlink t a) a) p (gone-Shrinks t a)

drop_old-Shrinks : (s : Store) (key : Key) (comm : Command) → Shrinks s (drop_old s key comm)
unfolding drop_old
drop_old-Shrinks s key nread_set =
    taken-Shrinks s (do_item_get none s key) (do_item_get_lem none s key).0
drop_old-Shrinks s key nread_add = Shrinks-refl s
drop_old-Shrinks s key nread_replace = Shrinks-refl s
drop_old-Shrinks s key nread_append = Shrinks-refl s
drop_old-Shrinks s key nread_prepend = Shrinks-refl s
drop_old-Shrinks s key nread_cas = Shrinks-refl s

do_item_alloc-cases :
    (mem : Bool) (junk : Bytes × ℕ) (s : Store) (key : Key) (flags exptime : ℕ) (d : Bytes)
    → (do_item_alloc mem junk s key flags exptime d ≡ none)
      ⊎ (do_item_alloc mem junk s key flags exptime d
          ≡ some (allocated junk s key flags exptime d, length s.heap))
unfolding do_item_alloc
do_item_alloc-cases mem junk s key flags exptime d = elim (Bool-cases (mem && leb 2 (length d))) [
  | inl e ↦ inr (if_true (mem && leb 2 (length d)) _ none e)
  | inr e ↦ inl (if_false (mem && leb 2 (length d)) _ none e)
]

module _ (cmac digest : Bytes → Bytes) (s : Store) (xs : List Bytes)
    (q : Secured cmac digest s xs) where
  abbrev pub Covered : Turn → Type 0
  Covered turn = Secured cmac digest turn.store xs

  no_item-Covered :
      (c : Conn) (key : Bytes) (vlen : ℕ) (comm : Command) (size_ok : Bool)
      → Covered (no_item c s key vlen comm size_ok)
  unfolding no_item out_string
  no_item-Covered c key vlen comm size_ok =
      Shrinks-Secured cmac digest s (drop_old s key comm) xs (drop_old-Shrinks s key comm) q

  new_item-Covered :
      (c : Conn) (m : Allocation) (key : Bytes) (f : Fields) (comm : Command)
      → Covered (
          new_item c
            (allocated m.junk s key f.flags f.exptime (bytes_held m f.vlen))
            (length s.heap)
            f
            comm)
  unfolding new_item
  new_item-Covered c m key f comm =
      Beside-Secured cmac digest (length s.heap) s (awaiting m s key f) xs
        (awaiting_lem m s key f).0 (Secured-Fresh cmac digest s xs q) q

  allocated-Covered :
      (c : Conn) (m : Allocation) (key : Bytes) (f : Fields) (comm : Command)
      → Covered
          (elim (do_item_alloc m.granted m.junk s key f.flags f.exptime (bytes_held m f.vlen))
            as (λ _. Turn) [
              | none ↦ no_item c s key f.vlen comm m.item_size_ok
              | some (s', a) ↦ new_item c s' a f comm
            ])
  allocated-Covered c m key f comm =
      elim (do_item_alloc-cases m.granted m.junk s key f.flags f.exptime (bytes_held m f.vlen)) [
        | inl e ↦ rw (e) (no_item-Covered c key f.vlen comm m.item_size_ok)
        | inr e ↦ rw (e) (new_item-Covered c m key f comm)
      ]

  fields-Covered :
      (c : Conn) (m : Allocation) (key : Bytes) (comm : Command) (fields : Option Fields)
      → Covered (elim fields as (λ _. Turn) [
        | none ↦ out_string c s bad_line
        | some f ↦
            elim (do_item_alloc m.granted m.junk s key f.flags f.exptime (bytes_held m f.vlen))
              as (λ _. Turn) [
                | none ↦ no_item c s key f.vlen comm m.item_size_ok
                | some (s', a) ↦ new_item c s' a f comm
              ]
      ])
  unfolding out_string
  fields-Covered c m key comm none = q
  fields-Covered c m key comm (some f) = allocated-Covered c m key f comm

  pub process_update_command-Covered :
      (process_started : ℕ) (m : Allocation) (c : Conn) (tokens : List Bytes) (comm : Command)
      (handle_cas : Bool)
      → Covered (process_update_command process_started m c s tokens comm handle_cas)
  unfolding process_update_command out_string
  process_update_command-Covered process_started m c tokens comm handle_cas =
      if_either Covered (ltb key_max_length (length (key_token tokens))) q (
        fields-Covered (set_noreply_maybe c tokens) m (key_token tokens) comm
          (update_fields process_started s tokens handle_cas))

  -- What follows the search of a delete.
  answered-Shrinks :
      (c : Conn) (r : Store × Option ℕ)
      → Shrinks s r.0
      → Shrinks s
          (elim r.1 as (λ _. Turn) [
            | none ↦ out_string c r.0 not_found
            | some a ↦ out_string c (do_item_remove (do_item_unlink r.0 a) a) deleted
          ]).store
  unfolding out_string
  answered-Shrinks c (t, none) p = p
  answered-Shrinks c (t, some a) p =
      Shrinks-trans s t (do_item_remove (do_item_unlink t a) a) p (gone-Shrinks t a)

  -- A delete, of any line.
  pub process_delete_command-Covered :
      (c : Conn) (tokens : List Bytes) → Covered (process_delete_command c s tokens)
  unfolding process_delete_command out_string
  process_delete_command-Covered c0 tokens =
      let c = if ltb 3 (length tokens + 1) then set_noreply_maybe c0 tokens else c0 in
      let found = do_item_get none s (key_token tokens) in
      let rest =
        Shrinks-Secured cmac digest s _ xs
          (answered-Shrinks c found (do_item_get_lem none s (key_token tokens)).0) q in
      if_either Covered (delete_valid c tokens)
        (if_either Covered (ltb key_max_length (length (key_token tokens))) q rest) q
