-- ===== src/Store/Dispatch/Serve.antt =====
-- memcached/proto_text.c: a whole `set`, from the bytes of its line to the reply, and a get after it.
use kvsev.Prelude.{
  ℕ, ◌+◌, ◌≤◌, ◌<◌, ◌≡◌, refl, sym, ◌∙◌, ap, subst, Bool, true, false, Option, none, some, List, [],
  ◌∷◌, ◌++◌, length, take, drop, length-append, Bool-cases, inl, inr, arith, if◌then◌else◌,
  if_false,
}
use mathlib.Core.List.{append-nil, append_assoc}
use kvsev.Prelude.Slices.{take_front, drop_front}
use kvsev.Prelude.Outcome.{Outcome, done}
use kvsev.Prelude.Bytes.{same_bytes, same_bytes→eq}
use kvsev.Merkle.Config.{Bytes}
use kvsev.Merkle.Hash.{Sha256, IsSha256}
use kvsev.Merkle.ArrayList.Holds.{capacity}
use kvsev.Merkle.Tree.{init_hash}
use kvsev.Text.Numbers.{starts_digit}
use kvsev.Text.Numbers.Decimal.{decimal, starts_digit-decimal}
use kvsev.Store.Items.{Store, item_at, item_size}
use kvsev.Store.Command.{nread_set, stored, answered, ends_crlf}
use kvsev.Store.Secured.{Secured}
use kvsev.Store.Process.{
  Conn, Allocation, Served, served, noreply_word, key_max_length, joined, set_noreply_maybe,
  update_fields, storage_command,
}
use kvsev.Store.Process.Update.{do_store_item-set}
use kvsev.Store.Process.Complete.{Complete, uploaded, storage_command-stored}
use kvsev.Store.Dispatch.{Request, update, process_command, serve_storage}
use kvsev.Store.Dispatch.Line.{
  Storage, Sendable, command_word, arguments, storage_line, fields_of, process_command-storage_line,
}

crlf-ends_crlf : (d : Bytes) → ends_crlf (d ++ 13 ∷ 10 ∷ []) ≡ true
unfolding ends_crlf
crlf-ends_crlf [] = refl
crlf-ends_crlf (x ∷ []) = refl
crlf-ends_crlf (x ∷ y ∷ d) = go y d (crlf-ends_crlf (y ∷ d))
  where
    go :
        (y : ℕ) (d : Bytes)
        → ends_crlf (y ∷ (d ++ 13 ∷ 10 ∷ [])) ≡ true
        → ends_crlf (x ∷ y ∷ (d ++ 13 ∷ 10 ∷ [])) ≡ true
    go y [] h = h
    go y (z ∷ d) h = h

-- A number is not "noreply".
decimal-noreply_word : (n : ℕ) → same_bytes (decimal n) noreply_word ≡ false
unfolding starts_digit
decimal-noreply_word n = elim (Bool-cases (same_bytes (decimal n) noreply_word)) [
  | inl same ↦
      let digit = ap starts_digit (sym (append-nil (decimal n))) ∙ starts_digit-decimal n [] in
      let other = ap starts_digit (same_bytes→eq (decimal n) noreply_word same) in cc (digit, other)
  | inr differ ↦ differ
]

set_line_noreply :
    (c : Conn) (r : Storage)
    → set_noreply_maybe c (command_word nread_set ∷ arguments nread_set r) ≡ c
unfolding set_noreply_maybe
set_line_noreply c r =
    if_false (same_bytes (decimal r.data_length) noreply_word) (record c { noreply = true }) c
      (decimal-noreply_word r.data_length)

module _ (sha : Sha256) (cmac : Bytes → Bytes) where
  serve_storage-update :
      (process_started : ℕ) (m : Allocation) (mem : Bool) (junk : Bytes × ℕ) (tree_mem : ℕ → Bool)
      (c : Conn) (s : Store) (command : Bytes) (pieces tokens : List Bytes) (handle_cas : Bool)
      → process_command command ≡ (update nread_set handle_cas, tokens)
      → serve_storage sha cmac process_started m mem junk tree_mem c s command pieces
        ≡ some (
            storage_command sha cmac process_started m mem junk tree_mem c s tokens nread_set
              handle_cas pieces)
  unfolding serve_storage
  serve_storage-update process_started m mem junk tree_mem c s command pieces tokens handle_cas e =
      ap
        (λ (q : Request × List Bytes). elim q.0 as (λ _. Option (Outcome Served)) [
          | update comm handle_cas ↦ some (
              storage_command sha cmac process_started m mem junk tree_mem c s q.1 comm handle_cas
                pieces)
          | _ ↦ none
        ])
        e

  -- A `set` as a client prints it, whose key has at most 250 bytes and whose item needs no chunks, and behind it in any pieces the data
  -- of the length printed and "\r\n": the answer is STORED unless the connection has "noreply" set, what
  -- follows stays as input, the item is in the hash table under its key with exactly these data and the
  -- line end, and the tree covers it and all the others. There is memory and room in the tree, and
  -- SHA-256 and AES-CMAC do what they promise.
  pub serve_storage-set :
      (digest : Bytes → Bytes) (process_started : ℕ) (m : Allocation) (mem : Bool)
      (junk : Bytes × ℕ) (tree_mem : ℕ → Bool) (c : Conn) (s : Store) (r : Storage) (d rest : Bytes)
      (pieces xs : List Bytes)
      → IsSha256 sha digest
      → ((b : Bytes) → length (cmac b) ≡ 16)
      → ((l : ℕ) → tree_mem l ≡ true)
      → Secured cmac digest s xs
      → length xs < capacity
      → m.granted ≡ true
      → Sendable r
      → length r.key ≤ key_max_length
      → item_size s.use_cas (length r.key) r.client_flags (r.data_length + 2)
        ≤ s.slab_chunk_size_max
      → length d ≡ r.data_length
      → joined pieces ≡ d ++ 13 ∷ 10 ∷ rest
      → (s' : Store) × (serve_storage sha cmac process_started m mem junk tree_mem c s
            (storage_line nread_set r)
            pieces
          ≡ some (done (served s' rest (if c.noreply then none else some (answered stored)))))
        × Secured cmac digest s' (xs ++ init_hash (cmac (d ++ 13 ∷ 10 ∷ [])) ∷ [])
        × (s'.index r.key ≡ some (length s.heap))
        × ((item_at s' (length s.heap)).item_data ≡ d ++ 13 ∷ 10 ∷ [])
  serve_storage-set digest process_started m mem junk tree_mem c s r d rest pieces xs works bytes
        tree_granted q small granted h short one_piece size input =
      let tokens = command_word nread_set ∷ arguments nread_set r in
      let n = r.data_length + 2 in
      let (chosen, fields0) = process_command-storage_line process_started s nread_set r h in
      let fields =
        sym (ap (λ (q : Request × List Bytes). update_fields process_started s q.1 false) chosen)
        ∙ fields0 in
      let whole : length (d ++ 13 ∷ 10 ∷ []) ≡ n = omega (arith, length-append d (13 ∷ 10 ∷ [])) in
      let split : joined pieces ≡ (d ++ 13 ∷ 10 ∷ []) ++ rest =
        input ∙ sym (append_assoc d (13 ∷ 10 ∷ []) rest) in
      let front : take n (joined pieces) ≡ d ++ 13 ∷ 10 ∷ [] =
        ap (take n) split ∙ take_front n (d ++ 13 ∷ 10 ∷ []) rest whole in
      let back : drop n (joined pieces) ≡ rest =
        ap (drop n) split ∙ drop_front n (d ++ 13 ∷ 10 ∷ []) rest whole in
      let enough : n ≤ length (joined pieces) =
        omega (arith, ap length split, length-append (d ++ 13 ∷ 10 ∷ []) rest, whole) in
      let f = fields_of process_started s nread_set r in
      let complete : Complete process_started m s tokens false pieces f = record {
        granted = granted;
        short = short;
        is = fields;
        one_piece = one_piece;
        enough = enough;
        big = omega arith;
      } in
      let (s', run, kept, at, data') =
        storage_command-stored sha cmac process_started m mem junk tree_mem c s tokens pieces
          nread_set false f complete digest xs works bytes tree_granted q small
          (ap ends_crlf front ∙ crlf-ends_crlf d) refl
          (do_store_item-set mem junk false (uploaded m s tokens f pieces) (length s.heap)) in
      (
        s',
        serve_storage-update process_started m mem junk tree_mem c s (storage_line nread_set r)
              pieces tokens false chosen
            ∙ ap some run
            ∙ ap
                (λ x. some (
                  done (
                    served s' x (
                      if (set_noreply_maybe c tokens).noreply
                      then none
                      else some (answered stored)))))
                back
            ∙ ap
                (λ (k : Conn).
                  some (done (served s' rest (if k.noreply then none else some (answered stored)))))
                (set_line_noreply c r),
        subst (λ x. Secured cmac digest s' (xs ++ init_hash (cmac x) ∷ [])) front kept,
        at,
        data' ∙ front,
      )
