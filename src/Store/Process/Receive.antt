-- ===== src/Store/Process/Receive.antt =====
-- memcached/memcached.c: conn_nread, the data of an item read in pieces.
use mathlib.Core.List.{append-nil, append_assoc}
use kvsev.Prelude.{
  ℕ, ◌+◌, ◌-◌, ◌≤◌, ◌<◌, ◌≡◌, refl, sym, ap, ◌∙◌, min, false, List, [], ◌∷◌, ◌++◌, ◌==◌, length,
  take, drop, length-take, length-append, Bool-cases, inl, inr, ==_iff, arith, set, length-set,
  get_or-set_self,
}
use kvsev.Prelude.Slices.{
  take-append, drop-append, take_all, take_front, length-drop, set_twice, set_same,
}
use kvsev.Merkle.Config.{Bytes}
use kvsev.Store.Items.{Item, Store, item_at, blank, modify}
use kvsev.Store.Secured.{item_at-modify_self}
use kvsev.Store.Process.{Conn, written, nread_step, nread, joined}

-- The store with other data in the item at `a`.
abbrev pub with_data : Store → ℕ → Bytes → Store
with_data s a d = modify s a (λ o. record o { item_data = d })

with_data_twice :
    (s : Store) (a : ℕ) (d e : Bytes)
    → a < length s.heap
    → with_data (with_data s a d) a e ≡ with_data s a e
unfolding modify
with_data_twice s a d e lt =
    let f : Bytes → Item → Item = λ d o. record o { item_data = d } in
    ap (λ o. record s { heap = set (set s.heap a (f d (item_at s a))) a (f e o) })
      (get_or-set_self s.heap a (f d (item_at s a)) blank lt)
    ∙ ap (λ h. record s { heap = h }) (set_twice s.heap a (f d (item_at s a)) (f e (item_at s a)))

with_data_same : (s : Store) (a : ℕ) → with_data s a (item_at s a).item_data ≡ s
unfolding modify
with_data_same s a = ap (λ h. record s { heap = h }) (set_same s.heap a blank)

pub with_data-length :
    (s : Store) (a : ℕ) (d : Bytes) → length (with_data s a d).heap ≡ length s.heap
unfolding modify
with_data-length s a d = length-set s.heap a (record (item_at s a) { item_data = d })

-- The connection with `r` bytes read and `n` to read.
abbrev progress : Conn → ℕ → ℕ → Conn
progress c r n = record c { ritem = r; rlbytes = n }

-- All that the item wants, read at once.
abbrev pub received : Conn → Store → Bytes → Conn × Store × Bytes
received c s input = (
  progress c (c.ritem + c.rlbytes) 0,
  with_data s c.item (take c.ritem (item_at s c.item).item_data ++ take c.rlbytes input),
  drop c.rlbytes input,
)

received_none :
    (c : Conn) (s : Store) (input : Bytes)
    → c.rlbytes ≡ 0
    → c.ritem + c.rlbytes ≡ length (item_at s c.item).item_data
    → received c s input ≡ (c, s, input)
received_none c s input none_left full =
    let d = (item_at s c.item).item_data in
    let whole : c.ritem + c.rlbytes ≡ c.ritem = omega arith in
    let size : c.ritem ≡ length d = omega arith in
    let kept : take c.ritem d ++ take c.rlbytes input ≡ d =
      ap (λ n. take c.ritem d ++ take n input) none_left
      ∙ append-nil (take c.ritem d)
      ∙ ap (λ n. take n d) size
      ∙ take_all d in
    let conn : progress c (c.ritem + c.rlbytes) 0 ≡ c =
      ap (λ r. progress c r 0) whole ∙ ap (λ n. progress c c.ritem n) (sym none_left) in
    let store : with_data s c.item (take c.ritem d ++ take c.rlbytes input) ≡ s =
      ap (with_data s c.item) kept ∙ with_data_same s c.item in
    ap (λ x. (x, (received c s input).1, (received c s input).2)) conn
    ∙ ap (λ x. (c, x, (received c s input).2)) store
    ∙ ap (λ n. (c, s, drop n input)) none_left

-- One piece, then the rest of the input, fill the item as all the input at once.
data_step :
    (d p q : Bytes) (r n : ℕ)
    → r + n ≡ length d
    → (take (r + min (length p) n) (written d r (take (min (length p) n) p))
          ++ take (n - min (length p) n) q
        ≡ take r d ++ take n (p ++ q))
      × (length (written d r (take (min (length p) n) p)) ≡ length d)
data_step d p q r n full =
    let m = min (length p) n in
    let behind = drop (r + length (take m p)) d in
    let front : length (take r d) ≡ r = length-take r d (omega arith) in
    let part : length (take m p) ≡ m = length-take m p (omega arith) in
    let both = length-append (take r d) (take m p) in
    let size : length (take r d ++ take m p) ≡ r + m = omega arith in
    let rest : length behind ≡ length d - (r + m) =
      length-drop (r + length (take m p)) d ∙ ap (λ k. length d - (r + k)) part in
    let all = length-append (take r d) (take m p ++ behind) in
    let last = length-append (take m p) behind in
    (
      ap (λ l. take (r + m) l ++ take (n - m) q) (sym (append_assoc (take r d) (take m p) behind))
          ∙ ap (λ l. l ++ take (n - m) q) (take_front (r + m) (take r d ++ take m p) behind size)
          ∙ append_assoc (take r d) (take m p) (take (n - m) q)
          ∙ ap (λ l. take r d ++ l) (sym (take-append n p q)),
      omega arith,
    )

-- One round, by the data that it leaves.
abbrev stepped : Conn → Store → Bytes → Conn × Store × Bytes
stepped c s p =
    let n = min (length p) c.rlbytes in
    (
      progress c (c.ritem + n) (c.rlbytes - n),
      with_data s c.item (written (item_at s c.item).item_data c.ritem (take n p)),
      drop n p,
    )

nread_step-stepped : (c : Conn) (s : Store) (p : Bytes) → nread_step c s p ≡ stepped c s p
unfolding nread_step modify
nread_step-stepped c s p = refl

nread_more :
    (c : Conn) (s : Store) (p : Bytes) (pieces : List Bytes)
    → (c.rlbytes == 0) ≡ false
    → nread c s (p ∷ pieces) ≡ (
      (nread (stepped c s p).0 (stepped c s p).1 pieces).0,
      (nread (stepped c s p).0 (stepped c s p).1 pieces).1,
      (stepped c s p).2 ++ (nread (stepped c s p).0 (stepped c s p).1 pieces).2,
    )
unfolding nread nread_step modify
nread_more c s p pieces h = rw h refl

stepped-received :
    (c : Conn) (s : Store) (p q : Bytes)
    → c.item < length s.heap
    → c.ritem + c.rlbytes ≡ length (item_at s c.item).item_data
    → (received c s (p ++ q) ≡ (
      (received (stepped c s p).0 (stepped c s p).1 q).0,
      (received (stepped c s p).0 (stepped c s p).1 q).1,
      (stepped c s p).2 ++ (received (stepped c s p).0 (stepped c s p).1 q).2,
    ))
      × ((stepped c s p).0.ritem + (stepped c s p).0.rlbytes
          ≡ length (item_at (stepped c s p).1 c.item).item_data)
stepped-received c s p q lt full =
    let d = (item_at s c.item).item_data in
    let n = min (length p) c.rlbytes in
    let e = written d c.ritem (take n p) in
    let s' = with_data s c.item e in
    let here : (item_at s' c.item).item_data ≡ e =
      ap (λ o. o.item_data) (item_at-modify_self s c.item (λ o. record o { item_data = e }) lt) in
    let (filled, size) = data_step d p q c.ritem c.rlbytes full in
    let sums : c.ritem + n + (c.rlbytes - n) ≡ c.ritem + c.rlbytes = omega arith in
    let store : with_data s c.item (take c.ritem d ++ take c.rlbytes (p ++ q))
        ≡ with_data s' c.item
            (take (c.ritem + n) (item_at s' c.item).item_data ++ take (c.rlbytes - n) q) =
      ap (with_data s c.item) (sym filled)
      ∙ sym (with_data_twice s c.item e (take (c.ritem + n) e ++ take (c.rlbytes - n) q) lt)
      ∙ ap (λ x. with_data s' c.item (take (c.ritem + n) x ++ take (c.rlbytes - n) q)) (sym here) in
    (
      ap (λ k. (progress c k 0, (received c s (p ++ q)).1, (received c s (p ++ q)).2)) (sym sums)
          ∙ ap (λ x. (progress c (c.ritem + n + (c.rlbytes - n)) 0, x, (received c s (p ++ q)).2))
              store
          ∙ ap
              (λ l. (
                progress c (c.ritem + n + (c.rlbytes - n)) 0,
                with_data s' c.item
                    (take (c.ritem + n) (item_at s' c.item).item_data ++ take (c.rlbytes - n) q),
                l,
              ))
              (drop-append c.rlbytes p q),
      sums ∙ full ∙ sym size ∙ ap length (sym here),
    )

-- However the input is cut into pieces, if it has the bytes that the item at `c.item` wants, these end
-- up in the data of the item, in order, and nothing else changes in the store; the connection has no
-- bytes left to read, and what is behind them stays as its input.
pub nread_lem :
    (pieces : List Bytes) (c : Conn) (s : Store)
    → c.item < length s.heap
    → c.ritem + c.rlbytes ≡ length (item_at s c.item).item_data
    → c.rlbytes ≤ length (joined pieces)
    → nread c s pieces ≡ received c s (joined pieces)
unfolding nread
nread_lem [] c s lt full enough = sym (received_none c s [] (omega arith) full)
nread_lem (p ∷ pieces) c s lt full enough = elim (Bool-cases (c.rlbytes == 0)) [
  | inl e ↦ rw e (sym (received_none c s (p ++ joined pieces) ((==_iff c.rlbytes 0).0 e) full))
  | inr e ↦
      let (once, full') = stepped-received c s p (joined pieces) lt full in
      let size = length-append p (joined pieces) in
      let lt' : c.item < length (stepped c s p).1.heap =
        rw
          (with_data-length s c.item
            (written (item_at s c.item).item_data c.ritem (take (min (length p) c.rlbytes) p)))
          lt in
      let later = nread_lem pieces (stepped c s p).0 (stepped c s p).1 lt' full' (omega arith) in
      nread_more c s p pieces e
      ∙ ap (λ r. (r.0, r.1, drop (min (length p) c.rlbytes) p ++ r.2)) later
      ∙ sym once
]
