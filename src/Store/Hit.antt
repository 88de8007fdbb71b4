-- ===== src/Store/Hit.antt =====
-- memcached/proto_text.c and memcached/items.c: the read of a key whose item is there.
use kvsev.Prelude.{
  ℕ, ◌+◌, ◌%◌, ◌≤◌, ◌<◌, ◌≡◌, refl, ap, ◌∙◌, Bool, true, false, ◌&&◌, ◌||◌, not, Option, none, some,
  List, length, arith, ltb, leb, ◌==◌, if◌then◌else◌, if_false, if_either, ge→ltb, length-set,
}
use kvsev.Prelude.Outcome.{done}
use kvsev.Assoc.{Key}
use kvsev.Merkle.Config.{Bytes, success}
use kvsev.Merkle.Hash.{Sha256, IsSha256}
use kvsev.Store.Items.{
  key_max_length, Item, Store, item_at, modify, refcount_incr, item_is_flushed, do_item_update,
  do_item_bump, do_item_get, do_item_remove, do_item_unlink,
}
use kvsev.Store.Command.{limited_get, process_get}
use kvsev.Store.Core.{modify_kept, modify-index}
use kvsev.Store.Secured.{item_at-modify_self, modify-merkle, Secured}
use kvsev.Store.Get.{Listed, process_get_found}

-- The item is neither flushed nor expired, and has not too many references.
pub record Readable (s : Store) (a : ℕ) : Type 0 where
  pub kept : item_is_flushed s (item_at s a) ≡ false
  pub live : (not ((item_at s a).exptime == 0) && leb (item_at s a).exptime s.current_time) ≡ false
  pub few : (item_at s a).refcount < 60000

-- The references of an item do not change by a bump.
SameCount : Store → ℕ → Store → Type 0
SameCount s a s' = (item_at s' a).refcount ≡ (item_at s a).refcount

modify-SameCount :
    (s : Store) (a : ℕ) (f : Item → Item)
    → ((o : Item) → (f o).refcount ≡ o.refcount)
    → SameCount s a (modify s a f)
unfolding SameCount
modify-SameCount s a f h = modify_kept (λ o. o.refcount) f s a a h

do_item_update-SameCount : (s : Store) (a : ℕ) → SameCount s a (do_item_update s a)
unfolding SameCount do_item_update
do_item_update-SameCount s a =
    let o = item_at s a in
    if_either (SameCount s a) s.lru_segmented
      (if_either (SameCount s a) o.linked
        (modify-SameCount s a _
          (λ i. if_either (λ (j : Item). j.refcount ≡ i.refcount) (i.cold && i.active) refl refl))
        refl)
      (if_either (SameCount s a) _ (modify-SameCount s a _ (λ i. refl)) refl)

do_item_bump-SameCount :
    (queued : Bool) (s : Store) (a : ℕ) → SameCount s a (do_item_bump queued s a)
unfolding SameCount do_item_bump
do_item_bump-SameCount queued s a =
    let o = item_at s a in
    let fetched : Store = modify s a (λ i. record i { fetched = true }) in
    if_either (SameCount s a) s.lru_segmented
      (if_either (SameCount s a) o.active refl (
        if_either (SameCount s a) (not o.fetched) (modify-SameCount s a _ (λ i. refl)) (
          if_either (SameCount s a) (not o.cold) (modify-SameCount s a _ (λ i. refl))
            (modify-SameCount s a _ (λ i. refl)))))
      (do_item_update-SameCount fetched a ∙ modify-SameCount s a _ (λ i. refl))

module _ (queued : Bool) (s : Store) (key : Key) (a : ℕ) (at : s.index key ≡ some a)
    (lt : a < length s.heap) (h : Readable s a) where
  abbrev bumped : Store
  bumped = do_item_bump queued (refcount_incr s a) a

  incremented :
      item_at (refcount_incr s a) a
      ≡ record (item_at s a) { refcount = ((item_at s a).refcount + 1) % 65536 }
  unfolding refcount_incr
  incremented = item_at-modify_self s a (λ o. record o { refcount = (o.refcount + 1) % 65536 }) lt

  do_item_get_hit : do_item_get (some queued) s key ≡ (bumped, some a)
  unfolding do_item_get item_is_flushed
  do_item_get_hit =
      let gone : Item → Bool =
        λ o. item_is_flushed s o || (not (o.exptime == 0) && leb o.exptime s.current_time) in
      let stays : gone (item_at (refcount_incr s a) a) ≡ false =
        ap gone incremented
        ∙ ap
            (λ b.
              b || (not ((item_at s a).exptime == 0) && leb (item_at s a).exptime s.current_time))
            h.kept
        ∙ h.live in
      ap
        (λ (m : Option ℕ). elim m as (λ _. Store × Option ℕ) [
          | none ↦ (s, none)
          | some b ↦
              if gone (item_at (refcount_incr s b) b)
              then (do_item_remove (do_item_unlink (refcount_incr s b) b) b, none)
              else (do_item_bump queued (refcount_incr s b) b, some b)
        ])
        at
      ∙ if_false (gone (item_at (refcount_incr s a) a)) _ (bumped, some a) stays

  limited_get_hit : (limited_get queued s key).1 ≡ some a
  unfolding limited_get SameCount
  limited_get_hit =
      let counts : (item_at bumped a).refcount ≡ ((item_at s a).refcount + 1) % 65536 =
        do_item_bump-SameCount queued (refcount_incr s a) a ∙ ap (λ o. o.refcount) incremented in
      let few = h.few in
      let low = ge→ltb 60000 (item_at bumped a).refcount (omega arith) in
      ap
        (λ (r : Store × Option ℕ).
          (elim r.1 as (λ _. Store × Option ℕ) [
            | none ↦ (r.0, none)
            | some b ↦
                if ltb 60000 (item_at r.0 b).refcount
                then (do_item_remove r.0 b, none)
                else (r.0, some b)
          ]).1)
        do_item_get_hit
      ∙ ap (λ (q : Store × Option ℕ). q.1)
          (if_false (ltb 60000 (item_at bumped a).refcount) (do_item_remove bumped a, none)
            (bumped, some a) low)

module _ (sha : Sha256) where
  -- An item of a covered store, with a key of at most 250 bytes, that is neither flushed nor expired, with less than 60000 references: a
  -- read sends its data, with MT_SUCCESS; and when the data are overwritten in memory by any others, a
  -- read sends these, with MT_SUCCESS too: the MAC is not computed again. SHA-256 and AES-CMAC do what
  -- they promise.
  pub process_get_tampered :
      (cmac : Bytes → Bytes) (digest : Bytes → Bytes) (queued : Bool) (s : Store) (xs : List Bytes)
      (key : Key) (a : ℕ) (d : Bytes)
      → IsSha256 sha digest
      → ((m : Bytes) → length (cmac m) ≡ 16)
      → Secured cmac digest s xs
      → s.index key ≡ some a
      → Readable s a
      → length key ≤ key_max_length
      → ((s' : Store) × (process_get sha queued s key
            ≡ done (s', some ((item_at s a).item_data, success))))
        × ((s' : Store) × (process_get sha queued (modify s a (λ o. record o { item_data = d })) key
              ≡ done (s', some (d, success))))
  unfolding modify item_is_flushed
  process_get_tampered cmac digest queued s xs key a d works bytes q at h short =
      let f : Item → Item = λ o. record o { item_data = d } in
      let t = modify s a f in
      let (lt, c) = q.covered key a at in
      let here : item_at t a ≡ f (item_at s a) = item_at-modify_self s a f lt in
      let mac = c.mac in
      let wide = bytes (item_at s a).item_data in
      let listed : Listed xs (item_at s a) = (omega (arith, ap length mac, wide), c.leaf) in
      let listed_t : Listed xs (item_at t a) = rw here listed in
      let at_t : t.index key ≡ some a = ap (λ m. m key) (modify-index s a f) ∙ at in
      let same_size : length t.heap ≡ length s.heap = length-set s.heap a (f (item_at s a)) in
      let readable_t : Readable t a = record {
        kept = ap (item_is_flushed t) here ∙ h.kept;
        live =
            ap (λ (o : Item). not (o.exptime == 0) && leb o.exptime s.current_time) here ∙ h.live;
        few = rw here h.few;
      } in
      (
        (
          _,
          process_get_found sha digest queued s q.tree xs key a works q.is_tree q.models listed
              (ge→ltb key_max_length (length key) short) (limited_get_hit queued s key a at lt h),
        ),
        (
          _,
          process_get_found sha digest queued t q.tree xs key a works
                (modify-merkle s a f ∙ q.is_tree) q.models listed_t
                (ge→ltb key_max_length (length key) short)
                (limited_get_hit queued t key a at_t (omega (arith, lt, same_size)) readable_t)
              ∙ ap (λ (o : Item). done ((limited_get queued t key).0, some (o.item_data, success)))
                  here,
        ),
      )
