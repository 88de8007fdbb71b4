-- ===== src/Store/Process/Touch.antt =====
-- memcached/proto_text.c: process_touch_command.
use kvsev.Prelude.{
  ℕ, ◌+◌, ◌%◌, ◌||◌, ◌==◌, ◌<◌, ◌≡◌, refl, ap, ◌∙◌, Bool, Option, none, some, List, length, ltb,
  if_either,
}
use kvsev.Merkle.Config.{Bytes}
use kvsev.Text.Numbers.{safe_strtol, exptime_to_positive, realtime}
use kvsev.Store.Items.{Item, Store, item_at, modify, do_item_remove, do_item_get}
use kvsev.Store.Core.{
  Shrinks, Shrinks-trans, Shrinks-refl, modify-Shrinks, modify_kept, do_item_get_lem,
  do_item_remove-Shrinks,
}
use kvsev.Store.Secured.{Secured, Shrinks-Secured, item_at-modify_self}
use kvsev.Store.Process.{
  Conn, Turn, Line, out_string, token, key_token, key_max_length, set_noreply_maybe, do_item_touch,
  process_touch_command, touched, not_found, bad_line, invalid_exptime,
}
use kvsev.Store.Process.Delete.{sent_line}

-- The promise of a touch: no item enters the table or loses what the tree knows of it, and TOUCHED means
-- that the item of the key has the new expiry time.
abbrev Touched : ℕ → Store → List Bytes → Turn → Type 0
Touched process_started s tokens r =
    Shrinks s r.store
    × (r.sent ≡ some touched
        → (a : ℕ) × (w : ℕ) × (s.index (key_token tokens) ≡ some a)
          × (safe_strtol (token tokens 2) ≡ some w)
          × ((item_at r.store a).exptime
              ≡ realtime process_started s.current_time (exptime_to_positive w)))

-- A reply that is not TOUCHED.
other_reply :
    (process_started : ℕ) (c : Conn) (s t : Store) (tokens : List Bytes) (line : Line)
    → Shrinks s t
    → (line ≡ touched → ⊥)
    → Touched process_started s tokens (out_string c t line)
unfolding out_string
other_reply process_started c s t tokens line p ne =
    (p, λ h. absurd (ne (sent_line c.noreply line touched h)))

-- What follows the search for the item, and the answer.
abbrev with_exptime : ℕ → Store × Option ℕ → Store × Option ℕ
with_exptime exptime found = elim found.1 [
  | none ↦ (found.0, none)
  | some a ↦ (modify found.0 a (λ o. record o { exptime = exptime }), some a)
]

abbrev answer : Conn → Store × Option ℕ → Turn
answer c found = elim found.1 [
  | none ↦ out_string c found.0 not_found
  | some a ↦ out_string c (do_item_remove found.0 a) touched
]

module _ (process_started : ℕ) (s : Store) (tokens : List Bytes)
    (inside : (a : ℕ) → s.index (key_token tokens) ≡ some a → a < length s.heap) where
  exptime_after : (w : ℕ) → ℕ
  exptime_after w = realtime process_started s.current_time (exptime_to_positive w)

  answer-Touched :
      (c : Conn) (found : Store × Option ℕ) (w : ℕ)
      → safe_strtol (token tokens 2) ≡ some w
      → Shrinks s found.0
      → ((a : ℕ) → found.1 ≡ some a → s.index (key_token tokens) ≡ some a)
      → Touched process_started s tokens (answer c (with_exptime (exptime_after w) found))
  unfolding out_string do_item_remove exptime_after
  answer-Touched c (t, none) w is p at =
      other_reply process_started c s t tokens not_found p (λ e. cc e)
  answer-Touched c (t, some a) w is p at =
      let f : Item → Item = λ o. record o { exptime = exptime_after w } in
      let t' = modify t a f in
      let lt : a < length t.heap = rw p.same.size (inside a (at a refl)) in
      let kept = do_item_remove-Shrinks t' a in
      (
        Shrinks-trans s t (do_item_remove t' a) p
            (Shrinks-trans t t' (do_item_remove t' a) (modify-Shrinks t a f (λ o. refl)) kept),
        λ h. (
          a,
          w,
          at a refl,
          is,
          modify_kept (λ o. o.exptime)
                (λ o.
                  let left = (o.refcount + 65535) % 65536 in
                  record o { refcount = left; freed = o.freed || left == 0 })
                t' a a (λ o. refl)
              ∙ ap (λ o. o.exptime) (item_at-modify_self t a f lt),
        ),
      )

  process_touch_command-Touched :
      (queued : Bool) (c : Conn)
      → Touched process_started s tokens (process_touch_command process_started queued c s tokens)
  unfolding process_touch_command do_item_touch exptime_after
  process_touch_command-Touched queued c =
      let c' = set_noreply_maybe c tokens in
      if_either (Touched process_started s tokens) (ltb key_max_length (length (key_token tokens)))
        (other_reply process_started c' s s tokens bad_line (Shrinks-refl s) (λ e. cc e))
        (go (safe_strtol (token tokens 2)) refl)
    where
      go :
          (v : Option ℕ)
          → safe_strtol (token tokens 2) ≡ v
          → Touched process_started s tokens (elim v [
            | none ↦ out_string (set_noreply_maybe c tokens) s invalid_exptime
            | some w ↦
                answer
                  (set_noreply_maybe c tokens)
                  (do_item_touch queued s (key_token tokens) (exptime_after w))
          ])
      go none e =
          other_reply process_started (set_noreply_maybe c tokens) s s tokens invalid_exptime
            (Shrinks-refl s) (λ x. cc x)
      go (some w) e =
          let (p, at) = do_item_get_lem (some queued) s (key_token tokens) in
          answer-Touched (set_noreply_maybe c tokens)
            (do_item_get (some queued) s (key_token tokens)) w e p at

-- A touch keeps the items of the table covered, whatever it is given, and if it sends TOUCHED, the item
-- of the key has the expiry time that the line asks for.
pub process_touch_command_lem :
    (cmac digest : Bytes → Bytes) (process_started : ℕ) (queued : Bool) (c : Conn) (s : Store)
    (tokens : List Bytes) (xs : List Bytes)
    → Secured cmac digest s xs
    → Secured cmac digest (process_touch_command process_started queued c s tokens).store xs
      × ((process_touch_command process_started queued c s tokens).sent ≡ some touched
          → (a : ℕ) × (w : ℕ) × (s.index (key_token tokens) ≡ some a)
            × (safe_strtol (token tokens 2) ≡ some w)
            × ((item_at (process_touch_command process_started queued c s tokens).store a).exptime
                ≡ realtime process_started s.current_time (exptime_to_positive w)))
process_touch_command_lem cmac digest process_started queued c s tokens xs q =
    let (p, said) =
      process_touch_command-Touched process_started s tokens
        (λ a h. (q.covered (key_token tokens) a h).0) queued c in
    (
      Shrinks-Secured cmac digest s (process_touch_command process_started queued c s tokens).store
          xs p q,
      said,
    )
