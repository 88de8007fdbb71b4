-- ===== src/Store/Dispatch/Counts.antt =====
-- memcached/proto_text.c: the number of tokens that a handler is called with.
use kvsev.Prelude.{
  ℕ, ◌+◌, ◌-◌, ◌≤◌, ◌≡◌, refl, Bool, true, false, ◌&&◌, ◌||◌, List, ltb, ◌==◌, if◌then◌else◌,
  length, take, Bool-cases, inl, inr, arith, if_true, if_false, subst, sym, ltb→ge,
}
use kvsev.Prelude.Bytes.{same_bytes}
use kvsev.Merkle.Config.{Bytes}
use kvsev.Store.Process.{token}
use kvsev.Store.Dispatch
use kvsev.Store.Dispatch.{
  Request, update, arithmetic, get, delete, touch, flush_all, verbosity, memlimit, lru,
}
use kvsev.Store.Dispatch.Line.{with_cas}

-- What each handler relies on of the number of tokens, the terminal one with them: with the CAS value
-- read exactly for "cas".
abbrev pub Counted : ℕ → Request → Type 0
Counted n (update comm handle_cas) =
    (handle_cas ≡ with_cas comm)
    × ((if handle_cas then 7 else 6) ≤ n)
    × (n ≤ (if handle_cas then 8 else 7))
Counted n (arithmetic up) = (4 ≤ n) × (n ≤ 5)
Counted n (get cas gat) = 3 ≤ n
Counted n delete = (3 ≤ n) × (n ≤ 5)
Counted n touch = (4 ≤ n) × (n ≤ 5)
Counted n flush_all = (2 ≤ n) × (n ≤ 4)
Counted n verbosity = (3 ≤ n) × (n ≤ 4)
Counted n memlimit = (3 ≤ n) × (n ≤ 4)
Counted n lru = 3 ≤ n
Counted n r = Unit {0}

module _ (n : ℕ) where
  Counted-if :
      (b : Bool) (r q : Request) → Counted n r → Counted n q → Counted n (if b then r else q)
  Counted-if true r q h k = h
  Counted-if false r q h k = k

  Counted-or :
      (a : ℕ) (r : Request)
      → (a ≤ n → n ≤ a + 1 → Counted n r)
      → Counted n (Dispatch.want_tokens_or n a (a + 1) r)
  unfolding Dispatch.want_tokens_or
  Counted-or a r h = elim (Bool-cases (n == a || n == a + 1)) [
    | inl e ↦
        subst (Counted n) (sym (if_true (n == a || n == a + 1) r Dispatch.wrong e))
          (h (ground (arith, e)) (ground (arith, e)))
    | inr e ↦ subst (Counted n) (sym (if_false (n == a || n == a + 1) r Dispatch.wrong e)) tt
  ]

  Counted-between :
      (a b : ℕ) (r : Request)
      → (a ≤ n → n ≤ b → Counted n r)
      → Counted n (Dispatch.want_tokens n a b r)
  unfolding Dispatch.want_tokens
  Counted-between a b r h = elim (Bool-cases (ltb n a || ltb b n)) [
    | inl e ↦ subst (Counted n) (sym (if_true (ltb n a || ltb b n) Dispatch.wrong r e)) tt
    | inr e ↦
        subst (Counted n) (sym (if_false (ltb n a || ltb b n) Dispatch.wrong r e))
          (h (ground (arith, e)) (ground (arith, e)))
  ]

  Counted-min :
      (a : ℕ) (r : Request) → (a ≤ n → Counted n r) → Counted n (Dispatch.want_tokens_min n a r)
  unfolding Dispatch.want_tokens_min
  Counted-min a r h = elim (Bool-cases (ltb n a)) [
    | inl e ↦ subst (Counted n) (sym (if_true (ltb n a) Dispatch.wrong r e)) tt
    | inr e ↦ subst (Counted n) (sym (if_false (ltb n a) Dispatch.wrong r e)) (h (ltb→ge n a e))
  ]

  meta_request-Counted : (second : ℕ) → Counted n (Dispatch.meta_request second)
  unfolding Dispatch.meta_request
  meta_request-Counted second = Counted-if (second == 103) _ _ tt (
      Counted-if (second == 115) _ _ tt (
        Counted-if (second == 100) _ _ tt (
          Counted-if (second == 110) _ _ tt
            (Counted-if (second == 97) _ _ tt (Counted-if (second == 101) _ _ tt tt)))))

  get_request-Counted : (w : Bytes) → 3 ≤ n → Counted n (Dispatch.get_request w)
  unfolding Dispatch.get_request
  get_request-Counted w h = Counted-if (same_bytes w Dispatch.word_get) _ _ h (
      Counted-if (same_bytes w Dispatch.word_gets) _ _ h (
        Counted-if (same_bytes w Dispatch.word_gat) _ _ h
          (Counted-if (same_bytes w Dispatch.word_gats) _ _ (h) tt)))

  set_request-Counted : (w : Bytes) → Counted n (Dispatch.set_request w n)
  unfolding Dispatch.set_request
  set_request-Counted w =
      Counted-if (same_bytes w Dispatch.word_set) _ _ (Counted-or 6 _ (λ l g. (refl, l, g))) (
        Counted-if (same_bytes w Dispatch.word_stats) _ _ tt (
          Counted-if (same_bytes w Dispatch.word_shutdown) _ _ tt
            (Counted-if (same_bytes w Dispatch.word_slabs) _ _ tt tt)))

  add_request-Counted : (w : Bytes) → Counted n (Dispatch.add_request w n)
  unfolding Dispatch.add_request
  add_request-Counted w =
      Counted-if (same_bytes w Dispatch.word_add) _ _ (Counted-or 6 _ (λ l g. (refl, l, g))) (
        Counted-if (same_bytes w Dispatch.word_append) _ _ (Counted-or 6 _ (λ l g. (refl, l, g)))
          tt)

  cas_request-Counted : (w : Bytes) → Counted n (Dispatch.cas_request w n)
  unfolding Dispatch.cas_request
  cas_request-Counted w =
      Counted-if (same_bytes w Dispatch.word_cas) _ _ (Counted-or 7 _ (λ l g. (refl, l, g))) (
        Counted-if (same_bytes w Dispatch.word_cache_memlimit) _ _ (Counted-or 3 _ (λ l g. (l, g)))
          tt)

  delete_request-Counted : (w : Bytes) → Counted n (Dispatch.delete_request w n)
  unfolding Dispatch.delete_request
  delete_request-Counted w =
      Counted-if (same_bytes w Dispatch.word_delete) _ _ (Counted-between 3 5 _ (λ l g. (l, g)))
        (Counted-if (same_bytes w Dispatch.word_decr) _ _ (Counted-or 4 _ (λ l g. (l, g))) tt)

  other_request-Counted : (w last : Bytes) → Counted n (Dispatch.other_request w last n)
  unfolding Dispatch.other_request
  other_request-Counted w last =
      Counted-if (same_bytes w Dispatch.word_replace) _ _ (Counted-or 6 _ (λ l g. (refl, l, g))) (
        Counted-if (same_bytes w Dispatch.word_prepend) _ _ (Counted-or 6 _ (λ l g. (refl, l, g))) (
          Counted-if (same_bytes w Dispatch.word_bget) _ _ (Counted-min 3 _ (λ l. l)) (
            Counted-if (same_bytes w Dispatch.word_flush_all) _ _
              (Counted-between 2 4 _ (λ l g. (l, g)))
              (Counted-if (same_bytes w Dispatch.word_version) _ _ tt (
                Counted-if (same_bytes w Dispatch.word_quit) _ _ tt (
                  Counted-if (same_bytes w Dispatch.word_lru_crawler) _ _ tt (
                    Counted-if (same_bytes w Dispatch.word_watch) _ _ tt (
                      Counted-if (same_bytes w Dispatch.word_verbosity) _ _
                        (Counted-or 3 _ (λ l g. (l, g)))
                        (Counted-if (same_bytes w Dispatch.word_lru) _ _ (Counted-min 3 _ (λ l. l))
                          (Counted-if (same_bytes (take 5 last) Dispatch.http_start) _ _ tt
                            tt))))))))))

  request_of-Counted :
      (first second : ℕ) (w last : Bytes) → Counted n (Dispatch.request_of first second w last n)
  unfolding Dispatch.request_of
  request_of-Counted first second w last =
      Counted-if (first == 109 && length w == 2) _ _ (meta_request-Counted second) (
        Counted-if (first == 103) _ _ (Counted-min 3 _ (get_request-Counted w)) (
          Counted-if (first == 115) _ _ (set_request-Counted w) (
            Counted-if (first == 97) _ _ (add_request-Counted w) (
              Counted-if (first == 99) _ _ (cas_request-Counted w) (
                Counted-if (first == 105) _ _
                  (Counted-if (same_bytes w Dispatch.word_incr) _ _ (Counted-or 4 _ (λ l g. (l, g)))
                    tt)
                  (Counted-if (first == 100) _ _ (delete_request-Counted w) (
                    Counted-if (first == 116) _ _
                      (Counted-if (same_bytes w Dispatch.word_touch) _ _
                        (Counted-or 4 _ (λ l g. (l, g))) tt)
                      (other_request-Counted w last))))))))

choose-Counted : (tokens : List Bytes) → Counted (length tokens + 1) (Dispatch.choose tokens)
unfolding Dispatch.choose
choose-Counted tokens =
    let n = length tokens + 1 in
    let w = token tokens 0 in
    Counted-if n (ltb n 2 || ltb (length w) 2) _ _ tt
      (request_of-Counted n (Dispatch.byte_at w 0) (Dispatch.byte_at w 1) w (token tokens (n - 2)))

-- The handler that process_command calls for a line, whatever the line, has the number of tokens that it
-- relies on, the terminal one counted: a storage command 6 or 7, "cas" 7 or 8 and only it reads a CAS
-- value, "incr", "decr" and "touch" 4 or 5, "delete" 3 to 5, "flush_all" 2 to 4, "verbosity" and
-- "cache_memlimit" 3 or 4, and a get or "lru" 3 at least.
pub process_command-Counted :
    (command : Bytes)
    → Counted (length (Dispatch.process_command command).1 + 1) (Dispatch.process_command command).0
unfolding Dispatch.process_command
process_command-Counted command = choose-Counted (Dispatch.token_texts command)
