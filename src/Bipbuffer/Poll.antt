-- ===== src/Bipbuffer/Poll.antt =====
-- memcached/bipbuffer.c: the read of bytes, and the change of regions.
use kvsev.Prelude.{
  ℕ, ◌+◌, ◌-◌, ◌%◌, ◌^◌, ◌≤◌, ◌≡◌, refl, ap, ◌∙◌, sym, ◌≢◌, Bool, true, false, none, some, [], ◌++◌,
  arith, ◌⊎◌, inl, inr, if◌then◌else◌, Bool-cases, ge→ltb, ◌==◌, ==_iff, ==_false,
}
use mathlib.Core.List.{append-nil, append_assoc}
use kvsev.Bipbuffer.{Bipbuf, is_empty, poll, settle}
use kvsev.Bipbuffer.Region.{region, region-append}
use kvsev.Bipbuffer.Queue.{WellFormed, content, Holding, check-Holding}

-- The end of a read: an empty first region is replaced by the second.
settle-Holding :
    (me : Bipbuf) (n : ℕ)
    → WellFormed me
    → n ≤ me.a_end - me.a_start
    → Holding
        (region me.bytes (me.a_start + n) (me.a_end - (me.a_start + n))
          ++ region me.bytes 0 me.b_end)
        (settle (record me { a_start = me.a_start + n }))
unfolding settle
settle-Holding me n w fits = elim (Bool-cases (me.a_start + n == me.a_end)) [
  | inl e ↦
      let z = (==_iff (me.a_start + n) me.a_end).0 e in
      let none_left : me.a_end - (me.a_start + n) ≡ 0 = omega (arith, z) in
      rw (e, none_left) (emptied me.b_inuse refl)
  | inr e ↦ let ne = ==_false (me.a_start + n) me.a_end e in rw e (rest ne)
]
  where
    rest :
        me.a_start + n ≢ me.a_end
        → Holding
            (region me.bytes (me.a_start + n) (me.a_end - (me.a_start + n))
              ++ region me.bytes 0 me.b_end)
            (record me { a_start = me.a_start + n })
    rest ne =
        let ordered = w.ordered in
        let apart = w.apart in
        (
          record {
            small = w.small;
            backed = w.backed;
            ordered = omega (arith, fits, ordered);
            inside = w.inside;
            apart = omega (arith, apart);
            closed = w.closed;
            empty_low = λ x. absurd (ne x);
          },
          refl,
        )

    emptied :
        (b : Bool)
        → me.b_inuse ≡ b
        → Holding (region me.bytes 0 me.b_end) (
            if b
            then record me { a_start = 0; a_end = me.b_end; b_end = 0; b_inuse = false }
            else record me { a_start = 0; a_end = 0 })
    emptied true on =
        let ordered = w.ordered in
        let apart = w.apart in
        let inside = w.inside in
        (
          record {
            small = w.small;
            backed = w.backed;
            ordered = omega arith;
            inside = omega (arith, ordered, apart, inside);
            apart = omega arith;
            closed = λ x. refl;
            empty_low = λ x. refl;
          },
          append-nil (region me.bytes 0 (me.b_end - 0)) ∙ ap (region me.bytes 0) (omega arith),
        )
    emptied false off =
        let none_b = w.closed off in
        (
          record {
            small = w.small;
            backed = w.backed;
            ordered = omega arith;
            inside = omega arith;
            apart = omega (arith, none_b);
            closed = w.closed;
            empty_low = λ x. refl;
          },
          refl,
        )

-- `bipbuf_poll` of at most the bytes of the first region takes the oldest bytes: it returns their place,
-- and the rest waits as before. Of an empty buffer it returns NULL and changes nothing.
pub poll_lem :
    (me : Bipbuf) (n : ℕ)
    → WellFormed me
    → n ≤ me.a_end - me.a_start
    → ((content me ≡ []) × (poll me n ≡ (me, none)))
      ⊎ (((poll me n).1 ≡ some me.a_start)
          × WellFormed (poll me n).0
          × (content me ≡ region me.bytes me.a_start n ++ content (poll me n).0))
unfolding poll is_empty
poll_lem me n w fits = elim (Bool-cases (me.a_start == me.a_end)) [
  | inl e ↦
      let z = (==_iff me.a_start me.a_end).0 e in
      let low = w.empty_low z in
      let apart = w.apart in
      let no_a : me.a_end - me.a_start ≡ 0 = omega (arith, z) in
      let no_b : me.b_end ≡ 0 = omega (arith, low, apart) in inl (rw (no_a, no_b), rw e)
  | inr e ↦
      let small = w.small in
      let inside = w.inside in
      let ordered = w.ordered in
      let k = me.a_end - me.a_start in
      let start : (me.a_start + n) % 2 ^ 32 ≡ me.a_start + n =
        omega (arith, small, inside, ordered, fits) in
      let in_size = ge→ltb me.size (me.a_start + n) (omega (arith, inside, ordered, fits)) in
      let count : k ≡ n + (me.a_end - (me.a_start + n)) = omega (arith, fits) in
      let settled = settle-Holding me n w fits in
      let (w', kept) = check-Holding _ _ settled in
      let split : content me
          ≡ region me.bytes me.a_start n
            ++ (region me.bytes (me.a_start + n) (me.a_end - (me.a_start + n))
                ++ region me.bytes 0 me.b_end) =
        ap (λ l. region me.bytes me.a_start l ++ region me.bytes 0 me.b_end) count
        ∙ ap (λ r. r ++ region me.bytes 0 me.b_end)
            (region-append me.bytes me.a_start n (me.a_end - (me.a_start + n)))
        ∙ append_assoc (region me.bytes me.a_start n)
            (region me.bytes (me.a_start + n) (me.a_end - (me.a_start + n)))
            (region me.bytes 0 me.b_end) in
      inr (
        rw (e, start, in_size),
        rw (e, start, in_size) w',
        rw (e, start, in_size) (split ∙ ap (λ r. region me.bytes me.a_start n ++ r) (sym kept)),
      )
]
