-- ===== src/Bipbuffer/Offer.antt =====
-- memcached/bipbuffer.c: the write of bytes, in either region.
use kvsev.Prelude.{
  ℕ, ◌+◌, ◌-◌, ◌%◌, ◌^◌, ◌≤◌, ◌<◌, ◌≡◌, refl, ap, ◌∙◌, sym, Bool, true, false, List, ◌++◌, length,
  arith, ◌⊎◌, inl, inr, if◌then◌else◌, if_true, ltb, Bool-cases, ltb→lt, ltb→ge,
}
use mathlib.Core.List.{append-nil, append_assoc}
use kvsev.Bipbuffer.{Bipbuf, unused, check_for_switch_to_b, copy, offer}
use kvsev.Bipbuffer.Region.{
  region, length-copy, region-copy_before, region-copy_after, region-copy_self, region-append,
}
use kvsev.Bipbuffer.Queue.{WellFormed, content, space, unused-space, Holding, check-Holding}

-- The two writes of an offer, where there is space.
abbrev written_a : Bipbuf → List ℕ → Bipbuf
written_a me d = record me {
  bytes = copy me.bytes me.a_end d;
  a_end = (me.a_end + length d) % 2 ^ 32;
}

abbrev written_b : Bipbuf → List ℕ → Bipbuf
written_b me d = record me {
  bytes = copy me.bytes me.b_end d;
  b_end = (me.b_end + length d) % 2 ^ 32;
}

written_a-WellFormed :
    (me : Bipbuf) (d : List ℕ)
    → WellFormed me
    → me.b_inuse ≡ false
    → length d ≤ me.size - me.a_end
    → WellFormed (written_a me d) × (content (written_a me d) ≡ content me ++ d)
written_a-WellFormed me d w off fits =
    let small = w.small in
    let ordered = w.ordered in
    let inside = w.inside in
    let backed = w.backed in
    let none_b = w.closed off in
    let end : (me.a_end + length d) % 2 ^ 32 ≡ me.a_end + length d =
      omega (arith, small, inside, fits) in
    let k = me.a_end - me.a_start in
    let count : (me.a_end + length d) % 2 ^ 32 - me.a_start ≡ k + length d =
      omega (arith, end, ordered) in
    let place : me.a_start + k ≡ me.a_end = omega (arith, ordered) in
    let bytes = copy me.bytes me.a_end d in
    let first : region bytes me.a_start ((me.a_end + length d) % 2 ^ 32 - me.a_start)
        ≡ region me.bytes me.a_start k ++ d =
      ap (region bytes me.a_start) count
      ∙ region-append bytes me.a_start k (length d)
      ∙ ap (λ r. r ++ region bytes (me.a_start + k) (length d))
          (region-copy_before me.bytes me.a_end d me.a_start k (omega (arith, place)))
      ∙ ap (λ j. region me.bytes me.a_start k ++ region bytes j (length d)) place
      ∙ ap (λ r. region me.bytes me.a_start k ++ r)
          (region-copy_self me.bytes me.a_end d (omega (arith, backed, inside, fits))) in
    (
      record {
        small = w.small;
        backed = length-copy me.bytes me.a_end d ∙ w.backed;
        ordered = omega (arith, end, ordered);
        inside = omega (arith, end, inside, fits);
        apart = w.apart;
        closed = w.closed;
        empty_low = λ e. w.empty_low (omega (arith, e, end, ordered));
      },
      ap (λ r. r ++ region bytes 0 me.b_end) first
          ∙ ap (λ n. region me.bytes me.a_start k ++ d ++ region bytes 0 n) none_b
          ∙ append-nil (region me.bytes me.a_start k ++ d)
          ∙ ap (λ l. l ++ d)
              (sym (
                ap (λ n. region me.bytes me.a_start k ++ region me.bytes 0 n) none_b
                ∙ append-nil (region me.bytes me.a_start k))),
    )

written_b-WellFormed :
    (me : Bipbuf) (d : List ℕ)
    → WellFormed me
    → me.b_inuse ≡ true
    → length d ≤ me.a_start - me.b_end
    → WellFormed (written_b me d) × (content (written_b me d) ≡ content me ++ d)
written_b-WellFormed me d w on fits =
    let small = w.small in
    let ordered = w.ordered in
    let inside = w.inside in
    let apart = w.apart in
    let backed = w.backed in
    let end : (me.b_end + length d) % 2 ^ 32 ≡ me.b_end + length d =
      omega (arith, small, inside, ordered, apart, fits) in
    let k = me.a_end - me.a_start in
    let bytes = copy me.bytes me.b_end d in
    let second : region bytes 0 ((me.b_end + length d) % 2 ^ 32) ≡ region me.bytes 0 me.b_end ++ d =
      ap (region bytes 0) end
      ∙ region-append bytes 0 me.b_end (length d)
      ∙ ap (λ r. r ++ region bytes (0 + me.b_end) (length d))
          (region-copy_before me.bytes me.b_end d 0 me.b_end (omega arith))
      ∙ ap (λ j. region me.bytes 0 me.b_end ++ region bytes j (length d)) (omega arith)
      ∙ ap (λ r. region me.bytes 0 me.b_end ++ r)
          (region-copy_self me.bytes me.b_end d
            (omega (arith, backed, inside, ordered, apart, fits))) in
    let first = region-copy_after me.bytes me.b_end d me.a_start k (omega (arith, apart, fits)) in
    (
      record {
        small = w.small;
        backed = length-copy me.bytes me.b_end d ∙ w.backed;
        ordered = w.ordered;
        inside = w.inside;
        apart = omega (arith, end, apart, fits);
        closed = λ e. cc (on, e);
        empty_low = w.empty_low;
      },
      ap (λ r. r ++ region bytes 0 ((me.b_end + length d) % 2 ^ 32)) first
          ∙ ap (λ r. region me.bytes me.a_start k ++ r) second
          ∙ sym (append_assoc (region me.bytes me.a_start k) (region me.bytes 0 me.b_end) d),
    )

-- `bipbuf_offer` puts the bytes behind those that wait and returns their number, if they fit in the
-- space for one write; if not, it changes nothing and returns 0.
pub offer_lem :
    (me : Bipbuf) (d : List ℕ)
    → WellFormed me
    → ((length d ≤ space me)
        × ((offer me d).1 ≡ length d)
        × WellFormed (offer me d).0
        × (content (offer me d).0 ≡ content me ++ d))
      ⊎ ((space me < length d) × (offer me d ≡ (me, 0)))
unfolding offer
offer_lem me d w = elim (Bool-cases (ltb (unused me) (length d))) [
  | inl e ↦
      let room = unused-space me w in
      let more = ltb→lt (unused me) (length d) e in
      inr (rw (← room) more, if_true (ltb (unused me) (length d)) (me, 0) _ e)
  | inr e ↦
      let room = unused-space me w in
      let fits : length d ≤ space me = rw (← room) (ltb→ge (unused me) (length d) e) in
      let (w', kept) = stored_in me.b_inuse refl fits in inl (fits, rw e, rw e w', rw e kept)
]
  where
    stored_in :
        (b : Bool)
        → me.b_inuse ≡ b
        → length d ≤ space me
        → Holding
            (content me ++ d)
            (check_for_switch_to_b (if b then written_b me d else written_a me d))
    stored_in true on fits =
        check-Holding (content me ++ d) (written_b me d)
          (written_b-WellFormed me d w on (rw on at fits))
    stored_in false off fits =
        check-Holding (content me ++ d) (written_a me d)
          (written_a-WellFormed me d w off (rw off at fits))
