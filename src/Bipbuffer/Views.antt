-- ===== src/Bipbuffer/Views.antt =====
-- memcached/bipbuffer.c: the calls that look at the buffer, and the write in two steps.
use kvsev.Prelude.{
  ℕ, zero, suc, ◌+◌, ◌-◌, ◌%◌, ◌^◌, ◌≡◌, refl, ap, ◌∙◌, sym, Bool, true, false, none, some, List,
  length, arith, inl, inr, if◌then◌else◌, ltb, Bool-cases, length-append, ◌==◌, ==_iff, ==_false,
  ==_ne, if_true, if_false,
}
use kvsev.Bipbuffer.{
  Bipbuf, unused, used, is_empty, check_for_switch_to_b, copy, offer, push, request,
}
use kvsev.Bipbuffer.Region.{region}
use kvsev.Bipbuffer.Queue.{WellFormed, content}

length-region : (bytes : List ℕ) (i n : ℕ) → length (region bytes i n) ≡ n
length-region bytes i zero = refl
length-region bytes i (suc n) = ap suc (length-region bytes (suc i) n)

-- `bipbuf_used` counts the bytes that wait, and `bipbuf_is_empty` tells whether there are none.
pub used_lem :
    (me : Bipbuf)
    → WellFormed me
    → (used me ≡ length (content me)) × (is_empty me ≡ (length (content me) == 0))
unfolding used is_empty
used_lem me w =
    let small = w.small in
    let ordered = w.ordered in
    let inside = w.inside in
    let apart = w.apart in
    let one : length (content me) ≡ me.a_end - me.a_start + me.b_end =
      length-append (region me.bytes me.a_start (me.a_end - me.a_start))
        (region me.bytes 0 me.b_end)
      ∙ omega (
        arith,
        length-region me.bytes me.a_start (me.a_end - me.a_start),
        length-region me.bytes 0 me.b_end,
      ) in
    (
      omega (arith, one, small, ordered, inside, apart),
      elim (Bool-cases (me.a_start == me.a_end)) [
        | inl e ↦
            let z = (==_iff me.a_start me.a_end).0 e in
            let low = w.empty_low z in
            e ∙ sym ((==_iff (length (content me)) 0).1 (omega (arith, one, z, low, apart)))
        | inr e ↦
            let ne = ==_false me.a_start me.a_end e in
            e ∙ sym (==_ne (length (content me)) 0 (λ z. omega (arith, one, z, ne, ordered)))
      ],
    )

-- A request, a copy to its place and a push make an offer.
pub offer-push :
    (me : Bipbuf) (d : List ℕ) (p : ℕ)
    → request me (length d) ≡ some p
    → offer me d ≡ push (record me { bytes = copy me.bytes p d }) (length d)
unfolding offer push request unused
offer-push me d p h = elim (Bool-cases (ltb (unused me) n)) [
  | inl e ↦ cc (sym (if_true (ltb (unused me) n) none (some place) e) ∙ h)
  | inr e ↦
      let at : some place ≡ some p = sym (if_false (ltb (unused me) n) none (some place) e) ∙ h in
      if_false (ltb (unused me) n) (me, 0)
        (check_for_switch_to_b (if me.b_inuse then put_b me.b_end else put_a me.a_end), n) e
      ∙ ap (λ r. (check_for_switch_to_b r, n)) (same me.b_inuse (cc at))
      ∙ sym (
          if_false (ltb (unused me) n) (record me { bytes = copy me.bytes p d }, 0)
            (check_for_switch_to_b (if me.b_inuse then put_b p else put_a p), n) e)
]
  where
    n : ℕ
    n = length d

    place : ℕ
    place = if me.b_inuse then me.b_end else me.a_end

    put_a : ℕ → Bipbuf
    put_a q = record me { bytes = copy me.bytes q d; a_end = (me.a_end + length d) % 2 ^ 32 }

    put_b : ℕ → Bipbuf
    put_b q = record me { bytes = copy me.bytes q d; b_end = (me.b_end + length d) % 2 ^ 32 }

    same :
        (b : Bool)
        → (if b then me.b_end else me.a_end) ≡ p
        → (if b then put_b me.b_end else put_a me.a_end) ≡ (if b then put_b p else put_a p)
    same true e = ap put_b e
    same false e = ap put_a e
