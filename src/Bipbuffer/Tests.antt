-- ===== src/Bipbuffer/Tests.antt =====
-- memcached/bipbuffer.c: a buffer of four bytes that wraps, and the theorems at it.
use kvsev.Prelude.{◌≤◌, ◌<◌, ◌≡◌, ◌⊎◌, refl, true, false, none, some, [], ◌∷◌, ◌++◌, arith}
use kvsev.Bipbuffer.{
  Bipbuf, unused, used, init, is_empty, check_for_switch_to_b, copy, request, push, offer, settle,
  poll,
}
use kvsev.Bipbuffer.Queue.{WellFormed, content, space}
use kvsev.Bipbuffer.Offer.{offer_lem}
use kvsev.Bipbuffer.Poll.{poll_lem}

-- Three bytes of four wait; then two are read, and the next write goes before them.
abbrev three : Bipbuf
three = record {
  size = 4;
  a_start = 0;
  a_end = 3;
  b_end = 0;
  b_inuse = false;
  bytes = 1 ∷ 2 ∷ 3 ∷ 0 ∷ [];
}

abbrev wrapped : Bipbuf
wrapped = record three { a_start = 2; b_inuse = true }

abbrev wrapped_full : Bipbuf
wrapped_full = record wrapped { b_end = 2; bytes = 4 ∷ 5 ∷ 3 ∷ 0 ∷ [] }

program : Unit {0}
unfolding unused used init is_empty check_for_switch_to_b copy request push offer settle poll
program = tt

first_offer : offer (init 4) (1 ∷ 2 ∷ 3 ∷ []) ≡ (three, 3)
unfolding program
first_offer = refl

first_poll : poll three 2 ≡ (wrapped, some 0)
unfolding program
first_poll = refl

second_offer : offer wrapped (4 ∷ 5 ∷ []) ≡ (wrapped_full, 2)
unfolding program
second_offer = refl

place_wrapped : request wrapped 2 ≡ some 0
unfolding program
place_wrapped = refl

three-WellFormed : WellFormed three
three-WellFormed = record {
  small = omega arith;
  backed = refl;
  ordered = omega arith;
  inside = omega arith;
  apart = omega arith;
  closed = λ e. refl;
  empty_low = λ e. refl;
}

wrapped-WellFormed : WellFormed wrapped
wrapped-WellFormed = record {
  small = omega arith;
  backed = refl;
  ordered = omega arith;
  inside = omega arith;
  apart = omega arith;
  closed = λ e. refl;
  empty_low = λ e. absurd (omega (arith, e));
}

offer_lem_example :
    ((2 ≤ space wrapped)
      × ((offer wrapped (4 ∷ 5 ∷ [])).1 ≡ 2)
      × WellFormed (offer wrapped (4 ∷ 5 ∷ [])).0
      × (content (offer wrapped (4 ∷ 5 ∷ [])).0 ≡ 3 ∷ 4 ∷ 5 ∷ []))
    ⊎ ((space wrapped < 2) × (offer wrapped (4 ∷ 5 ∷ []) ≡ (wrapped, 0)))
offer_lem_example = offer_lem wrapped (4 ∷ 5 ∷ []) wrapped-WellFormed

poll_lem_example :
    ((content three ≡ []) × (poll three 2 ≡ (three, none)))
    ⊎ (((poll three 2).1 ≡ some 0)
        × WellFormed (poll three 2).0
        × (1 ∷ 2 ∷ 3 ∷ [] ≡ (1 ∷ 2 ∷ []) ++ content (poll three 2).0))
poll_lem_example = poll_lem three 2 three-WellFormed (omega arith)
