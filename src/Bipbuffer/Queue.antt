-- ===== src/Bipbuffer/Queue.antt =====
-- memcached/bipbuffer.c: the buffer as a queue of bytes.
use kvsev.Prelude.{
  ℕ, ◌-◌, ◌≤◌, ◌<◌, ◌≡◌, refl, ◌∙◌, Bool, true, false, List, [], ◌++◌, length, arith, if◌then◌else◌,
  ltb, length-replicate,
}
use kvsev.Bipbuffer.{Bipbuf, sub_u32, sub_u64, unused, init, check_for_switch_to_b}
use kvsev.Bipbuffer.Region.{region}

-- The second region ends before the first starts; an empty first region is at 0. Sizes are `int`s.
pub record WellFormed (me : Bipbuf) : Type 0 where
  pub small : me.size < 2147483648
  pub backed : length me.bytes ≡ me.size
  pub ordered : me.a_start ≤ me.a_end
  pub inside : me.a_end ≤ me.size
  pub apart : me.b_end ≤ me.a_start
  pub closed : me.b_inuse ≡ false → me.b_end ≡ 0
  pub empty_low : me.a_start ≡ me.a_end → me.a_start ≡ 0

-- The bytes that wait, the oldest first.
abbrev pub content : Bipbuf → List ℕ
content me = region me.bytes me.a_start (me.a_end - me.a_start) ++ region me.bytes 0 me.b_end

-- The space for one write.
abbrev pub space : Bipbuf → ℕ
space me = if me.b_inuse then me.a_start - me.b_end else me.size - me.a_end

pub unused-space : (me : Bipbuf) → WellFormed me → unused me ≡ space me
unfolding unused
unused-space me w =
    let small = w.small in
    let ordered = w.ordered in
    let inside = w.inside in
    let apart = w.apart in
    let one : sub_u32 me.a_start me.b_end ≡ me.a_start - me.b_end =
      omega (arith, small, ordered, inside, apart) in
    let two : sub_u64 me.size me.a_end ≡ me.size - me.a_end =
      omega (arith, small, ordered, inside) in
    rw (one, two)

-- The switch keeps the bytes.
pub check-WellFormed : (me : Bipbuf) → WellFormed me → WellFormed (check_for_switch_to_b me)
unfolding check_for_switch_to_b
check-WellFormed me w = record {
  small = w.small;
  backed = w.backed;
  ordered = w.ordered;
  inside = w.inside;
  apart = w.apart;
  closed = λ e.
      w.closed
        (closed_before (ltb (sub_u64 me.size me.a_end) (sub_u32 me.a_start me.b_end)) me.b_inuse e);
  empty_low = w.empty_low;
}
  where
    closed_before : (t b : Bool) → (if t then true else b) ≡ false → b ≡ false
    closed_before true b e = cc e
    closed_before false b e = e

pub check-content : (me : Bipbuf) → content (check_for_switch_to_b me) ≡ content me
unfolding check_for_switch_to_b
check-content me = refl

-- A fresh buffer is well-formed and holds nothing.
pub init_lem : (n : ℕ) → n < 2147483648 → WellFormed (init n) × (content (init n) ≡ [])
unfolding init
init_lem n h = (
  record {
    small = h;
    backed = length-replicate n 0;
    ordered = omega arith;
    inside = omega arith;
    apart = omega arith;
    closed = λ e. refl;
    empty_low = λ e. refl;
  },
  refl,
)

-- What holds of a buffer that `d` was put in.
abbrev pub Holding : List ℕ → Bipbuf → Type 0
Holding xs me = WellFormed me × (content me ≡ xs)

pub check-Holding :
    (xs : List ℕ) (me : Bipbuf) → Holding xs me → Holding xs (check_for_switch_to_b me)
check-Holding xs me (w, e) = (check-WellFormed me w, check-content me ∙ e)
