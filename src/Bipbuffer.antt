-- ===== src/Bipbuffer.antt =====
-- memcached/bipbuffer.c: the buffer of two regions that the logger's threads pass bytes through. A
-- function `bipbuf_f` is `f`. Positions are offsets from `data`.
pub mod Region
pub mod Queue
pub mod Offer
pub mod Poll
pub mod Views
mod Tests
use kvsev.Prelude.{
  ℕ, zero, suc, ◌+◌, ◌-◌, ◌%◌, ◌^◌, Bool, true, false, Option, none, some, List, [], ◌∷◌, ltb, ◌==◌,
  if◌then◌else◌, length, get_or, set, replicate,
}

-- `bipbuf_t`; `bytes` is `data`.
pub record Bipbuf : Type 0 where
  pub size : ℕ
  pub a_start : ℕ
  pub a_end : ℕ
  pub b_end : ℕ
  pub b_inuse : Bool
  pub bytes : List ℕ

-- Differences of `unsigned long` and of `unsigned int` operands, which wrap.
abbrev pub sub_u64 : ℕ → ℕ → ℕ
sub_u64 a b = (a + (2 ^ 64 - b)) % 2 ^ 64

abbrev pub sub_u32 : ℕ → ℕ → ℕ
sub_u32 a b = (a + (2 ^ 32 - b)) % 2 ^ 32

unfoldable pub unused : Bipbuf → ℕ
unused me = if me.b_inuse then sub_u32 me.a_start me.b_end else sub_u64 me.size me.a_end

unfoldable pub used : Bipbuf → ℕ
used me = (sub_u32 me.a_end me.a_start + me.b_end) % 2 ^ 32

-- `bipbuf_init`, on fresh memory.
unfoldable pub init : ℕ → Bipbuf
init size = record {
  size = size;
  a_start = 0;
  a_end = 0;
  b_end = 0;
  b_inuse = false;
  bytes = replicate size 0;
}

unfoldable pub is_empty : Bipbuf → Bool
is_empty me = me.a_start == me.a_end

-- `__check_for_switch_to_b`
unfoldable pub check_for_switch_to_b : Bipbuf → Bipbuf
check_for_switch_to_b me = record me {
  b_inuse =
      if ltb (sub_u64 me.size me.a_end) (sub_u32 me.a_start me.b_end) then true else me.b_inuse;
}

-- `memcpy` to an offset.
unfoldable pub copy : List ℕ → ℕ → List ℕ → List ℕ
copy bytes p [] = bytes
copy bytes p (x ∷ rest) = copy (set bytes p x) (suc p) rest

-- The place for a write of `n` bytes, without the write (`none` is 0).
unfoldable pub request : Bipbuf → ℕ → Option ℕ
request me n = if ltb (unused me) n then none else some (if me.b_inuse then me.b_end else me.a_end)

unfoldable pub push : Bipbuf → ℕ → Bipbuf × ℕ
push me n = if ltb (unused me) n then (me, 0) else (
  check_for_switch_to_b (
      if me.b_inuse
      then record me { b_end = (me.b_end + n) % 2 ^ 32 }
      else record me { a_end = (me.a_end + n) % 2 ^ 32 }),
  n,
)

unfoldable pub offer : Bipbuf → List ℕ → Bipbuf × ℕ
offer me d = if ltb (unused me) (length d) then (me, 0) else (
  check_for_switch_to_b (
      if me.b_inuse
      then record me { bytes = copy me.bytes me.b_end d; b_end = (me.b_end + length d) % 2 ^ 32 }
      else record me { bytes = copy me.bytes me.a_end d; a_end = (me.a_end + length d) % 2 ^ 32 }),
  length d,
)

-- The offset of `n` bytes to read, if that many fit in the buffer.
unfoldable pub peek : Bipbuf → ℕ → Option ℕ
peek me n =
    if ltb me.size ((me.a_start + n) % 2 ^ 32)
    then none
    else if is_empty me
    then none
    else some me.a_start

-- The offset and the number of the bytes of the first region.
unfoldable pub peek_all : Bipbuf → Option (ℕ × ℕ)
peek_all me = if is_empty me then none else some (me.a_start, sub_u32 me.a_end me.a_start)

-- The end of `bipbuf_poll`: an empty first region is replaced.
unfoldable pub settle : Bipbuf → Bipbuf
settle me =
    if me.a_start == me.a_end
    then if me.b_inuse
      then record me { a_start = 0; a_end = me.b_end; b_end = 0; b_inuse = false }
      else record me { a_start = 0; a_end = 0 }
    else me

unfoldable pub poll : Bipbuf → ℕ → Bipbuf × Option ℕ
poll me n =
    if is_empty me
    then (me, none)
    else if ltb me.size ((me.a_start + n) % 2 ^ 32)
    then (me, none)
    else (
      check_for_switch_to_b (settle (record me { a_start = (me.a_start + n) % 2 ^ 32 })),
      some me.a_start,
    )
