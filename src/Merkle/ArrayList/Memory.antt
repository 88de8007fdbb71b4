-- ===== src/Merkle/ArrayList/Memory.antt =====
-- src/merkle/mt_array_list.c: the heap accesses of the array list, where they stay in the block.
use kvsev.Prelude.{
  ℕ, zero, suc, ◌+◌, ◌*◌, ◌/◌, ◌≤◌, ◌<◌, ◌≡◌, refl, ◌≢◌, true, Option, some, arith, le→leb, ==_iff,
  ==_ne,
}
use kvsev.Prelude.Outcome.{done}
use kvsev.Merkle.Config.{Bytes}
use kvsev.Merkle.ArrayList.{Block, live, realloc, keep_below, assign, write, read}

pub realloc_live :
    (b : Block) (n : ℕ)
    → 0 < n
    → realloc true (live b) n
      ≡ done (true, live (record { size = n; slots = keep_below n b.slots }))
unfolding realloc
realloc_live b zero p = absurd (omega arith)
realloc_live b (suc n) p = refl

pub keep_below_lem :
    (size : ℕ) (slots : ℕ → Option Bytes) (i : ℕ)
    → i * 32 + 32 ≤ size
    → keep_below size slots i ≡ slots i
unfolding keep_below
keep_below_lem size slots i h = rw (le→leb _ _ h)

pub write_live :
    (b : Block) (offset : ℕ) (h : Bytes)
    → offset + 32 ≤ b.size
    → write (live b) offset h ≡ done (live (record b { slots = assign b.slots (offset / 32) h }))
unfolding write
write_live b offset h fits = rw (le→leb _ _ fits)

pub read_live :
    (b : Block) (offset : ℕ) (h : Bytes)
    → offset + 32 ≤ b.size
    → b.slots (offset / 32) ≡ some h
    → read (live b) offset ≡ done h
unfolding read
read_live b offset h fits e = rw (le→leb _ _ fits, e)

pub assign_self : (slots : ℕ → Option Bytes) (i : ℕ) (h : Bytes) → assign slots i h i ≡ some h
unfolding assign
assign_self slots i h = rw ((==_iff i i).1 refl)

pub assign_ne :
    (slots : ℕ → Option Bytes) (i j : ℕ) (h : Bytes) → i ≢ j → assign slots i h j ≡ slots j
unfolding assign
assign_ne slots i j h ne = rw (==_ne i j ne)
