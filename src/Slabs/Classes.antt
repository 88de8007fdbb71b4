-- ===== src/Slabs/Classes.antt =====
-- memcached/slabs.c: slabs_clsid.
use kvsev.Prelude.{
  ℕ, zero, suc, ◌+◌, ◌≤◌, ◌<◌, ◌≡◌, refl, sym, false, ◌||◌, ◌⊎◌, inl, inr, ltb, ◌==◌, Bool-cases,
  arith, ltb→lt, ltb→ge, ==_iff, ==_false, ==_ne, ge→ltb, subst, if_false,
}
use kvsev.Slabs.{Slabs, clsid_loop, slabs_clsid}

-- `r` is a class from `res` on; the classes before it are too small, and it is large enough or the last.
abbrev pub Smallest : Slabs → ℕ → ℕ → ℕ → Type 0
Smallest s size res r =
    (res ≤ r)
    × (r ≤ s.power_largest)
    × ((size ≤ (s.slabclass r).size) ⊎ (r ≡ s.power_largest))
    × ((j : ℕ) → res ≤ j → j < r → (s.slabclass j).size < size)

clsid_loop-Smallest :
    (s : Slabs) (size left res : ℕ)
    → res ≤ s.power_largest
    → s.power_largest < res + left
    → Smallest s size res (clsid_loop s size left res)
unfolding clsid_loop
clsid_loop-Smallest s size zero res le enough = absurd (omega (arith, le, enough))
clsid_loop-Smallest s size (suc left) res le enough =
    elim (Bool-cases (ltb (s.slabclass res).size size)) [
      | inr fits ↦ rw fits (
        omega arith,
        le,
        inl (ltb→ge (s.slabclass res).size size fits),
        λ j a b. absurd (omega (arith, a, b)),
      )
      | inl small ↦ elim (Bool-cases (res == s.power_largest)) [
        | inl e ↦
            let last = (==_iff res s.power_largest).0 e in
            rw (small, e) (le, omega arith, inr refl, λ j a b. absurd (omega (arith, a, b, last)))
        | inr ne ↦
            let other = ==_false res s.power_largest ne in
            let (from, to, good, before) =
              clsid_loop-Smallest s size left (res + 1) (omega (arith, le, other))
                (omega (arith, enough)) in
            rw (small, ne)
              (
                omega (arith, from),
                to,
                good,
                λ j a b. elim (Bool-cases (j == res)) [
                  | inl e ↦
                      let at = (==_iff j res).0 e in
                      rw at (ltb→lt (s.slabclass res).size size small)
                  | inr e ↦ let off = ==_false j res e in before j (omega (arith, a, off)) b
                ],
              )
      ]
    ]

-- The class of a size that is allowed: every class below it is too small, and its items are large enough,
-- unless it is the last class.
pub slabs_clsid_lem :
    (s : Slabs) (size : ℕ)
    → 0 < s.power_largest
    → 0 < size
    → size ≤ s.item_size_max
    → Smallest s size 1 (slabs_clsid s size)
unfolding slabs_clsid
slabs_clsid_lem s size some_class positive allowed =
    let test : (size == 0 || ltb s.item_size_max size) ≡ false =
      rw (==_ne size 0 (omega (arith, positive)), ge→ltb s.item_size_max size allowed) refl in
    subst (Smallest s size 1)
      (sym (
        if_false (size == 0 || ltb s.item_size_max size) 0 (clsid_loop s size s.power_largest 1)
          test))
      (clsid_loop-Smallest s size s.power_largest 1 (omega (arith, some_class)) (omega arith))
