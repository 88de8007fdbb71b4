-- ===== src/Slabs/Memory.antt =====
-- memcached/slabs.c: the memory that do_slabs_newslab asks for, against the limit.
use kvsev.Prelude.{
  ℕ, zero, suc, ◌+◌, ◌-◌, ◌*◌, ◌%◌, ◌≤◌, ◌<◌, ◌≡◌, refl, sym, ap, ◌∙◌, Bool, true, false, ◌&&◌,
  ◌||◌, not, Option, none, some, ltb, ◌==◌, ==_iff, ==_ne, if_true, if_false, if_either,
  if◌then◌else◌, length, get_elem?, get_elem?-some, arith, subst, lt→ltb, ltb→lt, ltb→ge,
  Bool-cases, inl, inr,
}
use kvsev.Lru.{put}
use kvsev.Lru.Chains.{put_ne}
use kvsev.Slabs.{
  SlabClass, Slabs, do_slabs_free, split_page, get_page_from_global_pool, aligned, memory_allocate,
  grow_slab_list, wiped, use_page, page_length, take_page, do_slabs_newslab,
}

-- The memory stays within `limit`.
abbrev Within : ℕ → Slabs → Type 0
Within limit s = s.mem_malloced ≤ limit

do_slabs_free-Within :
    (limit : ℕ) (s : Slabs) (a id : ℕ) → Within limit s → Within limit (do_slabs_free s a id)
unfolding do_slabs_free
do_slabs_free-Within limit s a id h =
    if_either (Within limit) (ltb id 1 || ltb s.power_largest id) h h

split_page-Within :
    (limit left : ℕ) (s : Slabs) (a id : ℕ) → Within limit s → Within limit (split_page left s a id)
unfolding split_page
split_page-Within limit zero s a id h = h
split_page-Within limit (suc left) s a id h =
    split_page-Within limit left (do_slabs_free s a id) (a + (s.slabclass id).size) id
      (do_slabs_free-Within limit s a id h)

use_page-Within :
    (limit : ℕ) (s : Slabs) (id a len : ℕ) → Within limit s → Within limit (use_page s id a len)
unfolding use_page wiped
use_page-Within limit s id a len h =
    split_page-Within limit (s.slabclass id).perslab (wiped s a len) a id h

aligned_lem : (n : ℕ) → n % 8 ≡ 0 → aligned n ≡ n
aligned_lem n h = if_true (n % 8 == 0) n (n + (8 - n % 8)) ((==_iff (n % 8) 0).1 h)

memory_allocate-Within :
    (limit : ℕ) (malloc : Option ℕ) (s : Slabs) (len : ℕ)
    → len % 8 ≡ 0
    → s.mem_malloced + len ≤ limit
    → Within limit (memory_allocate malloc s len).0
unfolding memory_allocate
memory_allocate-Within limit malloc s len whole room = go s.mem_base
  where
    taken : Slabs
    taken = record s {
      mem_current = s.mem_current + aligned len;
      mem_avail = if ltb (aligned len) s.mem_avail then s.mem_avail - aligned len else 0;
      mem_malloced = s.mem_malloced + aligned len;
    }

    go :
        (m : Option ℕ)
        → Within limit
            (elim m as (λ _. Slabs × Option ℕ) [
              | none ↦ (record s { mem_malloced = s.mem_malloced + len }, malloc)
              | some base ↦ if ltb s.mem_avail len then (s, none) else (taken, some s.mem_current)
            ]).0
    go none = room
    go (some base) =
        let same = aligned_lem len whole in
        if_either (λ (r : Slabs × Option ℕ). Within limit r.0) (ltb s.mem_avail len)
          (omega (arith, room)) (omega (arith, same, room))

-- The pool gives a page if it has one.
take_page-Within :
    (limit : ℕ) (malloc : Option ℕ) (s : Slabs) (len : ℕ)
    → len % 8 ≡ 0
    → Within limit s
    → (s.slabclass 0).slabs ≤ length (s.slabclass 0).slab_list
    → ((s.slabclass 0).slabs ≡ 0 → s.mem_malloced + len ≤ limit)
    → Within limit (take_page malloc s len).0
unfolding take_page get_page_from_global_pool
take_page-Within limit malloc s len whole h listed room =
    let p = s.slabclass 0 in
    let rest : Slabs = record s {
      slabclass = put s.slabclass 0 (record p { slabs = p.slabs - 1 });
    } in
    let Ends = λ (r : Slabs × Option ℕ).
      Within limit
        (elim r.1 as (λ _. Slabs × Option ℕ) [
          | some ptr ↦ r
          | none ↦ memory_allocate malloc r.0 len
        ]).0 in
    elim (Bool-cases (ltb p.slabs 1)) [
      | inl e ↦
          let none_left = ltb→lt p.slabs 1 e in
          subst Ends
            (sym (if_true (ltb p.slabs 1) (s, none) (rest, get_elem? p.slab_list (p.slabs - 1)) e))
            (memory_allocate-Within limit malloc s len whole (room (omega arith)))
      | inr e ↦
          let some_left = ltb→ge p.slabs 1 e in
          let (ptr, at) =
            get_elem?-some p.slab_list (p.slabs - 1) (omega (arith, listed, some_left)) in
          subst Ends
            (sym (
              if_false (ltb p.slabs 1) (s, none) (rest, get_elem? p.slab_list (p.slabs - 1)) e
              ∙ ap (λ m. (rest, m)) at))
            h
    ]

-- The growth of the list leaves the memory and the pool.
grow_slab_list_lem :
    (realloc : Bool) (s : Slabs) (id : ℕ) (s' : Slabs)
    → 0 < id
    → grow_slab_list realloc s id ≡ some s'
    → (s'.mem_malloced ≡ s.mem_malloced) × (s'.slabclass 0 ≡ s.slabclass 0)
unfolding grow_slab_list
grow_slab_list_lem realloc s id s' low is =
    let p = s.slabclass id in
    let v : SlabClass = record p { list_size = if p.list_size == 0 then 16 else p.list_size * 2 } in
    let grown : Slabs = record s { slabclass = put s.slabclass id v } in
    let Same = λ (m : Option Slabs).
      (t : Slabs)
      → m ≡ some t
      → (t.mem_malloced ≡ s.mem_malloced) × (t.slabclass 0 ≡ s.slabclass 0) in
    let larger : Same (some grown) = λ t e.
      let at : grown ≡ t = cc e in
      (
        ap (λ (u : Slabs). u.mem_malloced) (sym at),
        ap (λ (u : Slabs). u.slabclass 0) (sym at)
            ∙ put_ne s.slabclass id v 0 (λ w. omega (arith, w, low)),
      ) in
    let same : Same (some s) = λ t e.
      let at : s ≡ t = cc e in
      (ap (λ (u : Slabs). u.mem_malloced) (sym at), ap (λ (u : Slabs). u.slabclass 0) (sym at)) in
    if_either Same (p.slabs == p.list_size) (if_either Same realloc larger (λ t e. cc e)) same s' is

-- While a class has a page, the limit is not passed for another one: a page of the pool is taken, or
-- memory up to the limit, or nothing. The length of a page is a multiple of 8, and the list of the pool
-- has its pages.
pub do_slabs_newslab_lem :
    (malloc : Option ℕ) (realloc : Bool) (s : Slabs) (id : ℕ)
    → 0 < id
    → 0 < s.mem_limit
    → s.mem_malloced ≤ s.mem_limit
    → 0 < (s.slabclass id).slabs
    → (s.slabclass 0).slabs ≤ length (s.slabclass 0).slab_list
    → page_length s id % 8 ≡ 0
    → (do_slabs_newslab malloc realloc s id).0.mem_malloced ≤ s.mem_limit
unfolding do_slabs_newslab
do_slabs_newslab_lem malloc realloc s id low limited h paged listed whole =
    let len = page_length s id in
    elim (Bool-cases full) [
      | inl e ↦
          subst Bounded
            (sym (
              if_true full (record s { mem_limit_reached = true }, false)
                (rest (grow_slab_list realloc s id)) e))
            h
      | inr e ↦
          subst Bounded
            (sym (
              if_false full (record s { mem_limit_reached = true }, false)
                (rest (grow_slab_list realloc s id)) e))
            (go e (grow_slab_list realloc s id) refl)
    ]
  where
    Bounded : Slabs × Bool → Type 0
    Bounded r = Within s.mem_limit r.0

    full : Bool
    full =
        not (s.mem_limit == 0)
        && (ltb s.mem_limit (s.mem_malloced + page_length s id)
            && (ltb 0 (s.slabclass id).slabs && (s.slabclass 0).slabs == 0))

    ends : Slabs × Option ℕ → Slabs × Bool
    ends page = elim page.1 [
      | none ↦ (page.0, false)
      | some ptr ↦ (use_page page.0 id ptr (page_length s id), true)
    ]

    rest : Option Slabs → Slabs × Bool
    rest none = (s, false)
    rest (some s') = ends (take_page malloc s' (page_length s id))

    ends-Within : (page : Slabs × Option ℕ) → Within s.mem_limit page.0 → Bounded (ends page)
    ends-Within (t, none) k = k
    ends-Within (t, some ptr) k = use_page-Within s.mem_limit t id ptr (page_length s id) k

    room :
        full ≡ false → (s.slabclass 0).slabs ≡ 0 → s.mem_malloced + page_length s id ≤ s.mem_limit
    room e none_left = elim (Bool-cases (ltb s.mem_limit (s.mem_malloced + page_length s id))) [
      | inr le ↦ ltb→ge s.mem_limit (s.mem_malloced + page_length s id) le
      | inl over ↦
          let is_full : full ≡ true =
            rw
              (
                ==_ne s.mem_limit 0 (omega (arith, limited)),
                over,
                lt→ltb 0 (s.slabclass id).slabs paged,
                (==_iff (s.slabclass 0).slabs 0).1 none_left,
              )
              refl in
          absurd (cc (e, is_full))
    ]

    go : full ≡ false → (m : Option Slabs) → grow_slab_list realloc s id ≡ m → Bounded (rest m)
    go e none is = h
    go e (some s') is =
        let (mem, pool) = grow_slab_list_lem realloc s id s' low is in
        let r = room e in
        ends-Within (take_page malloc s' (page_length s id)) (
          take_page-Within s.mem_limit malloc s' (page_length s id) whole (omega (arith, mem, h))
            (rw pool listed)
            (λ w.
              let k = r (ap (λ (c : SlabClass). c.slabs) (sym pool) ∙ w) in omega (arith, mem, k)))
