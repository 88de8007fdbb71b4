-- ===== src/Text/Tokens/Words.antt =====
-- memcached/proto_text.c: the tokens of a command against its words.
use mathlib.Core.List.{append-nil, append_assoc}
use native.Mathlib.Numerals.{unary_clauses}
use kvsev.Prelude.{
  ℕ, zero, suc, ◌+◌, ◌-◌, ◌≤◌, ◌<◌, ◌≡◌, refl, sym, ◌∙◌, ap, true, false, List, [], ◌∷◌, ◌++◌, ◌==◌,
  if◌then◌else◌, length, take, drop, length-append, Bool-cases, inl, inr, arith, ==_iff, ==_ne,
  ==_false, map, subst, if_true, if_false,
}
use kvsev.Text.Tokens.{Token, tokenize_loop, last_token, tokenize_command}

-- The bytes of a token.
abbrev pub text : List ℕ → Token → List ℕ
text command (s, n) = take n (drop s command)

-- A word that is kept, if it is not empty.
abbrev pub word : List ℕ → List (List ℕ) → List (List ℕ)
word [] later = later
word (x ∷ cur) later = (x ∷ cur) ∷ later

-- The words of a line: the runs between spaces. `cur` is the run before the line.
abbrev pub words_from : List ℕ → List ℕ → List (List ℕ)
words_from cur [] = word cur []
words_from cur (c ∷ rest) =
    let more = words_from (cur ++ c ∷ []) rest in
    let later = word cur (words_from [] rest) in if c == 32 then later else more

text-append : (q cur rest : List ℕ) → text (q ++ (cur ++ rest)) (length q, length cur) ≡ cur
text-append [] [] rest = refl
text-append [] (x ∷ cur) rest = ap (λ l. x ∷ l) (text-append [] cur rest)
text-append (x ∷ q) cur rest = text-append q cur rest

map-append : {A B : Type 0} (f : A → B) (xs ys : List A) → map f (xs ++ ys) ≡ map f xs ++ map f ys
map-append f [] ys = refl
map-append f (x ∷ xs) ys = ap (λ l. f x ∷ l) (map-append f xs ys)

take-nil : (n : ℕ) → take {A = List ℕ} n [] ≡ []
take-nil zero = refl
take-nil (suc n) = refl

take_cons :
    (n : ℕ) (w : List ℕ) (ws : List (List ℕ)) → 0 < n → take n (w ∷ ws) ≡ w ∷ take (n - 1) ws
take_cons zero w ws h = absurd (omega arith)
take_cons (suc n) w ws h = simp unary_clauses refl

-- One more byte read, as part of the word or as the space behind it.
longer :
    (q cur : List ℕ) (c : ℕ) (rest : List ℕ)
    → q ++ (cur ++ c ∷ rest) ≡ q ++ ((cur ++ c ∷ []) ++ rest)
longer q cur c rest = ap (λ l. q ++ l) (sym (append_assoc cur (c ∷ []) rest))

past :
    (q cur : List ℕ) (c : ℕ) (rest : List ℕ)
    → q ++ (cur ++ c ∷ rest) ≡ (q ++ (cur ++ c ∷ [])) ++ rest
past q cur c rest = longer q cur c rest ∙ sym (append_assoc q (cur ++ c ∷ []) rest)

length-past : (q cur : List ℕ) (c : ℕ) → length (q ++ (cur ++ c ∷ [])) ≡ length q + length cur + 1
length-past q cur c = omega (arith, length-append q (cur ++ c ∷ []), length-append cur (c ∷ []))

module _ (command : List ℕ) (max_tokens : ℕ) where
  token_text :
      (q cur rest : List ℕ) (s e : ℕ)
      → command ≡ q ++ (cur ++ rest)
      → s ≡ length q
      → e ≡ s + length cur
      → text command (s, e - s) ≡ cur
  token_text q cur rest s e at s_at e_at = rw (at, size, s_at) (text-append q cur rest)
    where
      size : e - s ≡ length cur
      size = omega arith

  -- The texts with one more token.
  found_text :
      (q cur rest : List ℕ) (s e : ℕ) (tokens : List Token)
      → command ≡ q ++ (cur ++ rest)
      → s ≡ length q
      → e ≡ s + length cur
      → map (text command) (tokens ++ (s, e - s) ∷ []) ≡ map (text command) tokens ++ cur ∷ []
  found_text q cur rest s e tokens at s_at e_at =
      map-append (text command) tokens ((s, e - s) ∷ [])
      ∙ ap (λ w. map (text command) tokens ++ w ∷ []) (token_text q cur rest s e at s_at e_at)

  -- The branches of one pass.
  module _ (c : ℕ) (rest : List ℕ) (e s : ℕ) (tokens : List Token) where
    loop_other :
        (c == 32) ≡ false
        → tokenize_loop max_tokens (c ∷ rest) e s tokens
          ≡ tokenize_loop max_tokens rest (e + 1) s tokens
    unfolding tokenize_loop
    loop_other h = rw (h, tokenize_loop) refl

    loop_space :
        (c == 32) ≡ true
        → (s == e) ≡ true
        → tokenize_loop max_tokens (c ∷ rest) e s tokens
          ≡ tokenize_loop max_tokens rest (e + 1) (e + 1) tokens
    unfolding tokenize_loop
    loop_space h k = rw (h, k, tokenize_loop) refl

    loop_full :
        (c == 32) ≡ true
        → (s == e) ≡ false
        → (length (tokens ++ (s, e - s) ∷ []) == max_tokens - 1) ≡ true
        → tokenize_loop max_tokens (c ∷ rest) e s tokens
          ≡ record { tokens = tokens ++ (s, e - s) ∷ []; s = e + 1; e = e + 1; left = rest }
    unfolding tokenize_loop
    loop_full h k j = rw (h, k, j, tokenize_loop) refl

    loop_found :
        (c == 32) ≡ true
        → (s == e) ≡ false
        → (length (tokens ++ (s, e - s) ∷ []) == max_tokens - 1) ≡ false
        → tokenize_loop max_tokens (c ∷ rest) e s tokens
          ≡ tokenize_loop max_tokens rest (e + 1) (e + 1) (tokens ++ (s, e - s) ∷ [])
    unfolding tokenize_loop
    loop_found h k j = rw (h, k, j, tokenize_loop) refl

  module _ (s e : ℕ) (tokens : List Token) where
    last_empty : (s == e) ≡ true → last_token (tokenize_loop max_tokens [] e s tokens) ≡ tokens
    unfolding tokenize_loop last_token
    last_empty h = if_true (s == e) tokens (tokens ++ (s, e - s) ∷ []) h

    last_word :
        (s == e) ≡ false
        → last_token (tokenize_loop max_tokens [] e s tokens) ≡ tokens ++ (s, e - s) ∷ []
    unfolding tokenize_loop last_token
    last_word h = if_false (s == e) tokens (tokens ++ (s, e - s) ∷ []) h

    -- A full array of tokens is what the line gives.
    last_full :
        (rest : List ℕ)
        → last_token (record { tokens = tokens; s = e; e = e; left = rest }) ≡ tokens
    unfolding last_token
    last_full rest = if_true (e == e) tokens (tokens ++ (e, e - e) ∷ []) ((==_iff e e).1 refl)

  abbrev Result : List ℕ → List ℕ → List Token → ℕ → ℕ → Type 0
  Result rest cur tokens e s =
      map (text command) (last_token (tokenize_loop max_tokens rest e s tokens))
      ≡ map (text command) tokens ++ take (max_tokens - 1 - length tokens) (words_from cur rest)

  -- A space behind a word `w`: the array is full, or the loop goes on with one token more.
  found_step :
      (c : ℕ) (rest : List ℕ) (s e : ℕ) (tokens : List Token) (w : List ℕ)
      → (c == 32) ≡ true
      → (s == e) ≡ false
      → map (text command) (tokens ++ (s, e - s) ∷ []) ≡ map (text command) tokens ++ w ∷ []
      → length tokens < max_tokens - 1
      → (length (tokens ++ (s, e - s) ∷ []) < max_tokens - 1
          → Result rest [] (tokens ++ (s, e - s) ∷ []) (e + 1) (e + 1))
      → map (text command) (last_token (tokenize_loop max_tokens (c ∷ rest) e s tokens))
        ≡ map (text command) tokens
          ++ w ∷ take (max_tokens - 1 - length tokens - 1) (words_from [] rest)
  found_step c rest s e tokens w space ne texts lt later =
      let more = length-append tokens ((s, e - s) ∷ []) in
      elim (Bool-cases (length (tokens ++ (s, e - s) ∷ []) == max_tokens - 1)) [
        | inl full ↦
            let size = (==_iff (length (tokens ++ (s, e - s) ∷ [])) (max_tokens - 1)).0 full in
            let none_left : max_tokens - 1 - length tokens - 1 ≡ 0 = omega arith in
            rw
              (
                loop_full c rest e s tokens space ne full,
                none_left,
                last_full s (e + 1) (tokens ++ (s, e - s) ∷ []) rest,
              )
              texts
        | inr room ↦
            let size = ==_false (length (tokens ++ (s, e - s) ∷ [])) (max_tokens - 1) room in
            let left : max_tokens - 1 - length tokens - 1
                ≡ max_tokens - 1 - length (tokens ++ (s, e - s) ∷ []) =
              omega arith in
            rw (loop_found c rest e s tokens space ne room, left)
              (later (omega arith)
                ∙ ap
                    (λ l.
                      l
                      ++ take (max_tokens - 1 - length (tokens ++ (s, e - s) ∷ []))
                          (words_from [] rest))
                    texts
                ∙ append_assoc (map (text command) tokens) (w ∷ []) (
                    take (max_tokens - 1 - length (tokens ++ (s, e - s) ∷ []))
                      (words_from [] rest)))
      ]

  -- What the loop and the last token make of `cur ++ rest` behind `q`.
  tokenize_loop-words :
      (rest q cur : List ℕ) (tokens : List Token) (s e : ℕ)
      → command ≡ q ++ (cur ++ rest)
      → s ≡ length q
      → e ≡ s + length cur
      → length tokens < max_tokens - 1
      → Result rest cur tokens e s
  tokenize_loop-words [] q [] tokens s e at s_at e_at lt =
      rw
        (
          last_empty s e tokens ((==_iff s e).1 (omega arith)),
          take-nil (max_tokens - 1 - length tokens),
        )
        (sym (append-nil (map (text command) tokens)))
  tokenize_loop-words [] q (x ∷ cur) tokens s e at s_at e_at lt =
      rw
        (
          last_word s e tokens (==_ne s e (omega arith)),
          take_cons (max_tokens - 1 - length tokens) (x ∷ cur) [] (omega arith),
          take-nil (max_tokens - 1 - length tokens - 1),
        )
        (found_text q (x ∷ cur) [] s e tokens at s_at e_at)
  tokenize_loop-words (c ∷ rest) q [] tokens s e at s_at e_at lt = elim (Bool-cases (c == 32)) [
    | inl space ↦
        rw (loop_space c rest e s tokens space ((==_iff s e).1 (omega arith)), space)
          (tokenize_loop-words rest (q ++ c ∷ []) [] tokens (e + 1) (e + 1) (at ∙ past q [] c rest)
            (omega (arith, length-past q [] c)) (omega arith) lt)
    | inr other ↦
        rw (loop_other c rest e s tokens other, other)
          (tokenize_loop-words rest q (c ∷ []) tokens s (e + 1) at s_at (omega arith) lt)
  ]
  tokenize_loop-words (c ∷ rest) q (x ∷ cur) tokens s e at s_at e_at lt =
      elim (Bool-cases (c == 32)) [
        | inl space ↦
            rw
              (
                space,
                take_cons (max_tokens - 1 - length tokens) (x ∷ cur) (words_from [] rest)
                    (omega arith),
              )
              (found_step c rest s e tokens (x ∷ cur) space (==_ne s e (omega arith))
                (found_text q (x ∷ cur) (c ∷ rest) s e tokens at s_at e_at) lt
                (tokenize_loop-words rest (q ++ (x ∷ (cur ++ c ∷ []))) []
                  (tokens ++ (s, e - s) ∷ []) (e + 1) (e + 1) (at ∙ past q (x ∷ cur) c rest)
                  (omega (arith, length-past q (x ∷ cur) c)) (omega arith)))
        | inr other ↦
            rw (loop_other c rest e s tokens other, other)
              (tokenize_loop-words rest q (x ∷ (cur ++ c ∷ [])) tokens s (e + 1)
                (at ∙ longer q (x ∷ cur) c rest) s_at (omega (arith, length-append cur (c ∷ [])))
                lt)
      ]

length-map : {A B : Type 0} (f : A → B) (xs : List A) → length (map f xs) ≡ length xs
length-map f [] = refl
length-map f (x ∷ xs) = ap suc (length-map f xs)

length-take_le : (n : ℕ) (xs : List (List ℕ)) → length (take n xs) ≤ n
length-take_le zero xs = omega arith
length-take_le (suc n) [] = omega arith
length-take_le (suc n) (x ∷ xs) = omega (arith, length-take_le n xs)

-- Where the array has room for two tokens at least: the tokens that tokenize_command writes are the
-- words of the line, in order, as many as fit before the terminal token, and with it they are inside
-- the array.
pub tokenize_command-words :
    (command : List ℕ) (max_tokens : ℕ)
    → 1 < max_tokens
    → (map (text command) (tokenize_command command max_tokens).0
        ≡ take (max_tokens - 1) (words_from [] command))
      × (length (tokenize_command command max_tokens).0 + 1 ≤ max_tokens)
unfolding tokenize_command
tokenize_command-words command max_tokens lt =
    let all : max_tokens - 1 - 0 ≡ max_tokens - 1 = omega arith in
    let words =
      subst
        (λ n.
          map (text command) (tokenize_command command max_tokens).0
          ≡ take n (words_from [] command))
        all
        (tokenize_loop-words command max_tokens command [] [] [] 0 0 refl refl refl
          (omega arith)) in
    let tokens = last_token (tokenize_loop max_tokens command 0 0 []) in
    let sizes = sym (length-map (text command) tokens) ∙ ap length words in
    (words, omega (arith, sizes, length-take_le (max_tokens - 1) (words_from [] command)))
