-- ===== src/Text/Tokens/Cut.antt =====
-- memcached/proto_text.c: the words of a line that is put together from words.
use mathlib.Core.List.{append-nil, append_assoc}
use kvsev.Prelude.{
  if◌then◌else◌, Bool, ℕ, ◌<◌, ◌≡◌, refl, sym, ap, ◌∙◌, true, false, List, [], ◌∷◌, ◌++◌, ◌==◌,
  if_true, if_false, length, Bool-cases, inl, inr, arith,
}
use kvsev.Text.Numbers.{has_byte}
use kvsev.Text.Tokens.Words.{word, words_from}

-- Words with a space between them.
abbrev pub spaced : List ℕ → List (List ℕ) → List ℕ
spaced w [] = w
spaced w (v ∷ more) = w ++ 32 ∷ spaced v more

-- Whether there is a space.
abbrev pub has_space : List ℕ → Bool
has_space [] = false
has_space (c ∷ w) = let later = has_space w in if c == 32 then true else later

-- No byte is a space or a 0, and there is one.
pub record IsWord (w : List ℕ) : Type 0 where
  pub whole : has_space w ≡ false
  pub string : has_byte 0 w ≡ false
  pub some_byte : 0 < length w

has_space_cons :
    (c : ℕ) (w : List ℕ) → has_space (c ∷ w) ≡ false → ((c == 32) ≡ false) × (has_space w ≡ false)
has_space_cons c w h = elim (Bool-cases (c == 32)) [
  | inl e ↦ cc (sym (if_true (c == 32) true (has_space w) e) ∙ h)
  | inr e ↦ (e, sym (if_false (c == 32) true (has_space w) e) ∙ h)
]

words_from-space :
    (w cur rest : List ℕ)
    → has_space w ≡ false
    → words_from cur (w ++ 32 ∷ rest) ≡ word (cur ++ w) (words_from [] rest)
words_from-space [] cur rest h = ap (λ x. word x (words_from [] rest)) (sym (append-nil cur))
words_from-space (c ∷ w) cur rest h =
    let (other, h') = has_space_cons c w h in
    if_false (c == 32) (word cur (words_from [] (w ++ 32 ∷ rest)))
      (words_from (cur ++ c ∷ []) (w ++ 32 ∷ rest)) other
    ∙ words_from-space w (cur ++ c ∷ []) rest h'
    ∙ ap (λ x. word x (words_from [] rest)) (append_assoc cur (c ∷ []) w)

words_from-end : (w cur : List ℕ) → has_space w ≡ false → words_from cur w ≡ word (cur ++ w) []
words_from-end [] cur h = ap (λ x. word x []) (sym (append-nil cur))
words_from-end (c ∷ w) cur h =
    let (other, h') = has_space_cons c w h in
    if_false (c == 32) (word cur (words_from [] w)) (words_from (cur ++ c ∷ []) w) other
    ∙ words_from-end w (cur ++ c ∷ []) h'
    ∙ ap (λ x. word x []) (append_assoc cur (c ∷ []) w)

word_kept : (w : List ℕ) (later : List (List ℕ)) → 0 < length w → word w later ≡ w ∷ later
word_kept [] later h = absurd (omega arith)
word_kept (c ∷ w) later h = refl

abbrev pub AllWords : List (List ℕ) → Type 0
AllWords [] = Unit {0}
AllWords (w ∷ more) = IsWord w × AllWords more

-- The words of a line are the words that it was put together from.
pub words_from-spaced :
    (w : List ℕ) (more : List (List ℕ))
    → IsWord w
    → AllWords more
    → words_from [] (spaced w more) ≡ w ∷ more
words_from-spaced w [] h all = words_from-end w [] h.whole ∙ word_kept w [] h.some_byte
words_from-spaced w (v ∷ more) h (k, all) =
    words_from-space w [] (spaced v more) h.whole
    ∙ word_kept w (words_from [] (spaced v more)) h.some_byte
    ∙ ap (λ l. w ∷ l) (words_from-spaced v more k all)
