-- ===== src/Text/Tests.antt =====
-- memcached/util.c, memcached/proto_text.c: runs on concrete input.
use kvsev.Prelude.{ℕ, ◌+◌, ◌-◌, ◌^◌, ◌≤◌, ◌≡◌, refl, some, List, [], ◌∷◌, ◌++◌, map, length, arith}
use kvsev.Text.Numbers.{has_byte, ends, safe_strtoull}
use kvsev.Text.Numbers.Decimal.{decimal}
use kvsev.Text.Numbers.RoundTrip.{safe_strtoull-decimal, safe_strtoull-minus}
use kvsev.Text.Tokens.{tokenize_command}
use kvsev.Text.Tokens.Words.{tokenize_command-words, text}

safe_strtoull-decimal_example : safe_strtoull (decimal 402 ++ 32 ∷ []) ≡ some 402
unfolding has_byte ends
safe_strtoull-decimal_example = safe_strtoull-decimal 402 (32 ∷ []) (omega arith) refl refl

safe_strtoull-minus_example : safe_strtoull (45 ∷ decimal (2 ^ 64 - 1) ++ []) ≡ some 1
unfolding ends
safe_strtoull-minus_example = safe_strtoull-minus (2 ^ 64 - 1) [] (omega arith) (omega arith) refl

-- "get  ab c"
abbrev get_line : List ℕ
get_line = 103 ∷ 101 ∷ 116 ∷ 32 ∷ 32 ∷ 97 ∷ 98 ∷ 32 ∷ 99 ∷ []

tokenize_command-words_example :
    (map (text get_line) (tokenize_command get_line 3).0
      ≡ (103 ∷ 101 ∷ 116 ∷ []) ∷ (97 ∷ 98 ∷ []) ∷ [])
    × (length (tokenize_command get_line 3).0 + 1 ≤ 3)
tokenize_command-words_example = tokenize_command-words get_line 3 (omega arith)
