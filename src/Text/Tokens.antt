-- ===== src/Text/Tokens.antt =====
-- memcached/proto_text.c: tokenize_command, which cuts a command line at its spaces.
pub mod Words
pub mod Cut
use kvsev.Prelude.{
  ℕ, zero, suc, ◌+◌, ◌-◌, Bool, true, false, Option, none, some, List, [], ◌∷◌, ◌++◌, ◌==◌,
  if◌then◌else◌, length, take,
}

-- A token: the offset of its value and its length.
abbrev pub Token : Type 0
Token = ℕ × ℕ

-- The loop's variables, and the bytes from `e` on.
pub record Scan : Type 0 where
  pub tokens : List Token
  pub s : ℕ
  pub e : ℕ
  pub left : List ℕ

-- The loop over the command; the first list is what is left of it. The space behind a token becomes its
-- closing 0.
unfoldable pub tokenize_loop : ℕ → List ℕ → ℕ → ℕ → List Token → Scan
tokenize_loop max_tokens [] e s tokens = record { tokens = tokens; s = s; e = e; left = [] }
tokenize_loop max_tokens (c ∷ rest) e s tokens =
    let found = tokens ++ (s, e - s) ∷ [] in
    elim (c == 32) [
      | false ↦ tokenize_loop max_tokens rest (e + 1) s tokens
      | true ↦ elim (s == e) [
        | true ↦ tokenize_loop max_tokens rest (e + 1) (e + 1) tokens
        | false ↦ elim (length found == max_tokens - 1) [
          | true ↦ record { tokens = found; s = e + 1; e = e + 1; left = rest }
          | false ↦ tokenize_loop max_tokens rest (e + 1) (e + 1) found
        ]
      ]
    ]

-- The last token, where the line ends in one.
unfoldable pub last_token : Scan → List Token
last_token r = if r.s == r.e then r.tokens else r.tokens ++ (r.s, r.e - r.s) ∷ []

-- The value of the terminal token: the first byte that is not looked at, if there is one.
unfoldable pub unprocessed : Scan → Option ℕ
unprocessed r = elim r.left [ [] ↦ none | _ ∷ _ ↦ some r.e ]

-- The tokens and the terminal value; `ntokens` counts the terminal one too.
unfoldable pub tokenize_command : List ℕ → ℕ → List Token × Option ℕ
tokenize_command command max_tokens =
    let r = tokenize_loop max_tokens command 0 0 [] in (last_token r, unprocessed r)
