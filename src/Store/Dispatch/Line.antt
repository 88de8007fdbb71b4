-- ===== src/Store/Dispatch/Line.antt =====
-- memcached/proto_text.c: the line of a storage command, from its bytes to the fields.
use mathlib.Core.List.{append-nil}
use kvsev.Prelude.{
  ==_ne, ◌==◌, if_false, ℕ, ◌+◌, ◌-◌, ◌^◌, ◌<◌, ◌≤◌, ◌≡◌, refl, sym, ◌∙◌, ap, Bool, true, false,
  some, List, [], ◌∷◌, ltb, length, take, arith, leb, ge→ltb, lt→leb_false,
}
use kvsev.Prelude.Bytes.{same_bytes}
use kvsev.Merkle.Config.{Bytes}
use kvsev.Text.Numbers.{
  is_digit, has_byte, ends, starts_digit, safe_strtoull, safe_strtoul, safe_strtol,
  exptime_to_positive, realtime,
}
use kvsev.Text.Numbers.Decimal.{AllDigits, decimal, decimal-AllDigits, starts_digit-decimal}
use kvsev.Text.Numbers.RoundTrip.{
  has_byte-AllDigits, safe_strtoull-decimal, safe_strtoul-decimal, safe_strtol-decimal,
}
use kvsev.Text.Tokens.Words.{tokenize_command-words}
use kvsev.Text.Tokens.Cut.{has_space, IsWord, AllWords, spaced, words_from-spaced}
use kvsev.Store.Items.{Store}
use kvsev.Store.Command.{
  Command, nread_add, nread_set, nread_replace, nread_append, nread_prepend, nread_cas,
}
use kvsev.Store.Process.{Fields, token, update_fields, cas_field}
use kvsev.Store.Dispatch.{
  Request, update, word_add, word_set, word_replace, word_append, word_prepend, word_cas,
  want_tokens_or, set_request, add_request, cas_request, other_request, request_of, token_texts,
  choose, process_command,
}

starts_digit-length : (s : List ℕ) → starts_digit s ≡ true → 0 < length s
unfolding starts_digit
starts_digit-length [] h = cc
starts_digit-length (c ∷ s) h = omega arith

has_byte-nil : has_byte 0 [] ≡ false
unfolding has_byte
has_byte-nil = refl

has_space-AllDigits : (s : List ℕ) → AllDigits s → has_space s ≡ false
has_space-AllDigits [] all = refl
has_space-AllDigits (c ∷ s) (digit, all) =
    let other : (c == 32) ≡ false = ==_ne c 32 (λ e. cc (sym digit ∙ ap is_digit e)) in
    if_false (c == 32) true (has_space s) other ∙ has_space-AllDigits s all

pub decimal-IsWord : (n : ℕ) → IsWord (decimal n)
decimal-IsWord n =
    let plain = sym (append-nil (decimal n)) in
    record {
      whole = has_space-AllDigits (decimal n) (decimal-AllDigits n);
      string =
          ap (has_byte 0) plain
          ∙ has_byte-AllDigits 0 (decimal n) [] refl (decimal-AllDigits n) has_byte-nil;
      some_byte =
          starts_digit-length (decimal n) (ap starts_digit plain ∙ starts_digit-decimal n []);
    }

-- The name of a storage command.
abbrev pub command_word : Command → Bytes
command_word nread_add = word_add
command_word nread_set = word_set
command_word nread_replace = word_replace
command_word nread_append = word_append
command_word nread_prepend = word_prepend
command_word nread_cas = word_cas

command_word-IsWord : (comm : Command) → IsWord (command_word comm)
unfolding has_byte
command_word-IsWord nread_add = record { whole = refl; string = refl; some_byte = omega arith }
command_word-IsWord nread_set = record { whole = refl; string = refl; some_byte = omega arith }
command_word-IsWord nread_replace = record { whole = refl; string = refl; some_byte = omega arith }
command_word-IsWord nread_append = record { whole = refl; string = refl; some_byte = omega arith }
command_word-IsWord nread_prepend = record { whole = refl; string = refl; some_byte = omega arith }
command_word-IsWord nread_cas = record { whole = refl; string = refl; some_byte = omega arith }

-- What a storage command says: `data_length` is that of the data without the line end behind it.
pub record Storage : Type 0 where
  pub key : Bytes
  pub client_flags : ℕ
  pub exptime : ℕ
  pub data_length : ℕ
  pub cas_unique : ℕ

-- Only "cas" has a CAS value.
abbrev pub cas_argument : Command → ℕ → List Bytes
cas_argument nread_cas unique = decimal unique ∷ []
cas_argument comm unique = []

-- The arguments as they are printed.
abbrev pub arguments : Command → Storage → List Bytes
arguments comm r =
    r.key
    ∷ decimal r.client_flags
    ∷ decimal r.exptime
    ∷ decimal r.data_length
    ∷ cas_argument comm r.cas_unique

abbrev pub with_cas : Command → Bool
with_cas nread_cas = true
with_cas comm = false

abbrev pub cas_value : Command → Storage → ℕ
cas_value nread_cas r = r.cas_unique
cas_value comm r = 0

-- What the protocol lets a client send.
pub record Sendable (r : Storage) : Type 0 where
  pub key_word : IsWord r.key
  pub flags_fit : r.client_flags < 2 ^ 32
  pub exptime_fits : r.exptime < 2 ^ 31
  pub data_fit : r.data_length ≤ 2 ^ 31 - 3
  pub cas_fits : r.cas_unique < 2 ^ 64

-- The words of a command are the texts of its tokens.
token_texts-spaced :
    (w : Bytes) (more : List Bytes)
    → IsWord w
    → AllWords more
    → token_texts (spaced w more) ≡ take 23 (w ∷ more)
unfolding token_texts
token_texts-spaced w more h all =
    (tokenize_command-words (spaced w more) 24 (omega arith)).0
    ∙ ap (take 23) (words_from-spaced w more h all)

cas_argument-AllWords : (comm : Command) (unique : ℕ) → AllWords (cas_argument comm unique)
cas_argument-AllWords nread_add unique = tt
cas_argument-AllWords nread_set unique = tt
cas_argument-AllWords nread_replace unique = tt
cas_argument-AllWords nread_append unique = tt
cas_argument-AllWords nread_prepend unique = tt
cas_argument-AllWords nread_cas unique = (decimal-IsWord unique, tt)

arguments-AllWords : (comm : Command) (r : Storage) → IsWord r.key → AllWords (arguments comm r)
arguments-AllWords comm r h = (
  h,
  (
    decimal-IsWord r.client_flags,
    (
      decimal-IsWord r.exptime,
      (decimal-IsWord r.data_length, cas_argument-AllWords comm r.cas_unique),
    ),
  ),
)

choose-words :
    (comm : Command) (r : Storage)
    → choose (command_word comm ∷ arguments comm r) ≡ update comm (with_cas comm)
unfolding choose request_of set_request add_request cas_request other_request want_tokens_or
    same_bytes
choose-words nread_add r = refl
choose-words nread_set r = refl
choose-words nread_replace r = refl
choose-words nread_append r = refl
choose-words nread_prepend r = refl
choose-words nread_cas r = refl

take-arguments :
    (comm : Command) (r : Storage)
    → take 23 (command_word comm ∷ arguments comm r) ≡ command_word comm ∷ arguments comm r
take-arguments nread_add r = refl
take-arguments nread_set r = refl
take-arguments nread_replace r = refl
take-arguments nread_append r = refl
take-arguments nread_prepend r = refl
take-arguments nread_cas r = refl

-- The line of a storage command, without the line end.
abbrev pub storage_line : Command → Storage → Bytes
storage_line comm r = spaced (command_word comm) (arguments comm r)

process_command-texts :
    (command : Bytes) (tokens : List Bytes)
    → token_texts command ≡ tokens
    → process_command command ≡ (choose tokens, tokens)
unfolding process_command
process_command-texts command tokens e = ap (λ l. (choose l, l)) e

module _ (process_started : ℕ) (s : Store) where
  -- The fields that the tokens of a storage command give.
  update_fields-given :
      (tokens : List Bytes) (handle_cas : Bool) (flags exptime n unique : ℕ)
      → safe_strtoul (token tokens 2) ≡ some flags
      → safe_strtol (token tokens 3) ≡ some exptime
      → safe_strtol (token tokens 4) ≡ some n
      → cas_field tokens handle_cas ≡ some unique
      → exptime < 2 ^ 31
      → n ≤ 2 ^ 31 - 3
      → update_fields process_started s tokens handle_cas
        ≡ some (record {
          flags = flags;
          exptime = realtime process_started s.current_time exptime;
          vlen = n + 2;
          req_cas_id = unique;
        })
  unfolding update_fields exptime_to_positive
  update_fields-given tokens handle_cas flags exptime n unique e2 e3 e4 e5 lt le =
      let positive : leb (2 ^ 31) exptime ≡ false = lt→leb_false (2 ^ 31) exptime lt in
      let signed : leb (2 ^ 31) n ≡ false = lt→leb_false (2 ^ 31) n (omega arith) in
      let room : ltb (2 ^ 31 - 3) n ≡ false = ge→ltb (2 ^ 31 - 3) n le in
      rw (e2, e3, e4, e5, positive, signed, room, update_fields) refl

  cas_field-arguments :
      (comm : Command) (r : Storage)
      → r.cas_unique < 2 ^ 64
      → cas_field (command_word comm ∷ arguments comm r) (with_cas comm) ≡ some (cas_value comm r)
  unfolding cas_field ends has_byte
  cas_field-arguments nread_add r h = refl
  cas_field-arguments nread_set r h = refl
  cas_field-arguments nread_replace r h = refl
  cas_field-arguments nread_append r h = refl
  cas_field-arguments nread_prepend r h = refl
  cas_field-arguments nread_cas r h =
      ap safe_strtoull (sym (append-nil (decimal r.cas_unique)))
      ∙ safe_strtoull-decimal r.cas_unique [] h refl refl

  abbrev pub fields_of : Command → Storage → Fields
  fields_of comm r = record {
    flags = r.client_flags;
    exptime = realtime process_started s.current_time r.exptime;
    vlen = r.data_length + 2;
    req_cas_id = cas_value comm r;
  }

  -- A storage command printed with its words, the numbers in decimal and a space between two of them, is
  -- cut into these words again and sent to the handler of its name, and the fields that the handler reads
  -- are those that were printed. The key is a word without a byte 0, the flags have 32 bits, the expiry time 31 bits and
  -- the CAS value 64, and the length of the data is at most 2 ^ 31 - 3.
  pub process_command-storage_line :
      (comm : Command) (r : Storage)
      → Sendable r
      → (process_command (storage_line comm r)
          ≡ (update comm (with_cas comm), command_word comm ∷ arguments comm r))
        × (update_fields process_started s (process_command (storage_line comm r)).1 (with_cas comm)
            ≡ some (fields_of comm r))
  process_command-storage_line comm r h =
      let tokens = command_word comm ∷ arguments comm r in
      let texts : token_texts (storage_line comm r) ≡ tokens =
        token_texts-spaced (command_word comm) (arguments comm r) (command_word-IsWord comm)
          (arguments-AllWords comm r h.key_word)
        ∙ take-arguments comm r in
      let chosen : process_command (storage_line comm r) ≡ (update comm (with_cas comm), tokens) =
        process_command-texts (storage_line comm r) tokens texts
        ∙ ap (λ q. (q, tokens)) (choose-words comm r) in
      let fields =
        update_fields-given tokens (with_cas comm) r.client_flags r.exptime r.data_length
          (cas_value comm r) (safe_strtoul-decimal r.client_flags h.flags_fit)
          (safe_strtol-decimal r.exptime (omega (arith, h.exptime_fits)))
          (safe_strtol-decimal r.data_length (omega (arith, h.data_fit)))
          (cas_field-arguments comm r h.cas_fits) h.exptime_fits h.data_fit in
      (
        chosen,
        ap (λ (q : Request × List Bytes). update_fields process_started s q.1 (with_cas comm))
              chosen
            ∙ fields,
      )
