-- ===== src/UpdatedbConf/Lexer.antt =====
-- `uc_lex` of src/conf.cpp, with the tokens and the messages.
use flocate.Prelude.{
  ℕ, ◌+◌, ◌%◌, ◌^◌, Bool, not, ◌&&◌, ◌||◌, List, [], ◌∷◌, Bytes, codes, Option, none, some,
  bytes_eq, ◌==◌, if◌then◌else◌,
}
use flocate.Size.{Strtoull}

-- `strtol` with base 10: the value if it is not negative, what is left, and whether `errno` is set.
abbrev pub Strtol : Type 0
Strtol = Bytes → Option ℕ × Bytes × Bool

-- What the file is read with.
pub record CLibrary : Type 0 where
  pub isspace : ℕ → Bool
  pub isalpha : ℕ → Bool
  pub isalnum : ℕ → Bool
  pub tolower : ℕ → ℕ
  pub toupper : ℕ → ℕ
  pub strtol : Strtol
  pub strtoull : Strtoull

-- The keywords of the token types.
pub data Variable : Type 0 where
  prune_bind_mounts : Variable
  prunefs : Variable
  prunenames : Variable
  prunepaths : Variable
  metadata_hash : Variable
  history_depth : Variable
  compare_atime : Variable
  hash_max_size : Variable

abbrev pub variable_name : Variable → Bytes
variable_name prune_bind_mounts = codes "PRUNE_BIND_MOUNTS"
variable_name prunefs = codes "PRUNEFS"
variable_name prunenames = codes "PRUNENAMES"
variable_name prunepaths = codes "PRUNEPATHS"
variable_name metadata_hash = codes "METADATA_HASH"
variable_name history_depth = codes "HISTORY_DEPTH"
variable_name compare_atime = codes "COMPARE_ATIME"
variable_name hash_max_size = codes "HASH_MAX_SIZE"

abbrev pub variables : List Variable
variables =
    prune_bind_mounts ∷ prunefs ∷ prunenames ∷ prunepaths ∷ metadata_hash ∷ history_depth
    ∷ compare_atime ∷ hash_max_size ∷ []

-- With what `uc_lex_buf` holds.
pub data Token : Type 0 where
  eof : Token
  eol : Token
  identifier : Bytes → Token
  equal : Token
  quoted : Bytes → Token
  other : Token
  keyword : Variable → Token

-- The messages with which the program exits.
pub data Problem : Type 0 where
  missing_quote : Problem
  unknown_variable : Problem
  variable_expected : Problem
  already_defined : Problem
  equal_expected : Problem
  value_expected : Problem
  invalid_value : Problem
  unexpected_data : Problem

-- An exit is reported with `uc_line`.
pub data Result (A : Type 0) : Type 0 where
  ok : A → Result A
  exit : Problem → ℕ → Result A

infixl 5 ◌>>=◌
abbrev pub ◌>>=◌ : {A B : Type 0} → Result A → (A → Result B) → Result B
ok a >>= f = f a
exit e line >>= f = exit e line

-- The comparisons of `uc_lex_buf` with the names, in their order.
unfoldable pub find_keyword : List Variable → Bytes → Token
unfolding bytes_eq
find_keyword [] name = identifier name
find_keyword (v ∷ vs) name =
    if bytes_eq name (variable_name v) then keyword v else find_keyword vs name

-- The file from the current position on, and `uc_current_line`.
pub record Position : Type 0 where
  pub text : Bytes
  pub current_line : ℕ

abbrev pub at_line : Bytes → ℕ → Position
at_line text line = record { text = text; current_line = line }

module _ (lib : CLibrary) where
  open lib use {isspace, isalpha, isalnum, tolower, toupper, strtol, strtoull}

  -- Behind the blanks, but not behind the end of the line.
  unfoldable pub skip_spaces : Bytes → Bytes
  skip_spaces [] = []
  skip_spaces (c ∷ p) = if not (c == b'\n') && isspace c then skip_spaces p else c ∷ p

  -- Behind the end of the line; `none` is the end of the file.
  unfoldable pub skip_comment : Bytes → Option Bytes
  skip_comment [] = none
  skip_comment (c ∷ p) = if c == b'\n' then some p else skip_comment p

  -- The string up to the closing quote, and what comes behind it.
  unfoldable pub lex_quoted : Bytes → Option (Bytes × Bytes)
  lex_quoted [] = none
  lex_quoted (c ∷ p) =
      if c == b'"'
      then some ([], p)
      else if c == b'\n'
      then none
      else elim (lex_quoted p) [ none ↦ none | some (value, rest) ↦ some (c ∷ value, rest) ]

  -- The rest of a word, and what comes behind it.
  unfoldable pub lex_word : Bytes → Bytes × Bytes
  lex_word [] = ([], [])
  lex_word (c ∷ p) =
      let (name, rest) = lex_word p in
      if isalnum c || c == b'_' then (c ∷ name, rest) else ([], c ∷ p)

  -- From the first byte that is no blank; `line` is `uc_line` and, so far, `uc_current_line`.
  unfoldable pub lex_at : ℕ → Bytes → Result (Token × Position)
  unfolding skip_comment lex_quoted lex_word find_keyword
  lex_at line [] = ok (eof, record { text = []; current_line = line })
  lex_at line (c ∷ p) =
      let next_line = (line + 1) % 2 ^ 32 in
      let at = λ (rest : Bytes). at_line rest line in
      let after = λ (rest : Bytes). at_line rest next_line in
      let comment : Result (Token × Position) = elim (skip_comment p) [
        | none ↦ ok (eof, at [])
        | some rest ↦ ok (eol, after rest)
      ] in
      let string : Result (Token × Position) = elim (lex_quoted p) [
        | none ↦ exit missing_quote line
        | some (value, rest) ↦ ok (quoted value, at rest)
      ] in
      let (name, rest) = lex_word p in
      if c == b'#'
      then comment
      else if c == b'\n'
      then ok (eol, after p)
      else if c == b'='
      then ok (equal, at p)
      else if c == b'"'
      then string
      else if not (isalpha c) && not (c == b'_')
      then ok (other, at p)
      else ok (find_keyword variables (c ∷ name), at rest)

  -- `uc_lex`; `uc_line` is the current line at its start.
  unfoldable pub uc_lex : Position → Result (Token × Position)
  unfolding skip_spaces lex_at
  uc_lex pos = lex_at pos.current_line (skip_spaces pos.text)
