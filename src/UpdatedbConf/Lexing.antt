-- ===== src/UpdatedbConf/Lexing.antt =====
-- What the lexer makes of a token with blanks before it.
use flocate.Prelude.{
  ℕ, ◌+◌, ◌%◌, ◌^◌, ◌≡◌, refl, sym, ap, ◌∙◌, Bool, true, false, ◌&&◌, ◌||◌, [], ◌∷◌, ◌++◌, Bytes,
  some, All, ltb, ◌==◌, inl, inr, Bool-cases, arith,
}
use flocate.UpdatedbConf.Lexer.{
  CLibrary, Variable, variable_name, variables, eol, equal, quoted, keyword, ok, find_keyword,
  at_line, skip_spaces, skip_comment, lex_quoted, lex_word, lex_at, uc_lex,
}
use flocate.UpdatedbConf.Names.{upper_or_line, all_upper, find_keyword-name, name_form}

-- An underscore, or a byte of which isalnum holds.
abbrev pub is_word : CLibrary → ℕ → Bool
is_word lib c = lib.isalnum c || c == b'_'

-- What the parser needs of the character classes, which holds in the C locale.
pub record IsLocale (lib : CLibrary) : Type 0 where
  pub upper_alpha : (c : ℕ) → (ltb 64 c && ltb c 91) ≡ true → lib.isalpha c ≡ true
  pub upper_alnum : (c : ℕ) → (ltb 64 c && ltb c 91) ≡ true → lib.isalnum c ≡ true
  pub space_word : (c : ℕ) → lib.isspace c ≡ true → is_word lib c ≡ false
  pub equal_word : lib.isalnum b'=' ≡ false
  pub equal_space : lib.isspace b'=' ≡ false
  pub quote_space : lib.isspace b'"' ≡ false
  pub hash_space : lib.isspace b'#' ≡ false

abbrev pub IsBlank : CLibrary → ℕ → Type 0
IsBlank lib c = (lib.isspace c ≡ true) × ((c == b'\n') ≡ false)

-- Bytes of a comment, and of a value.
abbrev pub IsInLine : ℕ → Type 0
IsInLine c = (c == b'\n') ≡ false

abbrev pub IsQuotable : ℕ → Type 0
IsQuotable c = ((c == b'"') ≡ false) × ((c == b'\n') ≡ false)

both_true : (a b : Bool) → (a && b) ≡ true → (a ≡ true) × (b ≡ true)
both_true true b h = (refl, h)
both_true false b h = absurd (cc)

module _ (lib : CLibrary) (locale : IsLocale lib) where
  is_word-upper : (c : ℕ) → upper_or_line c ≡ true → is_word lib c ≡ true
  unfolding upper_or_line
  is_word-upper c h = elim (Bool-cases (ltb 64 c && ltb c 91)) [
    | inl upper ↦ rw (locale.upper_alnum c upper) refl
    | inr line ↦
        let e : (c == b'_') ≡ true = rw line at h in
        elim (Bool-cases (lib.isalnum c)) [
          | inl word ↦ rw word refl
          | inr none_of_it ↦ rw (none_of_it, e) refl
        ]
  ]

  skip_spaces-append :
      (blanks p : Bytes)
      → All (IsBlank lib) blanks
      → skip_spaces lib (blanks ++ p) ≡ skip_spaces lib p
  unfolding skip_spaces
  skip_spaces-append [] p h = refl
  skip_spaces-append (c ∷ blanks) p ((space, line), h) =
      rw (line, space) (skip_spaces-append blanks p h)

  skip_spaces-stop : (c : ℕ) (p : Bytes) → lib.isspace c ≡ false → skip_spaces lib (c ∷ p) ≡ c ∷ p
  unfolding skip_spaces
  skip_spaces-stop c p h = elim (Bool-cases (c == b'\n')) [
    | inl line ↦ rw line refl
    | inr more ↦ rw (more, h) refl
  ]

  skip_spaces-line : (p : Bytes) → skip_spaces lib (b'\n' ∷ p) ≡ b'\n' ∷ p
  unfolding skip_spaces
  skip_spaces-line p = refl

  -- A token behind blanks.
  lex-stop :
      (blanks : Bytes) (c : ℕ) (p : Bytes) (line : ℕ)
      → All (IsBlank lib) blanks
      → lib.isspace c ≡ false
      → uc_lex lib (at_line (blanks ++ (c ∷ p)) line) ≡ lex_at lib line (c ∷ p)
  unfolding uc_lex
  lex-stop blanks c p line h stop =
      ap (lex_at lib line) (skip_spaces-append blanks (c ∷ p) h ∙ skip_spaces-stop c p stop)

  skip_comment-line :
      (text p : Bytes) → All IsInLine text → skip_comment lib (text ++ (b'\n' ∷ p)) ≡ some p
  unfolding skip_comment
  skip_comment-line [] p h = refl
  skip_comment-line (c ∷ text) p (hc, h) = rw hc (skip_comment-line text p h)

  lex_quoted-end :
      (value p : Bytes)
      → All IsQuotable value
      → lex_quoted lib (value ++ (b'"' ∷ p)) ≡ some (value, p)
  unfolding lex_quoted
  lex_quoted-end [] p h = refl
  lex_quoted-end (c ∷ value) p ((quote, line), h) = rw (quote, line, lex_quoted-end value p h) refl

  lex_word-end :
      (name : Bytes) (c : ℕ) (p : Bytes)
      → all_upper name ≡ true
      → is_word lib c ≡ false
      → lex_word lib (name ++ (c ∷ p)) ≡ (name, c ∷ p)
  unfolding lex_word all_upper
  lex_word-end [] c p h stop = rw stop refl
  lex_word-end (d ∷ name) c p h stop =
      let (first, rest) = both_true (upper_or_line d) (all_upper name) h in
      rw (is_word-upper d first, lex_word-end name c p rest stop) refl

  pub lex-eol :
      (blanks p : Bytes) (line : ℕ)
      → All (IsBlank lib) blanks
      → uc_lex lib (at_line (blanks ++ (b'\n' ∷ p)) line)
        ≡ ok (eol, at_line p ((line + 1) % 2 ^ 32))
  unfolding uc_lex lex_at
  lex-eol blanks p line h =
      ap (lex_at lib line) (skip_spaces-append blanks (b'\n' ∷ p) h ∙ skip_spaces-line p)

  pub lex-comment :
      (blanks text p : Bytes) (line : ℕ)
      → All (IsBlank lib) blanks
      → All IsInLine text
      → uc_lex lib (at_line (blanks ++ (b'#' ∷ (text ++ (b'\n' ∷ p)))) line)
        ≡ ok (eol, at_line p ((line + 1) % 2 ^ 32))
  unfolding lex_at
  lex-comment blanks text p line h inside =
      lex-stop blanks b'#' (text ++ (b'\n' ∷ p)) line h locale.hash_space
      ∙ rw (skip_comment-line text p inside) refl

  pub lex-equal :
      (blanks p : Bytes) (line : ℕ)
      → All (IsBlank lib) blanks
      → uc_lex lib (at_line (blanks ++ (b'=' ∷ p)) line) ≡ ok (equal, at_line p line)
  unfolding lex_at
  lex-equal blanks p line h = lex-stop blanks b'=' p line h locale.equal_space

  pub lex-quoted :
      (blanks value p : Bytes) (line : ℕ)
      → All (IsBlank lib) blanks
      → All IsQuotable value
      → uc_lex lib (at_line (blanks ++ (b'"' ∷ (value ++ (b'"' ∷ p)))) line)
        ≡ ok (quoted value, at_line p line)
  unfolding lex_at
  lex-quoted blanks value p line h fits =
      lex-stop blanks b'"' (value ++ (b'"' ∷ p)) line h locale.quote_space
      ∙ rw (lex_quoted-end value p fits) refl

  not_space : (c : ℕ) → (ltb 64 c && ltb c 91) ≡ true → lib.isspace c ≡ false
  not_space c upper = elim (Bool-cases (lib.isspace c)) [
    | inl space ↦
        let word : is_word lib c ≡ true = rw (locale.upper_alnum c upper) refl in
        absurd (cc (word, locale.space_word c space))
    | inr stop ↦ stop
  ]

  lex_at-word :
      (first : ℕ) (tail : Bytes) (c : ℕ) (p : Bytes) (line : ℕ)
      → (ltb 64 first && ltb first 91) ≡ true
      → lib.isalpha first ≡ true
      → lex_word lib (tail ++ (c ∷ p)) ≡ (tail, c ∷ p)
      → lex_at lib line (first ∷ (tail ++ (c ∷ p)))
        ≡ ok (find_keyword variables (first ∷ tail), at_line (c ∷ p) line)
  unfolding lex_at
  lex_at-word first tail c p line upper alpha word =
      let no_hash : (first == b'#') ≡ false = ground arith in
      let no_line : (first == b'\n') ≡ false = ground arith in
      let no_equal : (first == b'=') ≡ false = ground arith in
      let no_quote : (first == b'"') ≡ false = ground arith in
      rw (no_hash, no_line, no_equal, no_quote, alpha, word) refl

  -- A name, in front of a byte that ends it.
  pub lex-keyword :
      (blanks : Bytes) (v : Variable) (c : ℕ) (p : Bytes) (line : ℕ)
      → All (IsBlank lib) blanks
      → is_word lib c ≡ false
      → uc_lex lib (at_line (blanks ++ (variable_name v ++ (c ∷ p))) line)
        ≡ ok (keyword v, at_line (c ∷ p) line)
  lex-keyword blanks v c p line h stop =
      let form = name_form v in
      let alpha = locale.upper_alpha form.first form.upper in
      ap (λ name. uc_lex lib (at_line (blanks ++ (name ++ (c ∷ p))) line)) form.splits
      ∙ lex-stop blanks form.first (form.tail ++ (c ∷ p)) line h (not_space form.first form.upper)
      ∙ lex_at-word form.first form.tail c p line form.upper alpha
          (lex_word-end form.tail c p form.all stop)
      ∙ ap (λ name. ok (find_keyword variables name, at_line (c ∷ p) line)) (sym form.splits)
      ∙ ap (λ token. ok (token, at_line (c ∷ p) line)) (find_keyword-name v)
