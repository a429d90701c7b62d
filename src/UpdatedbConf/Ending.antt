-- ===== src/UpdatedbConf/Ending.antt =====
-- Each token but the end of the file takes a byte at least, so the parser ends on every file.
use flocate.Prelude.{
  ℕ, zero, suc, ◌≤◌, ◌<◌, ◌≡◌, refl, ◌∙◌, Bool, true, false, not, ◌&&◌, List, [], ◌∷◌, Bytes,
  Option, subst, some, length, ◌==◌, inl, inr, Option-cases, arith, if◌then◌else◌,
}
use flocate.UpdatedbConf.Steps.{line_step, setting_step}
use flocate.UpdatedbConf.Lexer.{
  CLibrary, Variable, variables, already_defined, equal_expected, value_expected, invalid_value,
  unexpected_data, unknown_variable, variable_expected, Result, ok, exit, Token, eof, eol,
  identifier, equal, quoted, other, keyword, Position, at_line, Problem, ◌>>=◌, skip_spaces,
  skip_comment, lex_quoted, lex_word, find_keyword, lex_at, uc_lex,
}
use flocate.UpdatedbConf.Values.{Conf, assign}
use flocate.UpdatedbConf.Parser.{
  had, parse_value, parse_setting, parse_lines, parse_updatedb_conf, checked, is_equal,
  quoted_value, line_end, after_setting,
}

le_trans : {a b c : ℕ} → a ≤ b → b ≤ c → a ≤ c
le_trans ab bc = omega arith

-- The text behind a token, where there was one of `n` bytes.
abbrev Goes : ℕ → Result (Token × Position) → Type 0
Goes n (exit problem line) = Unit
Goes n (ok (eof, pos)) = length pos.text ≤ n
Goes n (ok (eol, pos)) = length pos.text < n
Goes n (ok (identifier name, pos)) = length pos.text < n
Goes n (ok (equal, pos)) = length pos.text < n
Goes n (ok (quoted value, pos)) = length pos.text < n
Goes n (ok (other, pos)) = length pos.text < n
Goes n (ok (keyword v, pos)) = length pos.text < n

Goes-if :
    (n : ℕ) (b : Bool) (x y : Result (Token × Position))
    → Goes n x
    → Goes n y
    → Goes n (if b then x else y)
Goes-if n true x y gx gy = gx
Goes-if n false x y gx gy = gy

Goes-mono : (n m : ℕ) (r : Result (Token × Position)) → n ≤ m → Goes n r → Goes m r
Goes-mono n m (exit problem line) le g = tt
Goes-mono n m (ok (eof, pos)) le g = omega arith
Goes-mono n m (ok (eol, pos)) le g = omega arith
Goes-mono n m (ok (identifier name, pos)) le g = omega arith
Goes-mono n m (ok (equal, pos)) le g = omega arith
Goes-mono n m (ok (quoted value, pos)) le g = omega arith
Goes-mono n m (ok (other, pos)) le g = omega arith
Goes-mono n m (ok (keyword v, pos)) le g = omega arith

Goes-le : (n : ℕ) (token : Token) (pos : Position) → Goes n (ok (token, pos)) → length pos.text ≤ n
Goes-le n eof pos g = g
Goes-le n eol pos g = omega arith
Goes-le n (identifier name) pos g = omega arith
Goes-le n equal pos g = omega arith
Goes-le n (quoted value) pos g = omega arith
Goes-le n other pos g = omega arith
Goes-le n (keyword v) pos g = omega arith

Goes-lt : (n : ℕ) (token : Token) (pos : Position) → length pos.text < n → Goes n (ok (token, pos))
Goes-lt n eof pos lt = omega arith
Goes-lt n eol pos lt = lt
Goes-lt n (identifier name) pos lt = lt
Goes-lt n equal pos lt = lt
Goes-lt n (quoted value) pos lt = lt
Goes-lt n other pos lt = lt
Goes-lt n (keyword v) pos lt = lt

-- How far a value and a setting go.
abbrev ValueGoes : ℕ → Result (Conf × Position) → Type 0
ValueGoes n (exit problem line) = Unit
ValueGoes n (ok (conf, pos)) = length pos.text ≤ n

abbrev SettingGoes : ℕ → Result (Conf × Bool × Position) → Type 0
SettingGoes n (exit problem line) = Unit
SettingGoes n (ok (conf, last, pos)) = length pos.text ≤ n

-- What holds of each exit, and behind each result, holds of a sequence.
bind_ind :
    {A B : Type 0} (P : Result B → Type 0) (r : Result A) (f : A → Result B)
    → ((problem : Problem) (line : ℕ) → P (exit problem line))
    → ((a : A) → r ≡ ok a → P (f a))
    → P (r >>= f)
bind_ind P (exit problem line) f fails goes = fails problem line
bind_ind P (ok a) f fails goes = goes a refl

module _ (lib : CLibrary) where
  skip_comment-lt : (p rest : Bytes) → skip_comment lib p ≡ some rest → length rest < length p
  unfolding skip_comment
  skip_comment-lt [] rest e = absurd (cc)
  skip_comment-lt (c ∷ p) rest e = ground (arith, skip_comment-lt p rest)

  lex_quoted-lt :
      (p value rest : Bytes) → lex_quoted lib p ≡ some (value, rest) → length rest < length p
  unfolding lex_quoted
  lex_quoted-lt [] value rest e = absurd (cc)
  lex_quoted-lt (c ∷ p) value rest e = elim (Option-cases (lex_quoted lib p)) [
    | inl open_end ↦ ground arith
    | inr ((tail, behind), e') ↦ ground (arith, lex_quoted-lt p tail behind e')
  ]

  skip_spaces-le : (p : Bytes) → length (skip_spaces lib p) ≤ length p
  unfolding skip_spaces
  skip_spaces-le [] = omega arith
  skip_spaces-le (c ∷ p) = ground (arith, skip_spaces-le p)

  lex_word-le : (p : Bytes) → length (lex_word lib p).1 ≤ length p
  unfolding lex_word
  lex_word-le [] = omega arith
  lex_word-le (c ∷ p) = ground (arith, lex_word-le p)

  lex_at-Goes : (line : ℕ) (p : Bytes) → Goes (length p) (lex_at lib line p)
  unfolding lex_at
  lex_at-Goes line [] = omega arith
  lex_at-Goes line (c ∷ p) =
      let n = suc (length p) in
      Goes-if n (c == b'#') _ _
        (elim (Option-cases (skip_comment lib p)) [
          | inl last ↦ rw last (omega arith)
          | inr (rest, e) ↦ rw e (omega (arith, skip_comment-lt p rest e))
        ])
        (Goes-if n (c == b'\n') _ _ (omega arith) (
          Goes-if n (c == b'=') _ _ (omega arith) (
            Goes-if n (c == b'"') _ _
              (elim (Option-cases (lex_quoted lib p)) [
                | inl open_end ↦ rw open_end tt
                | inr ((value, rest), e) ↦ rw e (omega (arith, lex_quoted-lt p value rest e))
              ])
              (Goes-if n (not (lib.isalpha c) && not (c == b'_')) _ _ (omega arith) (
                Goes-lt n (find_keyword variables (c ∷ (lex_word lib p).0))
                  (at_line (lex_word lib p).1 line) (omega (arith, lex_word-le p)))))))

  uc_lex-Goes : (pos : Position) → Goes (length pos.text) (uc_lex lib pos)
  unfolding uc_lex
  uc_lex-Goes pos =
      Goes-mono (length (skip_spaces lib pos.text)) (length pos.text) (uc_lex lib pos)
        (skip_spaces-le pos.text) (lex_at-Goes pos.current_line (skip_spaces lib pos.text))

  uc_lex-le :
      (pos pos1 : Position) (token : Token)
      → uc_lex lib pos ≡ ok (token, pos1)
      → length pos1.text ≤ length pos.text
  uc_lex-le pos pos1 token e =
      Goes-le (length pos.text) token pos1 (subst (Goes (length pos.text)) e (uc_lex-Goes pos))

  value-Goes :
      (conf : Conf) (v : Variable) (pos : Position)
      → ValueGoes (length pos.text) (parse_value lib conf v pos)
  unfolding parse_value
  value-Goes conf v pos =
      let P = ValueGoes (length pos.text) in
      bind_ind P (uc_lex lib pos) _ (λ problem line. tt)
        (λ (token, pos1) e1.
          bind_ind P (checked (is_equal token) equal_expected pos.current_line) _
            (λ problem line. tt)
            (λ _ _.
              bind_ind P (uc_lex lib pos1) _ (λ problem line. tt)
                (λ (token1, pos2) e2.
                  bind_ind P (checked (quoted_value token1) value_expected pos1.current_line) _
                    (λ problem line. tt)
                    (λ value _.
                      bind_ind P (checked (assign lib conf v value) invalid_value pos1.current_line)
                        _ (λ problem line. tt)
                        (λ conf' _.
                          le_trans (uc_lex-le pos1 pos2 token1 e2)
                            (uc_lex-le pos pos1 token e1))))))

  setting-Goes :
      (conf : Conf) (seen : List Variable) (v : Variable) (line : ℕ) (pos : Position)
      → SettingGoes (length pos.text) (parse_setting lib conf seen v line pos)
  unfolding parse_setting
  setting-Goes conf seen v line pos =
      let P = SettingGoes (length pos.text) in
      bind_ind P (if had v seen then exit already_defined line else ok tt) _ (λ problem line. tt)
        (λ _ _.
          bind_ind P (parse_value lib conf v pos) _ (λ problem line. tt)
            (λ (conf', pos1) e1.
              bind_ind P (uc_lex lib pos1) _ (λ problem line. tt)
                (λ (token, pos2) e2.
                  bind_ind P (checked (line_end token) unexpected_data pos1.current_line) _
                    (λ problem line. tt)
                    (λ last _.
                      le_trans (uc_lex-le pos1 pos2 token e2)
                        (subst (ValueGoes (length pos.text)) e1 (value-Goes conf v pos))))))

  -- `parse_lines` has a result from here on.
  abbrev Returns : ℕ → Conf → List Variable → Position → Type 0
  Returns fuel conf seen pos = (r : Result Conf) × (parse_lines lib fuel conf seen pos ≡ some r)

  after_setting_total :
      (again : Conf → Position → Option (Result Conf)) (n : ℕ) (s : Result (Conf × Bool × Position))
      → SettingGoes n s
      → ((conf : Conf) (pos : Position)
          → length pos.text ≤ n
          → (r : Result Conf) × (again conf pos ≡ some r))
      → (r : Result Conf) × (after_setting again s ≡ some r)
  after_setting_total again n (exit problem line) g ih = (exit problem line, refl)
  after_setting_total again n (ok (conf, true, pos)) g ih = (ok conf, refl)
  after_setting_total again n (ok (conf, false, pos)) g ih = ih conf pos g

  round_total :
      (fuel : ℕ) (conf : Conf) (seen : List Variable) (pos : Position)
      (lexed : Result (Token × Position))
      → uc_lex lib pos ≡ lexed
      → Goes (length pos.text) lexed
      → length pos.text ≤ fuel
      → ((conf : Conf) (seen : List Variable) (pos : Position)
          → length pos.text < fuel
          → Returns fuel conf seen pos)
      → Returns (suc fuel) conf seen pos
  unfolding parse_lines
  round_total fuel conf seen pos (exit problem line) e g enough ih =
      (exit problem line, rw (e, parse_lines) refl)
  round_total fuel conf seen pos (ok (eof, pos1)) e g enough ih =
      (ok conf, rw (e, parse_lines) refl)
  round_total fuel conf seen pos (ok (eol, pos1)) e g enough ih =
      let (r, h) = ih conf seen pos1 (omega arith) in
      (r, line_step lib fuel conf seen pos pos1 e ∙ h)
  round_total fuel conf seen pos (ok (keyword v, pos1)) e g enough ih =
      let (r, h) =
        after_setting_total (λ conf' pos2. parse_lines lib fuel conf' (v ∷ seen) pos2)
          (length pos1.text) (parse_setting lib conf seen v pos.current_line pos1)
          (setting-Goes conf seen v pos.current_line pos1)
          (λ conf' pos2 le. ih conf' (v ∷ seen) pos2 (omega arith)) in
      (r, setting_step lib fuel conf seen pos pos1 v e ∙ h)
  round_total fuel conf seen pos (ok (identifier name, pos1)) e g enough ih =
      (exit unknown_variable pos.current_line, rw (e, parse_lines) refl)
  round_total fuel conf seen pos (ok (equal, pos1)) e g enough ih =
      (exit variable_expected pos.current_line, rw (e, parse_lines) refl)
  round_total fuel conf seen pos (ok (quoted value, pos1)) e g enough ih =
      (exit variable_expected pos.current_line, rw (e, parse_lines) refl)
  round_total fuel conf seen pos (ok (other, pos1)) e g enough ih =
      (exit variable_expected pos.current_line, rw (e, parse_lines) refl)

  parse_lines_total :
      (fuel : ℕ) (conf : Conf) (seen : List Variable) (pos : Position)
      → length pos.text < fuel
      → Returns fuel conf seen pos
  parse_lines_total zero conf seen pos enough = elim enough [ ]
  parse_lines_total (suc fuel) conf seen pos enough =
      round_total fuel conf seen pos (uc_lex lib pos) refl (uc_lex-Goes pos) (omega arith)
        (parse_lines_total fuel)

  -- The parser ends on every file, well formed or not.
  pub parse_updatedb_conf_total :
      (conf : Conf) (text : Bytes)
      → (r : Result Conf) × (parse_updatedb_conf lib conf text ≡ some r)
  unfolding parse_updatedb_conf
  parse_updatedb_conf_total conf text =
      parse_lines_total (suc (length text)) conf [] (at_line text 1) (omega arith)
