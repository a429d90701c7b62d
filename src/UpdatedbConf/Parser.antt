-- ===== src/UpdatedbConf/Parser.antt =====
-- `parse_updatedb_conf` of src/conf.cpp.
use flocate.Prelude.{
  ℕ, zero, suc, Bool, true, false, ◌||◌, List, [], ◌∷◌, Bytes, Option, none, some, length, bytes_eq,
  if◌then◌else◌,
}
use flocate.UpdatedbConf.Lexer.{
  CLibrary, Variable, variable_name, Token, Problem, Result, ◌>>=◌, Position, uc_lex, eof, eol,
  identifier, equal, quoted, other, keyword, unknown_variable, variable_expected, already_defined,
  equal_expected, value_expected, invalid_value, unexpected_data, ok, exit,
}
use flocate.UpdatedbConf.Values.{Conf, assign}

abbrev pub checked : {A : Type 0} → Option A → Problem → ℕ → Result A
checked none problem line = exit problem line
checked (some a) problem line = ok a

-- The cases of the tokens that are expected.
abbrev pub is_equal : Token → Option (Unit {0})
is_equal equal = some tt
is_equal eof = none
is_equal eol = none
is_equal (identifier name) = none
is_equal (quoted value) = none
is_equal other = none
is_equal (keyword v) = none

abbrev pub quoted_value : Token → Option Bytes
quoted_value (quoted value) = some value
quoted_value eof = none
quoted_value eol = none
quoted_value (identifier name) = none
quoted_value equal = none
quoted_value other = none
quoted_value (keyword v) = none

-- Whether the file is at its end.
abbrev pub line_end : Token → Option Bool
line_end eof = some true
line_end eol = some false
line_end (identifier name) = none
line_end equal = none
line_end (quoted value) = none
line_end other = none
line_end (keyword v) = none

abbrev pub had : Variable → List Variable → Bool
had v [] = false
had v (w ∷ ws) = bytes_eq (variable_name v) (variable_name w) || had v ws

-- What the loop does with what a setting gave.
abbrev pub after_setting :
    (Conf → Position → Option (Result Conf))
    → Result (Conf × Bool × Position)
    → Option (Result Conf)
after_setting again (exit problem line) = some (exit problem line)
after_setting again (ok (conf, true, pos)) = some (ok conf)
after_setting again (ok (conf, false, pos)) = again conf pos

module _ (lib : CLibrary) where
  -- The value of a variable, and the position behind it.
  unfoldable pub parse_value : Conf → Variable → Position → Result (Conf × Position)
  unfolding uc_lex assign
  parse_value conf v pos = do
    (token, pos1) ← uc_lex lib pos
    _ ← checked (is_equal token) equal_expected pos.current_line
    (token1, pos2) ← uc_lex lib pos1
    value ← checked (quoted_value token1) value_expected pos1.current_line
    conf' ← checked (assign lib conf v value) invalid_value pos1.current_line
    ok (conf', pos2)

  -- What follows the name of a variable, up to the end of the line, and whether it is the last.
  unfoldable pub parse_setting :
      Conf → List Variable → Variable → ℕ → Position → Result (Conf × Bool × Position)
  unfolding parse_value
  parse_setting conf seen v line pos = do
    _ ← (if had v seen then exit already_defined line else ok tt)
    (conf', pos1) ← parse_value conf v pos
    (token, pos2) ← uc_lex lib pos1
    last ← checked (line_end token) unexpected_data pos1.current_line
    ok (conf', last, pos2)

  -- The loop of `parse_updatedb_conf`; `none` means that the fuel ran out.
  unfoldable pub parse_lines : ℕ → Conf → List Variable → Position → Option (Result Conf)
  unfolding parse_setting
  parse_lines zero conf seen pos = none
  parse_lines (suc fuel) conf seen pos = elim (uc_lex lib pos) [
    | exit problem line ↦ some (exit problem line)
    | ok (token, pos1) ↦ elim token [
      | eof ↦ some (ok conf)
      | eol ↦ parse_lines fuel conf seen pos1
      | keyword v ↦
          after_setting (λ conf' pos2. parse_lines fuel conf' (v ∷ seen) pos2)
            (parse_setting conf seen v pos.current_line pos1)
      | identifier name ↦ some (exit unknown_variable pos.current_line)
      | equal ↦ some (exit variable_expected pos.current_line)
      | quoted value ↦ some (exit variable_expected pos.current_line)
      | other ↦ some (exit variable_expected pos.current_line)
    ]
  ]

  -- `parse_updatedb_conf`, on the contents of the file.
  unfoldable pub parse_updatedb_conf : Conf → Bytes → Option (Result Conf)
  unfolding parse_lines
  parse_updatedb_conf conf text =
      parse_lines (suc (length text)) conf [] (record { text = text; current_line = 1 })
