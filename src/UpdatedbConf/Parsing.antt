-- ===== src/UpdatedbConf/Parsing.antt =====
-- The parser does with a file what its lines mean.
use flocate.Prelude.{ℕ, ◌+◌, ◌%◌, ◌^◌, Bool, true, false, ◌∷◌, ◌++◌, Bytes, Option, none, some}
use flocate.UpdatedbConf.Lexer.{
  CLibrary, already_defined, invalid_value, Result, ok, exit, Position, at_line,
}
use flocate.UpdatedbConf.Values.{Conf}
use flocate.UpdatedbConf.Lexing.{IsLocale}

module _ (lib : CLibrary) (locale : IsLocale lib) where
  -- What stands between a name and the end of its line.
  abbrev value_text : Bytes → Bytes → Bytes → Bytes → Bytes
  value_text behind_name before_value value rest =
      behind_name ++ (b'=' ∷ (before_value ++ (b'"' ∷ (value ++ (b'"' ∷ rest)))))

  -- What a setting gives.
  abbrev outcome : Bool → Option Conf → ℕ → Bytes → Result (Conf × Bool × Position)
  outcome true assigned line rest = exit already_defined line
  outcome false none line rest = exit invalid_value line
  outcome false (some conf) line rest = ok (conf, false, at_line rest ((line + 1) % 2 ^ 32))
