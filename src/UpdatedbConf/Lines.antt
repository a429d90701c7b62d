-- ===== src/UpdatedbConf/Lines.antt =====
-- The lines of a configuration file, how they are written, and what they mean.
use flocate.Prelude.{
  ℕ, ◌+◌, ◌%◌, ◌^◌, List, [], ◌∷◌, ◌++◌, Bytes, Option, none, some, All, Bool, true, false,
}
use flocate.UpdatedbConf.Lexer.{
  CLibrary, Variable, variable_name, already_defined, invalid_value, Result, ok, exit,
}
use flocate.UpdatedbConf.Values.{Conf, assign}
use flocate.UpdatedbConf.Parser.{had}
use flocate.UpdatedbConf.Lexing.{IsBlank, IsInLine, IsQuotable}

-- `before` and so on are blanks.
pub data Line : Type 0 where
  blank : Bytes → Line
  comment : Bytes → Bytes → Line
  setting : Bytes → Variable → Bytes → Bytes → Bytes → Bytes → Line

unfoldable pub print_line : Line → Bytes → Bytes
print_line (blank before) rest = before ++ (b'\n' ∷ rest)
print_line (comment before text) rest = before ++ (b'#' ∷ (text ++ (b'\n' ∷ rest)))
print_line (setting before v behind_name before_value value behind) rest =
    before
    ++ (variable_name v
        ++ (behind_name
            ++ (b'=' ∷ (before_value ++ (b'"' ∷ (value ++ (b'"' ∷ (behind ++ (b'\n' ∷ rest)))))))))

unfoldable pub print_lines : List Line → Bytes
print_lines [] = []
print_lines (line ∷ lines) = print_line line (print_lines lines)

abbrev pub IsLine : CLibrary → Line → Type 0
IsLine lib (blank before) = All (IsBlank lib) before
IsLine lib (comment before text) = All (IsBlank lib) before × All IsInLine text
IsLine lib (setting before v behind_name before_value value behind) =
    All (IsBlank lib) before
    × All (IsBlank lib) behind_name
    × All (IsBlank lib) before_value
    × All IsQuotable value
    × All (IsBlank lib) behind

-- What a setting on line `n` does, if its variable had been set and with its value assigned.
abbrev pub after_run : ℕ → (Conf → Result Conf) → Bool → Option Conf → Result Conf
after_run n again true assigned = exit already_defined n
after_run n again false none = exit invalid_value n
after_run n again false (some conf) = again conf

-- What one line after another does: each variable may be set once, to a value that it takes. The
-- first line that is wrong ends it.
unfoldable pub run_lines : CLibrary → Conf → List Variable → ℕ → List Line → Result Conf
run_lines lib conf seen n [] = ok conf
run_lines lib conf seen n (blank before ∷ lines) = run_lines lib conf seen ((n + 1) % 2 ^ 32) lines
run_lines lib conf seen n (comment before text ∷ lines) =
    run_lines lib conf seen ((n + 1) % 2 ^ 32) lines
run_lines lib conf seen n (setting before v behind_name before_value value behind ∷ lines) =
    after_run n (λ conf'. run_lines lib conf' (v ∷ seen) ((n + 1) % 2 ^ 32) lines) (had v seen)
      (assign lib conf v value)
