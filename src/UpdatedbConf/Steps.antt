-- ===== src/UpdatedbConf/Steps.antt =====
-- A round of the loop of `parse_updatedb_conf`.
use flocate.Prelude.{ℕ, suc, ◌≡◌, refl, List, ◌∷◌}
use flocate.UpdatedbConf.Lexer.{CLibrary, Variable, ok, eol, keyword, Position, uc_lex}
use flocate.UpdatedbConf.Values.{Conf}
use flocate.UpdatedbConf.Parser.{parse_setting, parse_lines, after_setting}

module _ (lib : CLibrary) where
  pub line_step :
      (fuel : ℕ) (conf : Conf) (seen : List Variable) (pos pos1 : Position)
      → uc_lex lib pos ≡ ok (eol, pos1)
      → parse_lines lib (suc fuel) conf seen pos ≡ parse_lines lib fuel conf seen pos1
  unfolding parse_lines
  line_step fuel conf seen pos pos1 e = rw (e, parse_lines) refl

  pub setting_step :
      (fuel : ℕ) (conf : Conf) (seen : List Variable) (pos pos1 : Position) (v : Variable)
      → uc_lex lib pos ≡ ok (keyword v, pos1)
      → parse_lines lib (suc fuel) conf seen pos
        ≡ after_setting
            (λ conf' pos2. parse_lines lib fuel conf' (v ∷ seen) pos2)
            (parse_setting lib conf seen v pos.current_line pos1)
  unfolding parse_lines
  setting_step fuel conf seen pos pos1 v e = rw (e, parse_lines) refl
