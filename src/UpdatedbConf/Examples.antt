-- ===== src/UpdatedbConf/Examples.antt =====
-- A configuration file of three lines, in the C locale.
use flocate.Prelude.{
  ℕ, ◌+◌, ◌-◌, ◌≡◌, refl, Bool, false, ◌&&◌, ◌||◌, List, [], ◌∷◌, ◌++◌, Bytes, codes, some, All,
  ltb, ◌==◌, if◌then◌else◌,
}
use flocate.Metadata.{MetadataHashKind}
use flocate.UpdatedbConf.Lexer.{CLibrary, prunefs, Result, ok, exit, already_defined, missing_quote}
use flocate.UpdatedbConf.Values.{Conf, var_add_values, assign}
use flocate.UpdatedbConf.Parser.{parse_updatedb_conf}
use flocate.UpdatedbConf.Lexing.{IsInLine}
use flocate.UpdatedbConf.Lines.{Line, blank, comment, setting, print_line, print_lines, run_lines}
use flocate.UpdatedbConf.Words.{HasWords, var_add_values-HasWords}
use flocate.UpdatedbConf.Ending.{parse_updatedb_conf_total}

abbrev is_upper : ℕ → Bool
is_upper c = ltb 64 c && ltb c 91

abbrev is_letter : ℕ → Bool
is_letter c = is_upper c || (ltb 96 c && ltb c 123)

abbrev is_space : ℕ → Bool
is_space c = c == b' ' || (ltb 8 c && ltb c 14)

-- Only the character classes matter below; the numbers are those of one digit.
abbrev c_locale : CLibrary
c_locale = record {
  isspace = is_space;
  isalpha = is_letter;
  isalnum = λ c. is_letter c || (ltb 47 c && ltb c 58);
  tolower = λ c. if is_upper c then c + 32 else c;
  toupper = λ c. if ltb 96 c && ltb c 123 then c - 32 else c;
  strtol = λ str. elim str [ [] ↦ (some 0, [], false) | c ∷ end ↦ (some (c - 48), end, false) ];
  strtoull = λ str. elim str [ [] ↦ (0, [], false) | c ∷ end ↦ (c - 48, end, false) ];
}

abbrev start : Conf
start = record {
  prune_bind_mounts = false;
  prunefs = [];
  prunenames = [];
  prunepaths = [];
  metadata_hash_kind = MetadataHashKind.none;
  history_depth = 1;
  compare_atime = false;
  hash_max_size = 0;
}

abbrev spaced : Line
spaced = setting [] prunefs (codes " ") (codes " ") (codes "nfs proc") []

abbrev three_lines : List Line
three_lines = comment [] (codes " types") ∷ spaced ∷ blank (codes " ") ∷ []

three_lines_text : print_lines three_lines ≡ codes "# types\nPRUNEFS = \"nfs proc\"\n \n"
unfolding print_lines print_line
three_lines_text = refl

three_lines_run :
    run_lines c_locale start [] 1 three_lines
    ≡ ok (record start { prunefs = codes "nfs" ∷ codes "proc" ∷ [] })
unfolding run_lines assign
three_lines_run = refl

twice_run : run_lines c_locale start [] 1 (spaced ∷ spaced ∷ []) ≡ exit already_defined 2
unfolding run_lines assign
twice_run = refl

word : All IsInLine (codes " types")
word = (refl, (refl, (refl, (refl, (refl, (refl, tt))))))

-- An open quote is an exit on its line.
open_quote_run :
    parse_updatedb_conf c_locale start (codes "\nPRUNEFS = \"nfs\n") ≡ some (exit missing_quote 2)
unfolding parse_updatedb_conf
open_quote_run = refl

parse_updatedb_conf_total_example :
    (r : Result Conf) × (parse_updatedb_conf c_locale start (codes "\nPRUNEFS = \"nfs\n") ≡ some r)
parse_updatedb_conf_total_example =
    parse_updatedb_conf_total c_locale start (codes "\nPRUNEFS = \"nfs\n")

var_add_values-HasWords_example :
    (words : List Bytes) × HasWords c_locale words (codes " nfs  proc")
    × (var_add_values c_locale (codes "tmpfs" ∷ []) (codes " nfs  proc")
        ≡ (codes "tmpfs" ∷ []) ++ words)
var_add_values-HasWords_example =
    var_add_values-HasWords c_locale (codes "tmpfs" ∷ []) (codes " nfs  proc")
