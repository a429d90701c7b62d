-- ===== src/Trigram/Examples.antt =====
-- Concrete needles.
use flocate.Prelude.{◌≡◌, ◌↔◌, refl, List, [], ◌∷◌, codes, some}
use flocate.Trigram.{
  parse_trigrams, TrigramDisjunction, parse_from, read_trigram, single_trigram,
  unescape_glob_to_plain_string, unescape_from, read_unigram, plain, ended_prematurely,
  assertion_failed, wildcard_unigram, premature_end_unigram, unigram_at,
}
use flocate.Trigram.Match.{Matches}
use flocate.Trigram.Scan.{parse_trigrams_total}
use flocate.Trigram.Unescape.{unescape-Matches}

class_is_wildcard : unigram_at (codes "[]a]x") ≡ (wildcard_unigram, 4)
unfolding unigram_at
class_is_wildcard = refl

open_class : unigram_at (codes "[!a") ≡ (premature_end_unigram, 3)
unfolding unigram_at
open_class = refl

unescape_star : unescape_glob_to_plain_string (codes "a*") ≡ assertion_failed
unfolding unescape_glob_to_plain_string unescape_from unigram_at read_unigram
unescape_star = refl

unescape_open : unescape_glob_to_plain_string (codes "a\\") ≡ ended_prematurely
unfolding unescape_glob_to_plain_string unescape_from unigram_at read_unigram
unescape_open = refl

parse_trigrams_total_example :
    (r : List TrigramDisjunction) × (parse_trigrams (codes "ab[") ≡ some r)
parse_trigrams_total_example = parse_trigrams_total (codes "ab[")

-- A plain needle with a backslash: the trigram is that of "oob", which the needle does not hold.
backslash_missed : parse_trigrams (codes "oo\\b") ≡ some (single_trigram 0x626F6F ∷ [])
unfolding parse_trigrams parse_from read_trigram read_unigram unigram_at
backslash_missed = refl

-- `a\*` matches `a*`.
escaped_plain : unescape_glob_to_plain_string (codes "a\\*") ≡ plain (codes "a*")
unfolding unescape_glob_to_plain_string unescape_from unigram_at read_unigram
escaped_plain = refl

unescape-Matches_example : Matches (codes "a\\*") (codes "ab") ↔ (codes "ab" ≡ codes "a*")
unescape-Matches_example = unescape-Matches (codes "a\\*") (codes "a*") (codes "ab") escaped_plain
