-- ===== src/Trigram.antt =====
-- src/parse_trigrams.cpp and include/parse_trigrams.h, for case-sensitive needles, and the plain
-- text of a glob pattern (src/needle.cpp).
pub mod Windows
pub mod Scan
pub mod Reads
pub mod Match
pub mod Reading
pub mod Complete
pub mod Unescape
mod Examples
use flocate.Prelude.{
  ℕ, zero, suc, ◌+◌, ◌-◌, ◌*◌, ◌^◌, bit_or, Bool, true, false, ◌||◌, List, [], ◌∷◌, ◌++◌, Bytes,
  Option, none, some, length, drop, ◌==◌, ltb, if◌then◌else◌,
}

abbrev pub wildcard_unigram : ℕ
wildcard_unigram = 0xFF000000

abbrev pub premature_end_unigram : ℕ
premature_end_unigram = 0xFF000001

-- `u == WILDCARD_UNIGRAM || u == PREMATURE_END_UNIGRAM`
abbrev pub is_invalid : ℕ → Bool
is_invalid u = u == wildcard_unigram || u == premature_end_unigram

-- The `for (;;)` loop that looks for the end of a character class.
pub read_class : Bytes → ℕ → ℕ × ℕ
read_class [] len = (premature_end_unigram, len)
read_class (c ∷ s) len = if c == b']' then (wildcard_unigram, len + 1) else read_class s (len + 1)

-- A ']' that stands first in a class is a member of it.
read_class_start : Bytes → ℕ → ℕ × ℕ
read_class_start [] len = (premature_end_unigram, len)
read_class_start (c ∷ s) len = if c == b']' then read_class s (len + 1) else read_class (c ∷ s) len

read_negation : Bytes → ℕ → ℕ × ℕ
read_negation [] len = (premature_end_unigram, len)
read_negation (c ∷ s) len =
    if c == b'!' then read_class_start s (len + 1) else read_class_start (c ∷ s) len

read_escaped : Bytes → ℕ × ℕ
read_escaped [] = (premature_end_unigram, 1)
read_escaped (c ∷ s) = (c, 2)

-- `read_unigram` on the bytes from `start` on.
unfoldable pub unigram_at : Bytes → ℕ × ℕ
unfolding read_escaped read_negation read_class_start read_class
unigram_at [] = (premature_end_unigram, 0)
unigram_at (c ∷ s) =
    if c == b'\\'
    then read_escaped s
    else if c == b'*' || c == b'?'
    then (wildcard_unigram, 1)
    else if c == b'['
    then read_negation s 1
    else (c, 1)

unfoldable pub read_unigram : Bytes → ℕ → ℕ × ℕ
read_unigram s start = unigram_at (drop start s)

unfoldable pub read_trigram : Bytes → ℕ → ℕ
read_trigram s start =
    let (u1, len1) = read_unigram s start in
    let (u2, len2) = read_unigram s (start + len1) in
    let (u3, len3) = read_unigram s (start + len1 + len2) in
    if is_invalid u1
    then u1
    else if is_invalid u2
    then u2
    else if is_invalid u3
    then u3
    else bit_or (bit_or u1 (u2 * 2 ^ 8)) (u3 * 2 ^ 16)

-- include/db.h
pub record Trigram : Type 0 where
  pub trgm : ℕ
  pub num_docids : ℕ
  pub offset : ℕ

pub record TrigramDisjunction : Type 0 where
  pub index : ℕ
  pub trigram_alternatives : List ℕ
  pub read_trigrams : List (Trigram × ℕ)
  pub max_num_docids : ℕ
  pub docids : List ℕ
  pub remaining_trigrams_to_read : ℕ

-- `new_pt` of `parse_trigrams`; the index is `unsigned(-1)`.
abbrev pub single_trigram : ℕ → TrigramDisjunction
single_trigram trgm = record {
  index = 2 ^ 32 - 1;
  trigram_alternatives = trgm ∷ [];
  read_trigrams = [];
  max_num_docids = 0;
  docids = [];
  remaining_trigrams_to_read = 1;
}

-- The loop of `parse_trigrams` from position `i` on; `none` means that the fuel ran out.
pub parse_from : ℕ → Bytes → ℕ → List TrigramDisjunction → Option (List TrigramDisjunction)
parse_from zero needle i groups = none
parse_from (suc fuel) needle i groups =
    let trgm = read_trigram needle i in
    let groups' = if is_invalid trgm then groups else groups ++ (single_trigram trgm ∷ []) in
    let rest = parse_from fuel needle (i + (read_unigram needle i).1) groups' in
    if ltb i (length needle) then rest else some groups

-- `parse_trigrams` with `ignore_case` false. Each round moves on by a byte at least.
unfoldable pub parse_trigrams : Bytes → Option (List TrigramDisjunction)
parse_trigrams needle = parse_from (suc (length needle)) needle 0 []

-- `Needle` with its type, where that is not REGEX, and its `str`.
pub data Needle : Type 0 where
  strstr : Bytes → Needle
  glob : Bytes → Needle

abbrev pub needle_str : Needle → Bytes
needle_str (strstr str) = str
needle_str (glob str) = str

-- How `unescape_glob_to_plain_string` ends: with a string, with the exit on a pattern that ended
-- prematurely, at the failed assertion on a wildcard, or (never) without fuel.
pub data Unescaped : Type 0 where
  plain : Bytes → Unescaped
  ended_prematurely : Unescaped
  assertion_failed : Unescaped
  stuck : Unescaped

pub unescape_from : ℕ → Bytes → ℕ → Bytes → Unescaped
unescape_from zero needle i unescaped = stuck
unescape_from (suc fuel) needle i unescaped =
    let (ch, len) = read_unigram needle i in
    let rest = unescape_from fuel needle (i + len) (unescaped ++ (ch ∷ [])) in
    if ltb i (length needle)
    then if ch == wildcard_unigram
      then assertion_failed
      else if ch == premature_end_unigram
      then ended_prematurely
      else rest
    else plain unescaped

unfoldable pub unescape_glob_to_plain_string : Bytes → Unescaped
unescape_glob_to_plain_string needle = unescape_from (suc (length needle)) needle 0 []
