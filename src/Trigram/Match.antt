-- ===== src/Trigram/Match.antt =====
-- What `matches` of src/needle.cpp accepts: strstr, and fnmatch with no flags. This stands on the
-- documents of the C library, and on nothing that reads unigrams.
use flocate.Prelude.{
  ℕ, ◌≡◌, Bool, true, false, not, ◌&&◌, ◌||◌, [], ◌∷◌, ◌++◌, Bytes, All, is_empty, ◌==◌,
  if◌then◌else◌,
}
use flocate.Trigram.{Needle, strstr, glob}

-- The bytes that do not stand for themselves in a pattern.
abbrev pub is_special : ℕ → Bool
is_special c = c == b'\\' || (c == b'*' || (c == b'?' || c == b'['))

-- Bytes that stand in a bracket expression for themselves: not the backslash, which quotes there too,
-- and not the bracket, which starts a class such as [:alpha:].
abbrev pub is_member : ℕ → Bool
is_member c = not (c == b'[') && not (c == b'\\')

-- Members, up to the closing bracket.
unfoldable pub closes : Bytes → Bool
closes [] = false
closes (c ∷ text) = if c == b']' then is_empty text else is_member c && closes text

unfoldable pub is_list : Bytes → Bool
unfolding closes
is_list [] = false
is_list (c ∷ text) = is_member c && closes text

-- A bracket expression without its first bracket: perhaps a negation, a member, which may be the
-- closing bracket, further members, and the closing bracket.
unfoldable pub is_bracket : Bytes → Bool
unfolding is_list
is_bracket [] = false
is_bracket (c ∷ text) = if c == b'!' then is_list text else is_list (c ∷ text)

-- fnmatch, except that a bracket expression stands for any byte here. `bracket`, `star` and so on
-- say what the first byte of the pattern is.
pub data Matches : Bytes → Bytes → Type 0 where
  finish : Matches [] []
  literal : {p t : Bytes} {c : ℕ} → is_special c ≡ false → Matches p t → Matches (c ∷ p) (c ∷ t)
  escaped : {p t : Bytes} {x c : ℕ} → x ≡ b'\\' → Matches p t → Matches (x ∷ c ∷ p) (c ∷ t)
  star :
      {p t m : Bytes} {x : ℕ} (skipped : Bytes)
      → x ≡ b'*'
      → m ≡ skipped ++ t
      → Matches p t
      → Matches (x ∷ p) m
  question : {p t : Bytes} {x c : ℕ} → x ≡ b'?' → Matches p t → Matches (x ∷ p) (c ∷ t)
  bracket :
      {p q t : Bytes} {x c : ℕ} (text : Bytes)
      → x ≡ b'['
      → is_bracket text ≡ true
      → q ≡ text ++ p
      → Matches p t
      → Matches (x ∷ q) (c ∷ t)

-- What a needle finds: strstr a string within the name, fnmatch the whole name.
pub data Finds : Needle → Bytes → Type 0 where
  within :
      {str name : Bytes} (front back : Bytes)
      → name ≡ front ++ (str ++ back)
      → Finds (strstr str) name
  whole : {str name : Bytes} → Matches str name → Finds (glob str) name

-- `parse_trigrams` takes a backslash for an escape in plain needles too.
abbrev pub HasNoBackslash : Needle → Type 0
HasNoBackslash (strstr str) = All (λ c. (c == b'\\') ≡ false) str
HasNoBackslash (glob str) = Unit
