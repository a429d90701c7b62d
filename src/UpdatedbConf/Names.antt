-- ===== src/UpdatedbConf/Names.antt =====
-- The names of the variables, and how the lexer finds them.
use flocate.Prelude.{
  ℕ, ◌≡◌, refl, Bool, true, ◌&&◌, ◌||◌, [], ◌∷◌, Bytes, codes, bytes_eq, ltb, ◌==◌,
}
use flocate.UpdatedbConf.Lexer.{
  Variable, prune_bind_mounts, prunefs, prunenames, prunepaths, metadata_hash, history_depth,
  compare_atime, hash_max_size, variable_name, variables, keyword, find_keyword,
}

unfoldable pub upper_or_line : ℕ → Bool
upper_or_line c = (ltb 64 c && ltb c 91) || c == b'_'

unfoldable pub all_upper : Bytes → Bool
all_upper [] = true
all_upper (c ∷ p) = upper_or_line c && all_upper p

names_upper : (v : Variable) → all_upper (variable_name v) ≡ true
unfolding all_upper upper_or_line
names_upper prune_bind_mounts = refl
names_upper prunefs = refl
names_upper prunenames = refl
names_upper prunepaths = refl
names_upper metadata_hash = refl
names_upper history_depth = refl
names_upper compare_atime = refl
names_upper hash_max_size = refl

pub find_keyword-name : (v : Variable) → find_keyword variables (variable_name v) ≡ keyword v
unfolding find_keyword bytes_eq
find_keyword-name prune_bind_mounts = refl
find_keyword-name prunefs = refl
find_keyword-name prunenames = refl
find_keyword-name prunepaths = refl
find_keyword-name metadata_hash = refl
find_keyword-name history_depth = refl
find_keyword-name compare_atime = refl
find_keyword-name hash_max_size = refl

-- A name starts with a letter.
pub record NameForm (v : Variable) : Type 0 where
  pub first : ℕ
  pub tail : Bytes
  pub splits : variable_name v ≡ first ∷ tail
  pub upper : (ltb 64 first && ltb first 91) ≡ true
  pub all : all_upper tail ≡ true

pub name_form : (v : Variable) → NameForm v
unfolding all_upper upper_or_line
name_form prune_bind_mounts = record {
  first = b'P';
  tail = codes "RUNE_BIND_MOUNTS";
  splits = refl;
  upper = refl;
  all = refl;
}
name_form prunefs = record {
  first = b'P';
  tail = codes "RUNEFS";
  splits = refl;
  upper = refl;
  all = refl;
}
name_form prunenames = record {
  first = b'P';
  tail = codes "RUNENAMES";
  splits = refl;
  upper = refl;
  all = refl;
}
name_form prunepaths = record {
  first = b'P';
  tail = codes "RUNEPATHS";
  splits = refl;
  upper = refl;
  all = refl;
}
name_form metadata_hash = record {
  first = b'M';
  tail = codes "ETADATA_HASH";
  splits = refl;
  upper = refl;
  all = refl;
}
name_form history_depth = record {
  first = b'H';
  tail = codes "ISTORY_DEPTH";
  splits = refl;
  upper = refl;
  all = refl;
}
name_form compare_atime = record {
  first = b'C';
  tail = codes "OMPARE_ATIME";
  splits = refl;
  upper = refl;
  all = refl;
}
name_form hash_max_size = record {
  first = b'H';
  tail = codes "ASH_MAX_SIZE";
  splits = refl;
  upper = refl;
  all = refl;
}
