-- ===== src/Showdiff/Examples.antt =====
-- Concrete snapshots and configurations.
use flocate.Prelude.{
  ℕ, ◌+◌, ◌-◌, ◌≡◌, true, false, List, [], ◌∷◌, Bytes, codes, some, arith, ltb, leb, if◌then◌else◌,
}
use flocate.Prelude.Int.{ℤ, pos, negsuc}
use flocate.Metadata.{FileMetadata, no_metadata, MetadataHashKind}
use flocate.Corpus.{add_paths}
use flocate.Corpus.BlockTrigrams.{IsName}
use flocate.Showdiff.Paths.{extract_paths_from_block, extract_paths-add_paths}
use flocate.Showdiff.Filter.{
  new_filter, enable_all, accepts, always, asked, any_asked, accepts-enable_all,
}
use flocate.Metadata.{added, removed, modified}
use flocate.Prelude.{All, ◌++◌}
use flocate.Showdiff.Diff.{Row}
use flocate.Showdiff.Conf.{Conf, gen_conf_block, parse_conf_block, new_prune_config}
use flocate.Showdiff.ConfRoundTrip.{IsConf, read_back, parse_conf_block-gen}

abbrev grown : FileMetadata
grown = record no_metadata { enabled = true; size = 3 }

abbrev before : List Row
before =
    record { path = codes "/a"; metadata = no_metadata }
    ∷ record { path = codes "/b"; metadata = no_metadata }
    ∷ []

abbrev after : List Row
after =
    record { path = codes "/b"; metadata = grown }
    ∷ record { path = codes "/c"; metadata = grown }
    ∷ []

-- ASCII upper case, and a decimal digit.
abbrev ascii_upper : ℕ → ℕ
ascii_upper c = if ltb c b'a' then c else if leb c b'z' then c - 32 else c

abbrev one_digit : ℤ → Bytes
one_digit (pos n) = (b'0' + n) ∷ []
one_digit (negsuc n) = b'-' ∷ (b'1' + n) ∷ []

abbrev a_conf : Conf
a_conf = record {
  conf_prune_bind_mounts = true;
  conf_prunefs = codes "NFS" ∷ codes "proc" ∷ [];
  conf_prunenames = codes ".git" ∷ [];
  conf_prunepaths = codes "/media" ∷ codes "/tmp" ∷ [];
  conf_metadata_hash_kind = MetadataHashKind.sha256;
  conf_history_depth = pos 5;
}

a_conf-IsConf : IsConf one_digit a_conf
a_conf-IsConf = record {
  prunefs = search arith;
  prunenames = search arith;
  prunepaths = search arith;
  depth = search arith;
}

parse_conf_block-gen_example :
    parse_conf_block ascii_upper (gen_conf_block one_digit a_conf) new_prune_config
    ≡ some (read_back ascii_upper a_conf)
parse_conf_block-gen_example =
    parse_conf_block-gen ascii_upper one_digit a_conf new_prune_config a_conf-IsConf

abbrev names : List Bytes
names = codes "/a" ∷ codes "/b/c" ∷ []

names-IsName : All IsName names
names-IsName = search arith

extract_paths-add_paths_example :
    extract_paths_from_block (add_paths [] names) [] ≡ some ([] ++ names)
extract_paths-add_paths_example = extract_paths-add_paths names [] names-IsName

accepts-enable_all_example : accepts (enable_all new_filter (added ∷ modified ∷ [])) removed ≡ false
unfolding any_asked always asked
accepts-enable_all_example = accepts-enable_all (added ∷ modified ∷ []) removed
