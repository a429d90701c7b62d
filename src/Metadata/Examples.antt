-- ===== src/Metadata/Examples.antt =====
-- Concrete comparisons.
use flocate.Prelude.{true, false, ◌≡◌, ◌↔◌, refl, [], codes}
use flocate.Prelude.Int.{pos}
use flocate.Metadata.{
  FileMetadata, dir_time_lt, dir_time_equals, hash_equals, metadata_equals, metadata_diff_fields,
  no_metadata, not_a_dir, unknown_dir_time,
}
use flocate.Metadata.Differences.{diff_fields_iff}

abbrev plain : FileMetadata
plain = record no_metadata { enabled = true; size = 3; mode = 0o100644 }

abbrev touched : FileMetadata
touched = record plain { atime = record { sec = pos 7; nsec = pos 0 } }

diff_touched : metadata_diff_fields plain (record touched { uid = 5 }) ≡ codes "uid,atime"
unfolding metadata_diff_fields dir_time_equals hash_equals
diff_touched = refl

equals_touched : metadata_equals plain touched false ≡ true
unfolding metadata_equals dir_time_equals hash_equals
equals_touched = refl

not_a_dir_lt : dir_time_lt not_a_dir unknown_dir_time ≡ true
unfolding dir_time_lt
not_a_dir_lt = refl

diff_fields_iff_example :
    (metadata_diff_fields plain touched ≡ []) ↔ (metadata_equals plain touched true ≡ true)
diff_fields_iff_example = diff_fields_iff plain touched
