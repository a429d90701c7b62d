-- ===== src/Metadata/Differences.antt =====
-- `metadata_equals` against `metadata_diff_fields`.
use flocate.Prelude.{true, false, ◌≡◌, ◌↔◌, ◌⊎◌, [], arith, codes}
use flocate.Metadata.{FileMetadata, metadata_equals, metadata_diff_fields}

-- Two metadata records have no field that differs exactly when they are equal with access times
-- compared.
pub diff_fields_iff :
    (a b : FileMetadata) → (metadata_diff_fields a b ≡ []) ↔ (metadata_equals a b true ≡ true)
unfolding metadata_equals metadata_diff_fields
diff_fields_iff a b = ground arith

-- Two metadata records are equal with access times left out exactly when no field differs, or the
-- access time is the only one.
equals_without_atime_iff :
    (a b : FileMetadata)
    → (metadata_equals a b false ≡ true)
      ↔ ((metadata_diff_fields a b ≡ []) ⊎ (metadata_diff_fields a b ≡ codes "atime"))
unfolding metadata_equals metadata_diff_fields
equals_without_atime_iff a b = ground arith
