-- ===== src/Codec/Examples.antt =====
-- Concrete records and streams.
use flocate.Prelude.{◌≡◌, true, List, [], ◌∷◌, ◌++◌, drop, replicate, some, arith, codes}
use flocate.Prelude.Int.{pos, negsuc}
use flocate.Bytes.Reader.{done}
use flocate.Metadata.{
  MetadataHash, MetadataHashKind, FileMetadata, no_metadata, HistoryEvent, HistoryEventKind,
}
use flocate.Codec.{encode_metadata_record, decode_metadata_record, decode_history_stream}
use flocate.Codec.Record.{IsMetadata, stored, decode-encode}
use flocate.Codec.Safety.{Decodes, decode_metadata_record-Decodes}
use flocate.Codec.Stream.{IsDelimited, decode_history_stream_total}

abbrev hash : MetadataHash
hash = record {
  kind = MetadataHashKind.xx_hash64;
  value = codes "abcdefgh" ++ replicate 24 0;
  length = 8;
}

abbrev file : FileMetadata
file = record {
  enabled = true;
  mode = 0o100644;
  uid = 1000;
  gid = 100;
  size = 5_000_000_000;
  mtime = record { sec = negsuc 4; nsec = pos 999_999_999 };
  ctime = record { sec = pos 1_700_000_000; nsec = pos 1 };
  atime = record { sec = pos 0; nsec = pos 0 };
  hash = hash;
}

file-IsMetadata : IsMetadata file
file-IsMetadata = omega arith

abbrev event : HistoryEvent
event = record {
  kind = HistoryEventKind.added;
  path = codes "/a";
  event_time = record { sec = pos 9; nsec = pos 0 };
  old_metadata = no_metadata;
  new_metadata = file;
}

decode-encode_example :
    decode_metadata_record (drop 1 (encode_metadata_record (7 ∷ []) file ++ (9 ∷ [])))
    ≡ done (stored file) (9 ∷ [])
decode-encode_example = decode-encode (7 ∷ []) file (9 ∷ []) file-IsMetadata

decode_metadata_record-Decodes_example : Decodes (1 ∷ 2 ∷ [])
decode_metadata_record-Decodes_example = decode_metadata_record-Decodes (1 ∷ 2 ∷ [])

decode_history_stream_total_example :
    (events : List HistoryEvent) × (decode_history_stream (0 ∷ 1 ∷ []) ≡ some events)
    × IsDelimited events
decode_history_stream_total_example = decode_history_stream_total (0 ∷ 1 ∷ [])
