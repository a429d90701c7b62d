-- ===== src/Codec/StreamRoundTrip.antt =====
-- A history stream that was written is read back.
use flocate.Prelude.{◌%◌, ◌^◌, ◌≤◌, ◌<◌, List, [], ◌∷◌, ◌++◌, Bytes, length}
use flocate.Bytes.Words.{little_endian}
use flocate.Metadata.{HistoryEventKind, HistoryEvent, event_kind_byte}
use flocate.Codec.Record.{IsTime, IsMetadata, stored, time_bytes, record_bytes}

abbrev pub IsEventKind : HistoryEventKind → Type 0
IsEventKind (HistoryEventKind.unnamed n) = (4 ≤ n) × (n < 256)
IsEventKind _ = Unit

-- A value of `HistoryEvent`. A path has fewer than 2 ^ 32 bytes, since its length is cast to 32 bits.
pub record IsEvent (event : HistoryEvent) : Type 0 where
  pub kind : IsEventKind event.kind
  pub path : length event.path < 2 ^ 32
  pub event_time : IsTime event.event_time
  pub old_metadata : IsMetadata event.old_metadata
  pub new_metadata : IsMetadata event.new_metadata

unfoldable pub stored_event : HistoryEvent → HistoryEvent
stored_event event = record event {
  old_metadata = stored event.old_metadata;
  new_metadata = stored event.new_metadata;
}

abbrev event_bytes : HistoryEvent → Bytes → Bytes
event_bytes event rest =
    event_kind_byte event.kind % 256
    ∷ time_bytes event.event_time (
        little_endian 4 (length event.path % 2 ^ 32)
        ++ (event.path ++ record_bytes event.old_metadata (record_bytes event.new_metadata rest)))

stream_bytes : List HistoryEvent → Bytes
stream_bytes [] = []
stream_bytes (event ∷ events) = event_bytes event (stream_bytes events)
