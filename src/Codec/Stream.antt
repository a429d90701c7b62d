-- ===== src/Codec/Stream.antt =====
-- The loop of `decode_history_stream` on any bytes: it ends, and never reads past the buffer.
use flocate.Prelude.{
  ℕ, zero, suc, ◌-◌, ◌≤◌, ◌<◌, ◌≡◌, refl, ◌⊎◌, inl, inr, true, List, [], ◌∷◌, ◌++◌, Bytes, length,
  drop, arith, length-drop, ltb, Bool-cases, some,
}
use flocate.Bytes.Reader.{
  Parsed, done, refused, overrun, Reader, pure, ◌>>=◌, get_u8, get_u32, get_bytes, bind-done,
  continue,
}
use flocate.Metadata.{HistoryEvent, is_run_marker}
use flocate.Codec.{
  get_time, decode_metadata_record, metadata_record_size, get_path, decode_event, decode_events,
  decode_history_stream, event_header_bytes, delimit,
}
use flocate.Codec.Safety.{
  Takes, get_u32-Takes, get_time-Takes, short, whole, decode_metadata_record-Decodes,
}

-- A reader refuses, or stops with at most `n` bytes left.
abbrev Leaves {ℓ} : {A : Type ℓ} → ℕ → Parsed A → Type 0
Leaves n (done a q) = length q ≤ n
Leaves n refused = Unit
Leaves n overrun = ⊥

abbrev IsSafe {ℓ} : {A : Type ℓ} → Reader A → Type 0
IsSafe m = (p : Bytes) → Leaves (length p) (m p)

Leaves-mono {ℓ} : {A : Type ℓ} (r : Parsed A) (n k : ℕ) → n ≤ k → Leaves n r → Leaves k r
Leaves-mono (done a q) n k h l = omega arith
Leaves-mono refused n k h l = tt
Leaves-mono overrun n k h l = l

IsSafe-bind {ℓ κ} :
    {A : Type ℓ} {B : Type κ} (m : Reader A) (f : A → Reader B)
    → IsSafe m
    → ((a : A) → IsSafe (f a))
    → IsSafe (m >>= f)
unfolding ◌>>=◌
IsSafe-bind m f hm hf p = go (m p) (hm p)
  where
    go : (r : Parsed _) → Leaves (length p) r → Leaves (length p) (continue r f)
    go (done a q) l = Leaves-mono (f a q) (length q) (length p) l (hf a q)
    go refused l = tt
    go overrun l = l

Leaves-bind {ℓ κ} :
    {A : Type ℓ} {B : Type κ} (n left : ℕ) (m : Reader A) (f : A → Reader B) (p : Bytes)
    → Takes n m
    → n ≤ length p
    → ((a : A) → Leaves left (f a (drop n p)))
    → Leaves left ((m >>= f) p)
Leaves-bind n left m f p takes h after = let (a, e) = takes p h in rw (bind-done m f e) (after a)

get_path-IsSafe : (path_len : ℕ) → IsSafe (get_path path_len)
unfolding get_path get_bytes
get_path-IsSafe path_len p = ground (arith, length-drop path_len p)

decode_metadata_record-IsSafe : IsSafe decode_metadata_record
decode_metadata_record-IsSafe p = elim (decode_metadata_record-Decodes p) [
  | short e r ↦ rw r tt
  | whole m lo hi r ↦ rw r (omega (arith, length-drop (metadata_record_size p) p))
]

pure-IsSafe {ℓ} : {A : Type ℓ} (a : A) → IsSafe (pure a)
unfolding pure
pure-IsSafe a p = omega arith

get_u8-Takes : Takes 1 get_u8
unfolding get_u8
get_u8-Takes [] h = absurd (omega arith)
get_u8-Takes (b ∷ p) h = (b, refl)

decode_event-Leaves :
    (p : Bytes)
    → event_header_bytes ≤ length p
    → Leaves (length p - event_header_bytes) (decode_event p)
unfolding decode_event
decode_event-Leaves p h =
    let one = length-drop 1 p in
    let twelve = length-drop 12 (drop 1 p) in
    let four = length-drop 4 (drop 12 (drop 1 p)) in
    Leaves-bind 1 _ get_u8 _ p get_u8-Takes (omega arith) λ kind.
      Leaves-bind 12 _ get_time _ _ get_time-Takes (omega arith) λ time.
        Leaves-bind 4 _ get_u32 _ _ get_u32-Takes (omega arith) λ path_len.
          Leaves-mono _ (length (drop 4 (drop 12 (drop 1 p)))) _ (omega arith) (
            IsSafe-bind (get_path path_len) _ (get_path-IsSafe path_len)
              (λ path. IsSafe-bind decode_metadata_record _ decode_metadata_record-IsSafe (λ old.
                IsSafe-bind decode_metadata_record _ decode_metadata_record-IsSafe
                  (λ new. pure-IsSafe _)))
              (drop 4 (drop 12 (drop 1 p))))

Leaves-cases {ℓ} :
    {A : Type ℓ} {n : ℕ} (r : Parsed A)
    → Leaves n r
    → ((a : A) × (q : Bytes) × (r ≡ done a q) × (length q ≤ n)) ⊎ (r ≡ refused)
Leaves-cases (done a q) l = inl (a, q, refl, l)
Leaves-cases refused l = inr refl
Leaves-cases overrun l = absurd l

-- The loop ends with a result when the fuel passes the bytes left.
decode_events_total :
    (fuel : ℕ) (events : List HistoryEvent) (p : Bytes)
    → length p < fuel
    → (r : List HistoryEvent) × (decode_events fuel events p ≡ some r)
unfolding decode_events
decode_events_total zero events p h = elim h [ ]
decode_events_total (suc fuel) events p h = elim (Bool-cases (ltb (length p) event_header_bytes)) [
  | inl stop ↦ (events, rw stop)
  | inr more ↦ elim (Leaves-cases (decode_event p) (decode_event-Leaves p (ground arith))) [
    | inl (event, q, e, l) ↦
        rw (more, e) (decode_events_total fuel (events ++ (event ∷ [])) q (ground arith))
    | inr e ↦ (events, rw (more, e))
  ]
]

-- A stream starts with a run marker, or holds no event.
abbrev pub IsDelimited : List HistoryEvent → Type 0
IsDelimited [] = Unit
IsDelimited (event ∷ events) = is_run_marker event.kind ≡ true

delimit-IsDelimited : (events : List HistoryEvent) → IsDelimited (delimit events)
unfolding delimit
delimit-IsDelimited [] = tt
delimit-IsDelimited (event ∷ events) = ground arith

-- On any bytes at all the decoder ends, without a read past the end of the buffer, with events that
-- start with a run marker unless there are none.
pub decode_history_stream_total :
    (stream : Bytes)
    → (events : List HistoryEvent) × (decode_history_stream stream ≡ some events)
      × IsDelimited events
unfolding decode_history_stream
decode_history_stream_total stream =
    let (events, e) = decode_events_total (suc (length stream)) [] stream (omega arith) in
    (delimit events, rw (decode_history_stream, e), delimit-IsDelimited events)
