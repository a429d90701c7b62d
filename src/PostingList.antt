-- ===== src/PostingList.antt =====
-- Posting lists: PostingListBuilder of src/database-builder.cpp, and decode_pfor_delta1 of
-- src/turbopfor.cpp.

pub mod Decoding
pub mod Building
pub mod RoundTrip
pub mod Index
mod Examples
use flocate.Prelude.{
  ℕ, zero, suc, ◌+◌, ◌-◌, ◌%◌, ◌^◌, min, Bool, true, false, ◌&&◌, List, [], ◌∷◌, ◌++◌, Bytes,
  Option, none, some, length, is_empty, ◌==◌, if◌then◌else◌,
}
use flocate.Bytes.Reader.{Reader, pure, ◌>>=◌}
use flocate.Pfor.Values.{write_baseval, read_baseval}
use flocate.Pfor.Choice.{encode_pfor_single_block, decode_block}

pub record PostingListBuilder : Type 0 where
  pub encoded : Bytes
  pub pending_deltas : List ℕ
  pub num_docids : ℕ
  pub last_docid : ℕ

abbrev pub new_list : PostingListBuilder
new_list = record { encoded = []; pending_deltas = []; num_docids = 0; last_docid = 2 ^ 32 - 1 }

-- `add_first_docid` with `write_header`; `none` where write_baseval has no form for the docid.
unfoldable pub add_first_docid : PostingListBuilder → ℕ → Option PostingListBuilder
unfolding write_baseval
add_first_docid b docid = elim (write_baseval docid) [
  | none ↦ none
  | some header ↦ some (record b {
    encoded = b.encoded ++ header;
    num_docids = (b.num_docids + 1) % 2 ^ 32;
    last_docid = docid;
  })
]

-- `append_block`, and what its caller does after it. `unset` is what the stack holds where the
-- encoder reads an exception width that was not set.
unfoldable pub append_block : ℕ → PostingListBuilder → PostingListBuilder
append_block unset b = record b {
  encoded = b.encoded ++ encode_pfor_single_block true b.pending_deltas unset;
  pending_deltas = [];
  num_docids = (b.num_docids + 128) % 2 ^ 32;
}

unfoldable pub add_docid : ℕ → PostingListBuilder → ℕ → PostingListBuilder
unfolding append_block
add_docid unset b docid =
    let delta = (docid + 2 ^ 33 - b.last_docid - 1) % 2 ^ 32 in
    let pending = b.pending_deltas ++ (delta ∷ []) in
    let added = record b { pending_deltas = pending; last_docid = docid } in
    if docid == b.last_docid
    then b
    else if length pending == 128
    then append_block unset added
    else added

unfoldable pub finish : ℕ → PostingListBuilder → PostingListBuilder
finish unset b = if is_empty b.pending_deltas then b else record b {
  encoded = b.encoded ++ encode_pfor_single_block false b.pending_deltas unset;
  pending_deltas = [];
  num_docids = (b.num_docids + length b.pending_deltas) % 2 ^ 32;
}

unfoldable pub add_docids : ℕ → PostingListBuilder → List ℕ → PostingListBuilder
unfolding add_docid
add_docids unset b [] = b
add_docids unset b (docid ∷ docids) = add_docids unset (add_docid unset b docid) docids

-- The calls that a list gets: the first docid, the docids behind it, and the end.
unfoldable pub build : ℕ → ℕ → List ℕ → Option PostingListBuilder
unfolding add_first_docid add_docids finish
build unset first docids = elim (add_first_docid new_list first) [
  | none ↦ none
  | some b ↦ some (finish unset (add_docids unset b docids))
]

-- `*(out - 1)` after values were written.
unfoldable pub last_of : ℕ → List ℕ → ℕ
last_of prev_val [] = prev_val
last_of prev_val (val ∷ vals) = last_of val vals

-- The loop over the blocks; `left` is `num - i`. A round for each value is more than enough.
unfoldable pub decode_blocks : ℕ → Bool → ℕ → ℕ → Reader (List ℕ)
unfolding decode_block last_of
decode_blocks zero interleaved left prev_val = pure []
decode_blocks (suc rounds) interleaved left prev_val =
    let num_this_block = min left 128 in
    let rest =
      decode_block (interleaved && (num_this_block == 128)) num_this_block prev_val >>= λ vals.
      decode_blocks rounds interleaved (left - 128) (last_of prev_val vals) >>= λ more.
      pure (vals ++ more) in
    if left == 0 then pure [] else rest

unfoldable pub decode_pfor_delta1 : ℕ → Bool → Reader (List ℕ)
unfolding decode_blocks read_baseval
decode_pfor_delta1 num interleaved =
    let rest = read_baseval >>= λ first.
    decode_blocks num interleaved (num - 1) first >>= λ vals. pure (first ∷ vals) in
    if num == 0 then pure [] else rest
