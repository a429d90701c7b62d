-- ===== src/PostingList/Examples.antt =====
-- Concrete posting lists.
use flocate.Prelude.{
  ℕ, ◌≡◌, refl, List, [], ◌∷◌, ◌++◌, Bytes, some, All, IsByte, arith, true, false, replicate,
}
use flocate.Bytes.Reader.{done, overrun, ◌>>=◌}
use flocate.Bytes.Words.{little_endian}
use flocate.Pfor.Bits.{write, write_all, encode_bitmap, div_round_up}
use flocate.Pfor.Blocks.{encode_base, exceptions}
use flocate.Pfor.Bitmap.{flags}
use flocate.Pfor.Choice.{encode_pfor_single_block, decode_block}
use flocate.PostingList.{PostingListBuilder, build, decode_pfor_delta1}
use flocate.PostingList.Building.{distinct, IsAscending}
use flocate.PostingList.RoundTrip.{build-decodes}
use flocate.PostingList.Index.{Slots, no_lists, flush_blocks}
use flocate.PostingList.Index.Occurrences.{blocks_with}
use flocate.PostingList.Index.Complete.{Answers, flush_blocks-Answers}

-- Two lists: one of a few docids, one of more than a block.
abbrev docids : List ℕ
docids = 7 ∷ 9 ∷ 9 ∷ 1000 ∷ 1000 ∷ 70000 ∷ []

abbrev slop : Bytes
slop = replicate 16 255

slop-bytes : All IsByte slop
slop-bytes = search arith

docids-IsAscending : IsAscending 7 docids
docids-IsAscending = omega arith

few_docids :
    build 0 7 docids
    ≡ some (record {
      encoded = 7 ∷ 17 ∷ 1 ∷ 0 ∷ 188 ∷ 7 ∷ 28 ∷ 54 ∷ 4 ∷ [];
      pending_deltas = [];
      num_docids = 4;
      last_docid = 70000;
    })
unfolding build encode_pfor_single_block encode_base encode_bitmap write_all write little_endian
few_docids = refl

build-decodes_example :
    (b : PostingListBuilder) × (build 0 7 docids ≡ some b)
    × (decode_pfor_delta1 b.num_docids true (b.encoded ++ slop) ≡ done (7 ∷ distinct 7 docids) slop)
build-decodes_example =
    build-decodes 0 7 docids slop (omega arith) docids-IsAscending slop-bytes (omega arith)

-- A block of four bytes whose bitmap is read as eight.
small_bitmap : encode_pfor_single_block false (replicate 7 0 ++ (8 ∷ [])) 0 ≡ 128 ∷ 4 ∷ 128 ∷ 8 ∷ []
unfolding encode_pfor_single_block flags write_all write little_endian exceptions encode_base
    encode_bitmap
small_bitmap = refl

small_bitmap_read : decode_block false 8 0 ((128 ∷ 4 ∷ 128 ∷ 8 ∷ []) ++ replicate 5 0) ≡ overrun
unfolding decode_block ◌>>=◌ div_round_up
small_bitmap_read = refl

-- Three blocks; the first trigram stands twice in one of them.
abbrev three_blocks : List (List ℕ)
three_blocks = (5 ∷ 6 ∷ 5 ∷ []) ∷ (6 ∷ []) ∷ (5 ∷ []) ∷ []

five_in : blocks_with 5 0 three_blocks ≡ 0 ∷ 2 ∷ []
unfolding blocks_with
five_in = refl

flush_blocks-Answers_example :
    (slots : Slots) × (flush_blocks 0 no_lists three_blocks 0 ≡ some slots)
    × ((trgm : ℕ) → Answers 0 slop (blocks_with trgm 0 three_blocks) (slots trgm))
flush_blocks-Answers_example =
    flush_blocks-Answers 0 three_blocks slop (omega arith) slop-bytes (omega arith)
