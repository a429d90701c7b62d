-- ===== src/Pfor/Interleaved/Columns.antt =====
-- The four streams of a whole block, each of every fourth value.
use flocate.Prelude.{ℕ, zero, suc, ◌*◌, ◌≤◌, ◌≡◌, refl, ap, List, [], ◌∷◌, some, length, All, arith}
use flocate.Pfor.Packing.{FitsIn}
use flocate.Pfor.Interleaved.{
  InterleavedBitWriter, write_stream, Four, write_rows, InterleavedBitReader, read_rows,
}
use flocate.Pfor.Interleaved.Writing.{write_streams}
use flocate.Pfor.Interleaved.Reading.{Holds, after_read, read-Holds}

-- Every fourth value.
unfoldable pub column : (ℕ → ℕ → ℕ → ℕ → ℕ) → List ℕ → List ℕ
column pick [] = []
column pick (a ∷ []) = []
column pick (a ∷ b ∷ []) = []
column pick (a ∷ b ∷ c ∷ []) = []
column pick (a ∷ b ∷ c ∷ d ∷ vals) = pick a b c d ∷ column pick vals

abbrev pub first : ℕ → ℕ → ℕ → ℕ → ℕ
first a b c d = a

abbrev pub second : ℕ → ℕ → ℕ → ℕ → ℕ
second a b c d = b

abbrev pub third : ℕ → ℕ → ℕ → ℕ → ℕ
third a b c d = c

abbrev pub fourth : ℕ → ℕ → ℕ → ℕ → ℕ
fourth a b c d = d

pub length-column :
    (pick : ℕ → ℕ → ℕ → ℕ → ℕ) (n : ℕ) (vals : List ℕ)
    → length vals ≡ 4 * n
    → length (column pick vals) ≡ n
unfolding column
length-column pick n [] h = omega arith
length-column pick n (a ∷ []) h = absurd (omega arith)
length-column pick n (a ∷ b ∷ []) h = absurd (omega arith)
length-column pick n (a ∷ b ∷ c ∷ []) h = absurd (omega arith)
length-column pick zero (a ∷ b ∷ c ∷ d ∷ vals) h = absurd (omega arith)
length-column pick (suc n) (a ∷ b ∷ c ∷ d ∷ vals) h =
    ap suc (length-column pick n vals (omega arith))

abbrev pub Picks : (ℕ → ℕ → ℕ → ℕ → ℕ) → Type 1
Picks pick = (P : ℕ → Type 0) (a b c d : ℕ) → P a → P b → P c → P d → P (pick a b c d)

pub column-FitsIn :
    (pick : ℕ → ℕ → ℕ → ℕ → ℕ) (picks : Picks pick) (bits : ℕ) (vals : List ℕ)
    → All (FitsIn bits) vals
    → All (FitsIn bits) (column pick vals)
unfolding column
column-FitsIn pick picks bits [] h = tt
column-FitsIn pick picks bits (a ∷ []) h = tt
column-FitsIn pick picks bits (a ∷ b ∷ []) h = tt
column-FitsIn pick picks bits (a ∷ b ∷ c ∷ []) h = tt
column-FitsIn pick picks bits (a ∷ b ∷ c ∷ d ∷ vals) (ha, (hb, (hc, (hd, h)))) =
    (picks (FitsIn bits) a b c d ha hb hc hd, column-FitsIn pick picks bits vals h)

-- Each stream is written by itself.
pub rows-streams :
    (bits : ℕ) (bs : Four InterleavedBitWriter) (vals : List ℕ)
    → write_rows bits bs vals ≡ record {
      s0 = write_streams bits bs.s0 (column first vals);
      s1 = write_streams bits bs.s1 (column second vals);
      s2 = write_streams bits bs.s2 (column third vals);
      s3 = write_streams bits bs.s3 (column fourth vals);
    }
unfolding write_rows write_streams column
rows-streams bits bs [] = refl
rows-streams bits bs (a ∷ []) = refl
rows-streams bits bs (a ∷ b ∷ []) = refl
rows-streams bits bs (a ∷ b ∷ c ∷ []) = refl
rows-streams bits bs (a ∷ b ∷ c ∷ d ∷ vals) =
    rows-streams bits
      (record {
        s0 = write_stream bits bs.s0 a;
        s1 = write_stream bits bs.s1 b;
        s2 = write_stream bits bs.s2 c;
        s3 = write_stream bits bs.s3 d;
      })
      vals

-- What the four readers read is what each of them reads.
pub read_rows-Holds :
    (bits n : ℕ) (bs : Four InterleavedBitReader) (vals : List ℕ)
    → bits ≤ 32
    → length vals ≡ 4 * n
    → All (FitsIn bits) vals
    → Holds bits bs.s0 (column first vals)
    → Holds bits bs.s1 (column second vals)
    → Holds bits bs.s2 (column third vals)
    → Holds bits bs.s3 (column fourth vals)
    → read_rows bits n bs ≡ some vals
unfolding read_rows column
read_rows-Holds bits zero bs [] few l f h0 h1 h2 h3 = refl
read_rows-Holds bits zero bs (a ∷ vals) few l f h0 h1 h2 h3 = absurd (omega arith)
read_rows-Holds bits (suc n) bs [] few l f h0 h1 h2 h3 = absurd (omega arith)
read_rows-Holds bits (suc n) bs (a ∷ []) few l f h0 h1 h2 h3 = absurd (omega arith)
read_rows-Holds bits (suc n) bs (a ∷ b ∷ []) few l f h0 h1 h2 h3 = absurd (omega arith)
read_rows-Holds bits (suc n) bs (a ∷ b ∷ c ∷ []) few l f h0 h1 h2 h3 = absurd (omega arith)
read_rows-Holds bits (suc n) bs (a ∷ b ∷ c ∷ d ∷ vals) few l (fa, (fb, (fc, (fd, f)))) h0 h1 h2 h3 =
    let r0 = read-Holds bits a (column first vals) bs.s0 few fa h0 in
    let r1 = read-Holds bits b (column second vals) bs.s1 few fb h1 in
    let r2 = read-Holds bits c (column third vals) bs.s2 few fc h2 in
    let r3 = read-Holds bits d (column fourth vals) bs.s3 few fd h3 in
    rw
      (
        r0.0,
        r1.0,
        r2.0,
        r3.0,
        read_rows-Holds bits n
            (record {
              s0 = after_read bits bs.s0;
              s1 = after_read bits bs.s1;
              s2 = after_read bits bs.s2;
              s3 = after_read bits bs.s3;
            })
            vals few (omega arith) f r0.1 r1.1 r2.1 r3.1,
      )
      refl
