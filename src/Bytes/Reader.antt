-- ===== src/Bytes/Reader.antt =====
-- Readers that move a `const char *&p` (src/metadata_codec.cpp: get_u8 ... get_u64). The source
-- reads without a test of its own and its callers test the size first, so a read past the end of
-- the buffer, which is undefined behaviour there, is a result of the model: `overrun`.
use flocate.Prelude.{
  ℕ, ◌^◌, ◌<◌, ◌≡◌, ap, [], ◌∷◌, ◌++◌, arith, Bytes, length, take, drop, ltb, if◌then◌else◌,
  take-append_length, drop-append_length, length-append,
}
use flocate.Bytes.Words.{or_bytes, little_endian, length-little_endian, or_bytes-little_endian_zero}

-- `refused` is a `return false` of the source, which leaves `*ptr` unspecified.
pub data Parsed {ℓ} (A : Type ℓ) : Type ℓ where
  done : A → Bytes → Parsed A
  refused : Parsed A
  overrun : Parsed A

abbrev pub Reader {ℓ} : Type ℓ → Type ℓ
Reader A = Bytes → Parsed A

unfoldable pub pure {ℓ} : {A : Type ℓ} → A → Reader A
pure a p = done a p

abbrev pub continue {ℓ κ} : {A : Type ℓ} {B : Type κ} → Parsed A → (A → Reader B) → Parsed B
continue (done a q) f = f a q
continue refused f = refused
continue overrun f = overrun

infixl 5 ◌>>=◌
unfoldable pub ◌>>=◌ {ℓ κ} : {A : Type ℓ} {B : Type κ} → Reader A → (A → Reader B) → Reader B
◌>>=◌ m f p = continue (m p) f

unfoldable pub get_u8 : Reader ℕ
get_u8 [] = overrun
get_u8 (b ∷ p) = done b p

-- `p[0]` to `p[n - 1]`, and then `p += n`
unfoldable pub get_word : ℕ → Reader ℕ
unfolding or_bytes
get_word n p = if ltb (length p) n then overrun else done (or_bytes (take n p) 0 0) (drop n p)

unfoldable pub get_u32 : Reader ℕ
unfolding get_word
get_u32 = get_word 4

unfoldable pub get_u64 : Reader ℕ
unfolding get_word
get_u64 = get_word 8

-- `n` bytes from `p` on, and then `p += n`
unfoldable pub get_bytes : ℕ → Reader Bytes
get_bytes n p = if ltb (length p) n then overrun else done (take n p) (drop n p)

pub bind-done {ℓ κ} :
    {A : Type ℓ} {B : Type κ} (m : Reader A) (f : A → Reader B) {p q : Bytes} {a : A}
    → m p ≡ done a q
    → (m >>= f) p ≡ f a q
unfolding ◌>>=◌
bind-done m f e = ap (λ r. continue r f) e

pub get_word-little_endian :
    (n v : ℕ) (rest : Bytes) → v < 256 ^ n → get_word n (little_endian n v ++ rest) ≡ done v rest
unfolding get_word
get_word-little_endian n v rest h = ground (
  arith,
  length-append (little_endian n v) rest,
  length-little_endian n v,
  take-append_length n (little_endian n v) rest (length-little_endian n v),
  drop-append_length n (little_endian n v) rest (length-little_endian n v),
  or_bytes-little_endian_zero n v h,
)

pub get_u32-little_endian :
    (v : ℕ) (rest : Bytes) → v < 2 ^ 32 → get_u32 (little_endian 4 v ++ rest) ≡ done v rest
unfolding get_u32
get_u32-little_endian v rest h = get_word-little_endian 4 v rest h

pub get_u64-little_endian :
    (v : ℕ) (rest : Bytes) → v < 2 ^ 64 → get_u64 (little_endian 8 v ++ rest) ≡ done v rest
unfolding get_u64
get_u64-little_endian v rest h = get_word-little_endian 8 v rest h

pub get_bytes-append :
    (n : ℕ) (xs rest : Bytes) → length xs ≡ n → get_bytes n (xs ++ rest) ≡ done xs rest
unfolding get_bytes
get_bytes-append n xs rest h =
    ground
      (arith, length-append xs rest, take-append_length n xs rest h, drop-append_length n xs rest h)
