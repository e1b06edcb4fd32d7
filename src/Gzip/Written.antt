-- ===== src/Gzip/Written.antt =====
-- A gzip member without optional parts, written and inflated.
use qcremote.Prelude.{
  le→ltb, ==_self, length, drop, length-append, drop-append, ℕ, ◌+◌, ◌-◌, ◌*◌, ◌/◌, ◌%◌, ◌^◌, ◌<◌,
  bit_or, ◌≡◌, refl, sym, ap, ◌∙◌, some, List, [], ◌∷◌, ◌++◌, append_assoc, arith,
}
use qcremote.Prelude.Words.{or_above}
use qcremote.Gzip.{
  inflated, done, Tinfl, has_magic, crc32, read_le32, header_end, check_trailer, after_tinfl,
  inflate_body, inflate, peek_decompressed_size,
}

abbrev pub write_le32 : ℕ → List ℕ
write_le32 v = v % 256 ∷ v / 2 ^ 8 % 256 ∷ v / 2 ^ 16 % 256 ∷ v / 2 ^ 24 % 256 ∷ []

-- The magic, no flag, six bytes of time, extra flags and system, the deflate stream and the trailer.
abbrev pub gzip_trailer : List ℕ → List ℕ
gzip_trailer bytes = write_le32 (crc32 bytes) ++ write_le32 (length bytes % 2 ^ 32)

abbrev pub gzip_header : List ℕ → List ℕ
gzip_header info = 0x1F ∷ 0x8B ∷ 0x08 ∷ 0 ∷ info

abbrev pub gzip_member : List ℕ → List ℕ → List ℕ → List ℕ
gzip_member info deflate bytes = gzip_header info ++ (deflate ++ gzip_trailer bytes)

le32_value :
    (v : ℕ)
    → v < 2 ^ 32
    → bit_or
        (bit_or (bit_or (v % 256) (v / 2 ^ 8 % 256 * 2 ^ 8)) (v / 2 ^ 16 % 256 * 2 ^ 16))
        (v / 2 ^ 24 % 256 * 2 ^ 24)
      ≡ v
le32_value v h =
    rw
      (
        or_above 8 (v % 256) (v / 2 ^ 8 % 256) (omega arith),
        or_above 16 (v % 256 + v / 2 ^ 8 % 256 * 2 ^ 8) (v / 2 ^ 16 % 256) (omega arith),
        or_above 24 (v % 256 + v / 2 ^ 8 % 256 * 2 ^ 8 + v / 2 ^ 16 % 256 * 2 ^ 16)
            (v / 2 ^ 24 % 256) (omega arith),
      )
      (omega arith)

crc32-lt : (bytes : List ℕ) → crc32 bytes < 2 ^ 32
unfolding crc32
crc32-lt bytes = omega arith

trailer_crc : (bytes : List ℕ) → read_le32 (gzip_trailer bytes) 0 ≡ crc32 bytes
unfolding read_le32
trailer_crc bytes = le32_value (crc32 bytes) (crc32-lt bytes)

trailer_size : (bytes : List ℕ) → read_le32 (gzip_trailer bytes) 4 ≡ length bytes % 2 ^ 32
unfolding read_le32
trailer_size bytes = le32_value (length bytes % 2 ^ 32) (omega arith)

module _ (info deflate bytes : List ℕ) where
  abbrev gz : List ℕ
  gz = gzip_member info deflate bytes

  length-gz : length gz ≡ length info + length deflate + 12
  length-gz = omega (
    arith,
    length-append info (deflate ++ gzip_trailer bytes),
    length-append deflate (gzip_trailer bytes),
  )

  header_end-plain : length info ≡ 6 → header_end gz 0 ≡ some 10
  unfolding header_end
  header_end-plain six = rw (length-gz) (ground arith)

  peek-gz : length info ≡ 6 → peek_decompressed_size gz ≡ some (length bytes % 2 ^ 32)
  unfolding peek_decompressed_size
  peek-gz six =
      let front : length (gzip_header info ++ deflate) ≡ length gz - 8 =
        omega (arith, length-append info deflate, length-gz) in
      let parts : gz ≡ (gzip_header info ++ deflate) ++ gzip_trailer bytes =
        sym (append_assoc (gzip_header info) deflate (gzip_trailer bytes)) in
      let last : drop (length gz - 8) gz ≡ gzip_trailer bytes =
        ap (drop (length gz - 8)) parts
        ∙ drop-append (length gz - 8) (gzip_header info ++ deflate) (gzip_trailer bytes)
            (sym front) in
      rw (le→ltb (length gz) 8 (omega (arith, length-gz)), last, trailer_size bytes) refl

  check_trailer-gz :
      check_trailer (deflate ++ gzip_trailer bytes) (length deflate) bytes ≡ inflated bytes
  unfolding check_trailer
  check_trailer-gz =
      let left : length (deflate ++ gzip_trailer bytes) - length deflate ≡ 8 =
        omega (arith, length-append deflate (gzip_trailer bytes)) in
      rw
        (
          left,
          drop-append (length deflate) deflate (gzip_trailer bytes) refl,
          trailer_size bytes,
          trailer_crc bytes,
          ==_self (length bytes % 2 ^ 32),
          ==_self (crc32 bytes),
        )
        refl

-- A gzip member without optional parts is inflated to the bytes that it holds, if tinfl decodes its
-- deflate stream to them, stops where the trailer starts, and the bytes fit the output; and its
-- advertised size is their length modulo 2^32.
pub inflate-gzip_member :
    (tinfl : Tinfl) (info deflate bytes : List ℕ) (cap : ℕ)
    → length info ≡ 6
    → tinfl.decompress (deflate ++ gzip_trailer bytes) cap
      ≡ record { status = done; consumed = length deflate; output = bytes }
    → (inflate tinfl (gzip_member info deflate bytes) cap ≡ inflated bytes)
      × (peek_decompressed_size (gzip_member info deflate bytes) ≡ some (length bytes % 2 ^ 32))
unfolding inflate has_magic
inflate-gzip_member tinfl info deflate bytes cap six run =
    let gz : List ℕ = gzip_member info deflate bytes in
    let body : drop 10 gz ≡ deflate ++ gzip_trailer bytes =
      drop-append 10 (gzip_header info) (deflate ++ gzip_trailer bytes) (omega arith) in
    (
      rw (length-gz info deflate bytes, header_end-plain info deflate bytes six)
          (unfold inflate_body after_tinfl in
            rw (body, run) (rw (check_trailer-gz info deflate bytes) (ground arith))),
      peek-gz info deflate bytes six,
    )
