-- ===== src/Gzip.antt =====
-- QcGzip.hpp: one gzip member, inflated with its trailer checked. tinfl is a parameter.
pub mod Member
pub mod Inflate
pub mod Written
pub mod Errors
mod Tests
use qcremote.Prelude.{
  ltb, leb, ◌==◌, if◌then◌else◌, ◌>>=◌, length, get_or, take, drop, ℕ, zero, suc, ◌+◌, ◌-◌, ◌*◌,
  ◌/◌, ◌%◌, ◌^◌, ◌≤◌, bit_and, bit_or, bit_xor, Bool, not, ◌&&◌, ◌||◌, Option, none, some, List, [],
  ◌∷◌,
}

abbrev pub max_compressed_input_size : ℕ
max_compressed_input_size = 8192

abbrev pub max_inflated_size : ℕ
max_inflated_size = 32768

pub data InflateError : Type 0 where
  not_gzipped header_malformed truncated output_too_large decompress_failed crc_mismatch :
      InflateError

-- `std::expected<std::span<const uint8_t>, InflateError>`
pub data InflateResult : Type 0 where
  inflated : List ℕ → InflateResult
  failed : InflateError → InflateResult

pub data TinflStatus : Type 0 where
  done has_more_output needs_more_input other : TinflStatus

-- What a call of tinfl_decompress leaves: its status, `*pIn_buf_size` and the bytes that it wrote.
pub record TinflRun : Type 0 where
  pub status : TinflStatus
  pub consumed : ℕ
  pub output : List ℕ

-- tinfl_decompress with TINFL_FLAG_USING_NON_WRAPPING_OUTPUT_BUF on a fresh decompressor: the input
-- and the size of the output buffer. It reads no more than there is and writes no more than fits.
pub record Tinfl : Type 0 where
  pub decompress : List ℕ → ℕ → TinflRun
  pub consumed_bounded : (input : List ℕ) (cap : ℕ) → (decompress input cap).consumed ≤ length input
  pub output_bounded : (input : List ℕ) (cap : ℕ) → length (decompress input cap).output ≤ cap

unfoldable pub has_magic : List ℕ → Bool
has_magic bytes =
    leb 3 (length bytes)
    && get_or bytes 0 0 == 0x1F
    && get_or bytes 1 0 == 0x8B
    && get_or bytes 2 0 == 0x08

-- The inner loop of `crc32`, over the bits.
unfoldable pub crc32_bits : ℕ → ℕ → ℕ
crc32_bits zero crc = crc
crc32_bits (suc bits) crc =
    let mask = if bit_and crc 1 == 0 then 0 else 0xEDB88320 in
    crc32_bits bits (bit_xor (crc / 2) mask)

unfoldable pub crc32_loop : ℕ → List ℕ → ℕ
unfolding crc32_bits
crc32_loop crc [] = crc
crc32_loop crc (byte ∷ bytes) = crc32_loop (crc32_bits 8 (bit_xor crc byte)) bytes

-- `~crc` on 32 bits.
unfoldable pub crc32 : List ℕ → ℕ
unfolding crc32_loop
crc32 bytes = 2 ^ 32 - 1 - crc32_loop 0xFFFFFFFF bytes

-- The four bytes from `i` on.
unfoldable pub read_le32 : List ℕ → ℕ → ℕ
read_le32 bytes i =
    bit_or
      (bit_or (bit_or (get_or bytes i 0) (get_or bytes (i + 1) 0 * 2 ^ 8))
        (get_or bytes (i + 2) 0 * 2 ^ 16))
      (get_or bytes (i + 3) 0 * 2 ^ 24)

-- `while (true)` over an optional text: the offset behind the zero byte that ends it. `rest` are the
-- bytes from `offset` on; `none` is `Truncated`.
unfoldable pub skip_text : List ℕ → ℕ → Option ℕ
skip_text [] offset = none
skip_text (byte ∷ rest) offset =
    let more = skip_text rest (offset + 1) in if byte == 0 then some (offset + 1) else more

unfoldable pub skip_extra : List ℕ → ℕ → Option ℕ
skip_extra gzipped offset =
    let extra_len =
      bit_or (get_or gzipped offset 0) (get_or gzipped (offset + 1) 0 * 2 ^ 8) % 2 ^ 16 in
    if ltb (length gzipped) (offset + 2)
    then none
    else if ltb (length gzipped) (offset + (2 + extra_len))
    then none
    else some (offset + (2 + extra_len))

unfoldable pub skip_header_crc : List ℕ → ℕ → Option ℕ
skip_header_crc gzipped offset =
    if ltb (length gzipped) (offset + 2) then none else some (offset + 2)

-- A part of the header that is there if its flag is set.
abbrev pub optional_part : Bool → (ℕ → Option ℕ) → ℕ → Option ℕ
optional_part present skip offset = if present then skip offset else some offset

abbrev pub has_flag : ℕ → ℕ → Bool
has_flag flags flag = not (bit_and flags flag == 0)

-- The offset of the deflate stream.
unfoldable pub header_end : List ℕ → ℕ → Option ℕ
header_end gzipped flags = do
  extra_end ← optional_part (has_flag flags 0x04) (skip_extra gzipped) 10
  name_end ← optional_part (has_flag flags 0x08) (λ o. skip_text (drop o gzipped) o) extra_end
  comment_end ← optional_part (has_flag flags 0x10) (λ o. skip_text (drop o gzipped) o) name_end
  crc_end ← optional_part (has_flag flags 0x02) (skip_header_crc gzipped) comment_end
  if ltb (length gzipped) (crc_end + 8) then none else some crc_end

-- From the trailer's check on.
unfoldable pub check_trailer : List ℕ → ℕ → List ℕ → InflateResult
check_trailer deflate_and_trailer consumed decompressed =
    let trailer = take 8 (drop consumed deflate_and_trailer) in
    if not (length deflate_and_trailer - consumed == 8)
    then failed truncated
    else if not (read_le32 trailer 4 == length decompressed % 2 ^ 32)
        || not (read_le32 trailer 0 == crc32 decompressed)
    then failed crc_mismatch
    else inflated decompressed

unfoldable pub after_tinfl : List ℕ → TinflRun → InflateResult
after_tinfl deflate_and_trailer run = elim run.status [
  | done ↦ check_trailer deflate_and_trailer run.consumed run.output
  | has_more_output ↦ failed output_too_large
  | needs_more_input ↦ failed truncated
  | other ↦ failed decompress_failed
]

module _ (tinfl : Tinfl) where
  unfoldable pub inflate_body : List ℕ → ℕ → Option ℕ → InflateResult
  inflate_body gzipped capacity none = failed truncated
  inflate_body gzipped capacity (some offset) =
      after_tinfl (drop offset gzipped) (tinfl.decompress (drop offset gzipped) capacity)

  unfoldable pub inflate : List ℕ → ℕ → InflateResult
  inflate gzipped capacity =
      if not (has_magic gzipped)
      then failed not_gzipped
      else if leb (length gzipped) 3
      then failed truncated
      else if not (bit_and (get_or gzipped 3 0) 0xE0 == 0)
      then failed header_malformed
      else if ltb (length gzipped) (10 + 8)
      then failed truncated
      else inflate_body gzipped capacity (header_end gzipped (get_or gzipped 3 0))

unfoldable pub peek_decompressed_size : List ℕ → Option ℕ
peek_decompressed_size gzipped =
    if ltb (length gzipped) 8 then none else some (read_le32 (drop (length gzipped - 8) gzipped) 4)
