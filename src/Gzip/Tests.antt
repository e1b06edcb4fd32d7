-- ===== src/Gzip/Tests.antt =====
-- Runs of the checksum, and the theorems at a member with one stored block.
use qcremote.Prelude.{
  leb, if◌then◌else◌, length, take, length-take, ℕ, ◌+◌, ◌*◌, ◌≤◌, ◌≡◌, refl, ◌↔◌, ◌&&◌, some, List,
  [], ◌∷◌, arith,
}
use qcremote.Prelude.Text.{codes}
use qcremote.Gzip.{
  inflated, failed, header_malformed, TinflRun, Tinfl, done, needs_more_input, crc32, inflate,
  peek_decompressed_size,
}
use qcremote.Gzip.Errors.{Reserved, header_malformed_lem}
use qcremote.Gzip.Inflate.{Member, inflate-Member}
use qcremote.Gzip.Written.{gzip_member, inflate-gzip_member}

-- The published check value of CRC-32.
crc32_check : crc32 (codes "123456789") ≡ 0xCBF43926
unfolding crc32
crc32_check = refl

-- A decoder of one stored block: a byte 1, the length and its complement, and the bytes.
abbrev stored_run : ℕ → List ℕ → ℕ → TinflRun
stored_run len rest cap =
    if leb len (length rest) && leb len cap
    then record { status = done; consumed = 5 + len; output = take len rest }
    else record { status = needs_more_input; consumed = 0; output = [] }

abbrev stored_block : List ℕ → ℕ → TinflRun
stored_block (a ∷ lo ∷ hi ∷ nlo ∷ nhi ∷ rest) cap = stored_run (lo + hi * 256) rest cap
stored_block _ cap = record { status = needs_more_input; consumed = 0; output = [] }

stored_run_bounds :
    (len : ℕ) (rest : List ℕ) (cap : ℕ)
    → ((stored_run len rest cap).consumed ≤ 5 + length rest)
      × (length (stored_run len rest cap).output ≤ cap)
stored_run_bounds len rest cap = ground (arith, length-take len rest)

stored_consumed : (input : List ℕ) (cap : ℕ) → (stored_block input cap).consumed ≤ length input
stored_consumed (a ∷ lo ∷ hi ∷ nlo ∷ nhi ∷ rest) cap =
    omega (arith, (stored_run_bounds (lo + hi * 256) rest cap).0)
stored_consumed [] cap = omega arith
stored_consumed (a ∷ []) cap = omega arith
stored_consumed (a ∷ b ∷ []) cap = omega arith
stored_consumed (a ∷ b ∷ c ∷ []) cap = omega arith
stored_consumed (a ∷ b ∷ c ∷ d ∷ []) cap = omega arith

stored_output : (input : List ℕ) (cap : ℕ) → length (stored_block input cap).output ≤ cap
stored_output (a ∷ lo ∷ hi ∷ nlo ∷ nhi ∷ rest) cap = (stored_run_bounds (lo + hi * 256) rest cap).1
stored_output [] cap = omega arith
stored_output (a ∷ []) cap = omega arith
stored_output (a ∷ b ∷ []) cap = omega arith
stored_output (a ∷ b ∷ c ∷ []) cap = omega arith
stored_output (a ∷ b ∷ c ∷ d ∷ []) cap = omega arith

abbrev stored : Tinfl
stored = record {
  decompress = stored_block;
  consumed_bounded = stored_consumed;
  output_bounded = stored_output;
}

abbrev no_info : List ℕ
no_info = 0 ∷ 0 ∷ 0 ∷ 0 ∷ 0 ∷ 3 ∷ []

abbrev block : List ℕ
block = 1 ∷ 2 ∷ 0 ∷ 253 ∷ 255 ∷ 65 ∷ 66 ∷ []

inflate-gzip_member_example :
    (inflate stored (gzip_member no_info block (codes "AB")) 10 ≡ inflated (codes "AB"))
    × (peek_decompressed_size (gzip_member no_info block (codes "AB")) ≡ some 2)
inflate-gzip_member_example = inflate-gzip_member stored no_info block (codes "AB") 10 refl refl

two_bytes : inflate stored (gzip_member no_info block (codes "AB")) 10 ≡ inflated (codes "AB")
two_bytes = (inflate-gzip_member stored no_info block (codes "AB") 10 refl refl).0

inflate-Member_example : Member stored (gzip_member no_info block (codes "AB")) 10 (codes "AB")
inflate-Member_example =
    inflate-Member stored (gzip_member no_info block (codes "AB")) 10 (codes "AB") two_bytes

header_malformed_lem_example :
    (inflate stored (31 ∷ 139 ∷ 8 ∷ 64 ∷ []) 10 ≡ failed header_malformed)
    ↔ Reserved (31 ∷ 139 ∷ 8 ∷ 64 ∷ [])
header_malformed_lem_example = header_malformed_lem stored (31 ∷ 139 ∷ 8 ∷ 64 ∷ []) 10
