-- ===== src/Gzip/Inflate.antt =====
-- inflate, against RFC 1952: what it accepts, and that a member that was written is read back.
use qcremote.Prelude.{
  Option-cases, length, get_or, take, drop, length-take, length-drop, take-append-drop, take-length,
  ℕ, ◌+◌, ◌-◌, ◌%◌, ◌^◌, ◌≤◌, bit_and, ◌≡◌, refl, sym, ap, ◌∙◌, inl, inr, true, some, List, ◌++◌,
  arith,
}
use qcremote.Gzip.{
  inflated, TinflStatus, done, has_more_output, needs_more_input, other, TinflRun, Tinfl, has_magic,
  crc32, read_le32, header_end, check_trailer, after_tinfl, inflate_body, inflate,
}
use qcremote.Gzip.Member.{header_end-bounds}

record Checked (dt : List ℕ) (consumed : ℕ) (out bytes : List ℕ) : Type 0 where
  eight_left : length dt - consumed ≡ 8
  size : read_le32 (take 8 (drop consumed dt)) 4 ≡ length bytes % 2 ^ 32
  crc : read_le32 (take 8 (drop consumed dt)) 0 ≡ crc32 bytes
  whole : out ≡ bytes

check_trailer-Checked :
    (dt : List ℕ) (consumed : ℕ) (out bytes : List ℕ)
    → check_trailer dt consumed out ≡ inflated bytes
    → Checked dt consumed out bytes
unfolding check_trailer
check_trailer-Checked dt consumed out bytes h = record {
  eight_left = ground arith;
  size = ground arith;
  crc = ground arith;
  whole = ground arith;
}

after_tinfl-Checked :
    (dt : List ℕ) (run : TinflRun) (bytes : List ℕ)
    → after_tinfl dt run ≡ inflated bytes
    → (run.status ≡ done) × (Checked dt run.consumed run.output bytes)
after_tinfl-Checked dt run bytes h = by_status run.status h
  where
    by_status :
        (s : TinflStatus)
        → after_tinfl dt (record run { status = s }) ≡ inflated bytes
        → (s ≡ done) × (Checked dt run.consumed run.output bytes)
    by_status done e =
        (refl, check_trailer-Checked dt run.consumed run.output bytes (unfold after_tinfl in e))
    by_status has_more_output e = absurd (unfold after_tinfl in ground arith)
    by_status needs_more_input e = absurd (unfold after_tinfl in ground arith)
    by_status other e = absurd (unfold after_tinfl in ground arith)

-- The parts of a gzip member that `bytes` were inflated from.
pub record Member (tinfl : Tinfl) (gz : List ℕ) (cap : ℕ) (bytes : List ℕ) : Type 0 where
  pub header : List ℕ
  pub deflate : List ℕ
  pub trailer : List ℕ
  pub parts : gz ≡ header ++ (deflate ++ trailer)
  pub magic : has_magic gz ≡ true
  pub no_reserved : bit_and (get_or gz 3 0) 0xE0 ≡ 0
  pub header_size : 10 ≤ length header
  pub trailer_size : length trailer ≡ 8
  pub run_done : (tinfl.decompress (deflate ++ trailer) cap).status ≡ done
  pub run_consumed : (tinfl.decompress (deflate ++ trailer) cap).consumed ≡ length deflate
  pub run_output : (tinfl.decompress (deflate ++ trailer) cap).output ≡ bytes
  pub crc : read_le32 trailer 0 ≡ crc32 bytes
  pub size : read_le32 trailer 4 ≡ length bytes % 2 ^ 32

module _ (tinfl : Tinfl) (gz : List ℕ) (cap : ℕ) (bytes : List ℕ) where
  body-Member :
      (end : ℕ)
      → has_magic gz ≡ true
      → bit_and (get_or gz 3 0) 0xE0 ≡ 0
      → 10 ≤ end
      → end + 8 ≤ length gz
      → inflate_body tinfl gz cap (some end) ≡ inflated bytes
      → Member tinfl gz cap bytes
  unfolding inflate_body
  body-Member end m r lo hi h =
      let dt : List ℕ = drop end gz in
      let run : TinflRun = tinfl.decompress dt cap in
      let (s, k) = after_tinfl-Checked dt run bytes h in
      let split : take run.consumed dt ++ drop run.consumed dt ≡ dt =
        take-append-drop run.consumed dt in
      let left : length (drop run.consumed dt) ≡ 8 =
        omega (arith, length-drop run.consumed dt, k.eight_left) in
      let all : take 8 (drop run.consumed dt) ≡ drop run.consumed dt =
        take-length 8 (drop run.consumed dt) (omega arith) in
      record {
        header = take end gz;
        deflate = take run.consumed dt;
        trailer = drop run.consumed dt;
        parts = rw split (sym (take-append-drop end gz));
        magic = m;
        no_reserved = r;
        header_size = omega (arith, length-take end gz);
        trailer_size = left;
        run_done = rw split s;
        run_consumed =
            rw split (omega (arith, length-take run.consumed dt, tinfl.consumed_bounded dt cap));
        run_output = rw split k.whole;
        crc = ap (λ t. read_le32 t 0) (sym all) ∙ k.crc;
        size = ap (λ t. read_le32 t 4) (sym all) ∙ k.size;
      }

-- What is inflated comes from a gzip member that is there as a whole: the input is a header of ten
-- bytes or more, with the magic and no reserved flag, a deflate stream that tinfl decodes to exactly
-- these bytes and consumes exactly, and eight bytes of trailer that hold their CRC-32 and their
-- length modulo 2^32; nothing stands behind it.
pub inflate-Member :
    (tinfl : Tinfl) (gz : List ℕ) (cap : ℕ) (bytes : List ℕ)
    → inflate tinfl gz cap ≡ inflated bytes
    → Member tinfl gz cap bytes
unfolding inflate
inflate-Member tinfl gz cap bytes h = elim (Option-cases (header_end gz (get_or gz 3 0))) [
  | inl e ↦ absurd (unfold inflate_body in ground arith)
  | inr (end, e) ↦
      let big : 18 ≤ length gz = ground arith in
      let (lo, hi) = header_end-bounds gz (get_or gz 3 0) end (omega arith) e in
      body-Member tinfl gz cap bytes end (ground arith) (ground arith) lo hi (ground arith)
]
