-- ===== src/Gzip/Errors.antt =====
-- Which errors of `inflate` say what.
use qcremote.Prelude.{
  ◌==◌, length, get_or, drop, ℕ, ◌<◌, bit_and, ◌≡◌, ◌≢◌, ◌↔◌, true, false, Option, none, some, List,
  arith,
}
use qcremote.Gzip.{
  failed, header_malformed, TinflStatus, done, has_more_output, needs_more_input, other, TinflRun,
  Tinfl, has_magic, header_end, check_trailer, after_tinfl, inflate_body, inflate,
}

abbrev pub Reserved : List ℕ → Type 0
Reserved gz =
    (has_magic gz ≡ true) × (3 < length gz) × ((bit_and (get_or gz 3 0) 0xE0 == 0) ≡ false)

trailer_not_malformed :
    (dt : List ℕ) (consumed : ℕ) (out : List ℕ)
    → check_trailer dt consumed out ≢ failed header_malformed
unfolding check_trailer
trailer_not_malformed dt consumed out e = ground arith

tinfl_not_malformed : (dt : List ℕ) (run : TinflRun) → after_tinfl dt run ≢ failed header_malformed
tinfl_not_malformed dt run e = by_status run.status e
  where
    by_status :
        (s : TinflStatus) → after_tinfl dt (record run { status = s }) ≢ failed header_malformed
    by_status done e = trailer_not_malformed dt run.consumed run.output (unfold after_tinfl in e)
    by_status has_more_output e = unfold after_tinfl in ground arith
    by_status needs_more_input e = unfold after_tinfl in ground arith
    by_status other e = unfold after_tinfl in ground arith

body_not_malformed :
    (tinfl : Tinfl) (gz : List ℕ) (cap : ℕ) (end : Option ℕ)
    → inflate_body tinfl gz cap end ≢ failed header_malformed
unfolding inflate_body
body_not_malformed tinfl gz cap none e = ground arith
body_not_malformed tinfl gz cap (some o) e =
    tinfl_not_malformed (drop o gz) (tinfl.decompress (drop o gz) cap) e

-- inflate answers HeaderMalformed exactly where the input has the magic and a reserved flag bit is set.
-- An optional field that runs past the input is not answered so.
pub header_malformed_lem :
    (tinfl : Tinfl) (gz : List ℕ) (cap : ℕ)
    → (inflate tinfl gz cap ≡ failed header_malformed) ↔ Reserved gz
unfolding inflate
header_malformed_lem tinfl gz cap = (
  λ e. ground (arith, body_not_malformed tinfl gz cap (header_end gz (get_or gz 3 0))),
  λ r. ground arith,
)
