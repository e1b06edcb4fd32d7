-- ===== src/Gzip/Member.antt =====
-- What an inflated member was: a header, a deflate stream and its trailer, and no more.
use qcremote.Prelude.{
  >>=-eq-some, length, drop, length-drop, ℕ, ◌+◌, ◌≤◌, ◌≡◌, Bool, true, false, Option, some, List,
  [], ◌∷◌, arith,
}
use qcremote.Gzip.{skip_text, skip_extra, skip_header_crc, optional_part, has_flag, header_end}

-- A skip that succeeds goes forward and stays within the input.
abbrev Forward : List ℕ → (ℕ → Option ℕ) → Type 0
Forward gz skip = (o e : ℕ) → o ≤ length gz → skip o ≡ some e → (o ≤ e) × (e ≤ length gz)

skip_text-Forward :
    (rest : List ℕ) (o e : ℕ) → skip_text rest o ≡ some e → (o ≤ e) × (e ≤ o + length rest)
unfolding skip_text
skip_text-Forward [] o e h = cc
skip_text-Forward (b ∷ bs) o e h = ground (arith, skip_text-Forward bs (o + 1) e)

text-Forward : (gz : List ℕ) → Forward gz (λ o. skip_text (drop o gz) o)
text-Forward gz o e l h = omega (arith, skip_text-Forward (drop o gz) o e h, length-drop o gz)

extra-Forward : (gz : List ℕ) → Forward gz (skip_extra gz)
unfolding skip_extra
extra-Forward gz o e l h = ground arith

header_crc-Forward : (gz : List ℕ) → Forward gz (skip_header_crc gz)
unfolding skip_header_crc
header_crc-Forward gz o e l h = ground arith

optional-Forward :
    (gz : List ℕ) (present : Bool) (skip : ℕ → Option ℕ)
    → Forward gz skip
    → Forward gz (optional_part present skip)
optional-Forward gz true skip f o e l h = f o e l h
optional-Forward gz false skip f o e l h = ground arith

pub header_end-bounds :
    (gz : List ℕ) (flags e : ℕ)
    → 10 ≤ length gz
    → header_end gz flags ≡ some e
    → (10 ≤ e) × (e + 8 ≤ length gz)
unfolding header_end
header_end-bounds gz flags e l h =
    let text : ℕ → Option ℕ = λ o. skip_text (drop o gz) o in
    let (a, p, h1) = >>=-eq-some (optional_part (has_flag flags 0x04) (skip_extra gz) 10) _ h in
    let (b, q, h2) = >>=-eq-some (optional_part (has_flag flags 0x08) text a) _ h1 in
    let (c, r, h3) = >>=-eq-some (optional_part (has_flag flags 0x10) text b) _ h2 in
    let (d, s, h4) =
      >>=-eq-some (optional_part (has_flag flags 0x02) (skip_header_crc gz) c) _ h3 in
    let (a1, a2) = optional-Forward gz (has_flag flags 0x04) _ (extra-Forward gz) 10 a l p in
    let (b1, b2) = optional-Forward gz (has_flag flags 0x08) _ (text-Forward gz) a b a2 q in
    let (c1, c2) = optional-Forward gz (has_flag flags 0x10) _ (text-Forward gz) b c b2 r in
    let (d1, d2) = optional-Forward gz (has_flag flags 0x02) _ (header_crc-Forward gz) c d c2 s in
    ground arith
