-- ===== src/Json/Append.antt =====
-- The appends of QcCatalogJson.hpp where there is room: nothing is cut off.
use qcremote.Prelude.{
  ltb, leb, le→ltb, lt→leb, length, length-append, ℕ, zero, suc, ◌+◌, ◌*◌, ◌/◌, ◌≤◌, ◌<◌, ◌≡◌, refl,
  sym, ◌∙◌, false, ◌&&◌, List, [], ◌∷◌, ◌++◌, append-nil, append_assoc, arith,
}
use qcremote.Json.{
  digits, reverse_onto, escape, append_literal, append_json_escaped, append_char, append_quoted,
  append_uint,
}

abbrev pub escaped : List ℕ → List ℕ
escaped [] = []
escaped (c ∷ text) = escape c ++ escaped text

abbrev pub quoted : List ℕ → List ℕ
quoted text = 34 ∷ (escaped text ++ 34 ∷ [])

abbrev pub decimal : ℕ → List ℕ
decimal value = reverse_onto (digits 10 value) []

length-escape : (c : ℕ) → length (escape c) ≤ 2
unfolding escape
length-escape c = ground arith

length-escaped : (text : List ℕ) → length (escaped text) ≤ 2 * length text
length-escaped [] = omega arith
length-escaped (c ∷ text) =
    omega (arith, length-escape c, length-escaped text, length-append (escape c) (escaped text))

length-digits : (n v : ℕ) → length (digits n v) ≤ n
unfolding digits
length-digits zero v = omega arith
length-digits (suc n) v = ground (arith, length-digits n (v / 10))

length-reverse_onto : (ds out : List ℕ) → length (reverse_onto ds out) ≡ length ds + length out
unfolding reverse_onto
length-reverse_onto [] out = omega arith
length-reverse_onto (d ∷ ds) out = omega (arith, length-reverse_onto ds (d ∷ out))

pub length-decimal : (v : ℕ) → length (decimal v) ≤ 10
length-decimal v = omega (arith, length-digits 10 v, length-reverse_onto (digits 10 v) [])

pub length-quoted : (text : List ℕ) → length (quoted text) ≤ 2 * length text + 2
length-quoted text = omega (arith, length-escaped text, length-append (escaped text) (34 ∷ []))

module _ (cap : ℕ) where
  pub append_literal_lem :
      (out text : List ℕ)
      → length out + length text ≤ cap
      → append_literal cap out text ≡ out ++ text
  unfolding append_literal
  append_literal_lem out [] h = sym (append-nil out)
  append_literal_lem out (c ∷ text) h = rw (lt→leb cap (length out) (omega arith)) (
      append_literal_lem (out ++ c ∷ []) text (omega (arith, length-append out (c ∷ [])))
      ∙ append_assoc out (c ∷ []) text)

  escaped_lem :
      (out text : List ℕ)
      → length out + 2 * length text ≤ cap
      → append_json_escaped cap out text ≡ out ++ escaped text
  unfolding append_json_escaped
  escaped_lem out [] h = sym (append-nil out)
  escaped_lem out (c ∷ text) h =
      let fits : ltb cap (length out + 2) ≡ false = le→ltb cap (length out + 2) (omega arith) in
      let free : (leb 2 (length (escape c)) && ltb cap (length out + 2)) ≡ false = ground arith in
      rw (lt→leb cap (length out) (omega arith), free)
        (escaped_lem (out ++ escape c) text
            (omega (arith, length-append out (escape c), length-escape c))
          ∙ append_assoc out (escape c) (escaped text))

  append_char_lem :
      (out : List ℕ) (c : ℕ) → length out < cap → append_char cap out c ≡ out ++ c ∷ []
  unfolding append_char
  append_char_lem out c h = rw (lt→leb cap (length out) h) refl

  pub append_quoted_lem :
      (out text : List ℕ)
      → length out + 2 * length text + 2 ≤ cap
      → append_quoted cap out text ≡ out ++ quoted text
  unfolding append_quoted
  append_quoted_lem out text h =
      let open_size : length (out ++ 34 ∷ []) ≡ length out + 1 = length-append out (34 ∷ []) in
      rw
        (
          append_char_lem out 34 (omega arith),
          escaped_lem (out ++ 34 ∷ []) text (omega arith),
          append_char_lem ((out ++ 34 ∷ []) ++ escaped text) 34
              (omega (arith, length-append (out ++ 34 ∷ []) (escaped text), length-escaped text)),
        )
        (append_assoc (out ++ 34 ∷ []) (escaped text) (34 ∷ [])
          ∙ append_assoc out (34 ∷ []) (escaped text ++ 34 ∷ []))

  pub append_uint_lem :
      (out : List ℕ) (v : ℕ) → length out + 10 ≤ cap → append_uint cap out v ≡ out ++ decimal v
  unfolding append_uint
  append_uint_lem out v h = append_literal_lem out (decimal v) (omega (arith, length-decimal v))
