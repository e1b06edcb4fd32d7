-- ===== src/Proto/Fields.antt =====
-- How far `ProtoFieldReader::next` goes: every field is a slice of the input, and the loop ends.
use qcremote.Prelude.{
  leb, ◌==◌, Bool-cases, Option-cases, ◌>>=◌, >>=-eq-some, length, take, drop, length-append,
  take-append-drop, ℕ, zero, suc, ◌+◌, ◌*◌, ◌/◌, ◌%◌, ◌^◌, ◌≤◌, ◌<◌, bit_and, bit_or, ◌≡◌, refl,
  sym, ap, ap₂, ◌∙◌, inl, inr, Option, none, some, List, [], ◌∷◌, ◌++◌, append_assoc, arith,
}
use native.Mathlib.Nat.{le_refl}
use qcremote.Proto.Writer.{ProtoWireType, varint, fixed64, length_delimited, fixed32}
use qcremote.Proto.Reader.{
  Field, read_varint_loop, read_varint, take_bytes, wire_type_of, read_value, next, fields,
  all_fields,
}

-- `rest` is what is left of `reader` behind a part that is not empty.
abbrev Consumes : List ℕ → List ℕ → Type 0
Consumes reader rest = (pre : List ℕ) × (reader ≡ pre ++ rest) × (0 < length pre)

read_varint_loop-Consumes :
    (reader : List ℕ) (out shift v : ℕ) (rest : List ℕ)
    → read_varint_loop reader out shift ≡ some (v, rest)
    → Consumes reader rest
unfolding read_varint_loop
read_varint_loop-Consumes [] out shift v rest e = cc
read_varint_loop-Consumes (b ∷ bs) out shift v rest e = elim (Bool-cases (bit_and b 0x80 == 0)) [
  | inl done ↦ (b ∷ [], ap (λ t. b ∷ t) (ground arith), omega arith)
  | inr more ↦ elim (Bool-cases (leb 64 (shift + 7))) [
    | inl over ↦ absurd (ground arith)
    | inr go ↦
        let (pre, p, n) =
          read_varint_loop-Consumes bs (bit_or out (bit_and b 0x7F * 2 ^ shift % 2 ^ 64))
            (shift + 7) v rest (ground arith) in
        (b ∷ pre, ap (λ t. b ∷ t) p, omega arith)
  ]
]

take_bytes_slice :
    (len : ℕ) (reader bytes rest : List ℕ)
    → take_bytes len reader ≡ some (bytes, rest)
    → reader ≡ bytes ++ rest
unfolding take_bytes
take_bytes_slice len reader bytes rest e =
    let split : take len reader ++ drop len reader ≡ reader = take-append-drop len reader in
    let b : take len reader ≡ bytes = ground arith in
    let r : drop len reader ≡ rest = ground arith in rw (← b, ← r) (sym split)

abbrev Slice : List ℕ → Field → List ℕ → Type 0
Slice reader f rest = (pre : List ℕ) × (reader ≡ pre ++ (f.bytes ++ rest))

abbrev with_bytes : ℕ → ProtoWireType → List ℕ → Field
with_bytes num wt bytes = record {
  field_num = num;
  wire_type = wt;
  varint_value = 0;
  bytes = bytes;
}

abbrev pair_some : Field → List ℕ → Option (Field × List ℕ)
pair_some f rest = some (f, rest)

fixed_slice :
    (num : ℕ) (wt : ProtoWireType) (len : ℕ) (reader : List ℕ) (f : Field) (rest : List ℕ)
    → (take_bytes len reader >>= λ p. pair_some (with_bytes num wt p.0) p.1) ≡ pair_some f rest
    → reader ≡ f.bytes ++ rest
fixed_slice num wt len reader f rest e =
    let (p, t, q) =
      >>=-eq-some (take_bytes len reader) (λ p. pair_some (with_bytes num wt p.0) p.1) e in
    let b : p.0 ≡ f.bytes = ground arith in
    let k : p.1 ≡ rest = ground arith in
    take_bytes_slice len reader p.0 p.1 t ∙ ap₂ (λ x y. x ++ y) b k

read_value-Slice :
    (num : ℕ) (wt : ProtoWireType) (reader : List ℕ) (f : Field) (rest : List ℕ)
    → read_value num wt reader ≡ some (f, rest)
    → Slice reader f rest
unfolding read_value read_varint
read_value-Slice num varint reader f rest e =
    let ((v, r), t, q) = >>=-eq-some (read_varint reader) _ e in
    let b : [] ≡ f.bytes = ground arith in
    let k : r ≡ rest = ground arith in
    let (pre, p, n) = read_varint_loop-Consumes reader 0 0 v r t in
    (pre, p ∙ ap₂ (λ x y. pre ++ (x ++ y)) b k)
read_value-Slice num fixed64 reader f rest e = ([], fixed_slice num fixed64 8 reader f rest e)
read_value-Slice num length_delimited reader f rest e =
    let ((len, r), t, q) = >>=-eq-some (read_varint reader) _ e in
    let (pre, p, n) = read_varint_loop-Consumes reader 0 0 len r t in
    (pre, p ∙ ap (λ t. pre ++ t) (fixed_slice num length_delimited len r f rest q))
read_value-Slice num fixed32 reader f rest e = ([], fixed_slice num fixed32 4 reader f rest e)

-- A field that `next` returns is a slice of the input: in front of it stands a part that is not
-- empty (its tag, and its length or value), its bytes follow, and what is left comes after them.
pub next_slice :
    (reader : List ℕ) (f : Field) (rest : List ℕ)
    → next reader ≡ some (f, rest)
    → (pre : List ℕ) × (reader ≡ pre ++ (f.bytes ++ rest)) × (0 < length pre)
unfolding next read_varint
next_slice [] f rest e = cc
next_slice (b ∷ bs) f rest e =
    let ((tag, r), t, q) = >>=-eq-some (read_varint (b ∷ bs)) _ e in
    let (wt, u, s) = >>=-eq-some (wire_type_of (bit_and tag 0x7)) _ q in
    let (pre, p, n) = read_varint_loop-Consumes (b ∷ bs) 0 0 tag r t in
    let (pre', p') = read_value-Slice (tag / 2 ^ 3 % 2 ^ 32) wt r f rest s in
    (
      pre ++ pre',
      p ∙ ap (λ t. pre ++ t) p' ∙ sym (append_assoc pre pre' (f.bytes ++ rest)),
      omega (arith, length-append pre pre'),
    )

next_shrinks :
    (reader : List ℕ) (f : Field) (rest : List ℕ)
    → next reader ≡ some (f, rest)
    → length f.bytes + length rest < length reader
next_shrinks reader f rest e =
    let (pre, p, n) = next_slice reader f rest e in
    rw p (omega (arith, length-append pre (f.bytes ++ rest), length-append f.bytes rest))

fields_stable :
    (n m : ℕ) (reader : List ℕ)
    → length reader ≤ n
    → length reader ≤ m
    → fields n reader ≡ fields m reader
unfolding fields next
fields_stable zero zero reader p q = refl
fields_stable zero (suc m) [] p q = refl
fields_stable zero (suc m) (b ∷ bs) p q = absurd (omega arith)
fields_stable (suc n) zero [] p q = refl
fields_stable (suc n) zero (b ∷ bs) p q = absurd (omega arith)
fields_stable (suc n) (suc m) reader p q = elim (Option-cases (next reader)) [
  | inl e ↦ rw (e, fields) refl
  | inr ((f, rest), e) ↦
      let less : length f.bytes + length rest < length reader = next_shrinks reader f rest e in
      rw (e, fields) (ap (λ t. f ∷ t) (fields_stable n m rest (omega arith) (omega arith)))
]

-- The loop over `next` ends after at most as many rounds as there are bytes: with that fuel or
-- more it finds the same fields.
pub fields_enough :
    (fuel : ℕ) (reader : List ℕ) → length reader ≤ fuel → fields fuel reader ≡ all_fields reader
unfolding all_fields
fields_enough fuel reader h = fields_stable fuel (length reader) reader h (le_refl (length reader))

-- One round of the loop.
pub all_fields-next :
    (reader : List ℕ) (f : Field) (rest : List ℕ)
    → next reader ≡ some (f, rest)
    → all_fields reader ≡ f ∷ all_fields rest
unfolding all_fields fields next
all_fields-next [] f rest e = cc
all_fields-next (b ∷ bs) f rest e =
    let less : length f.bytes + length rest < length (b ∷ bs) = next_shrinks (b ∷ bs) f rest e in
    rw (e, fields)
      (ap (λ t. f ∷ t) (fields_stable (length bs) (length rest) rest (omega arith) (omega arith)))

pub all_fields-stop : (reader : List ℕ) → next reader ≡ none → all_fields reader ≡ []
unfolding all_fields fields next
all_fields-stop [] e = refl
all_fields-stop (b ∷ bs) e = rw (e, fields) refl
