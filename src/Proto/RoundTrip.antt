-- ===== src/Proto/RoundTrip.antt =====
-- Messages of the writers, read back by the reader.
use qcremote.Prelude.{
  le→ltb, length, All, length-append, take-append, drop-append, ℕ, ◌+◌, ◌*◌, ◌/◌, ◌%◌, ◌^◌, ◌≤◌,
  ◌<◌, bit_and, ◌≡◌, refl, sym, ap, ◌∙◌, some, List, [], ◌∷◌, ◌++◌, map, append-nil, append_assoc,
  arith,
}
use qcremote.Prelude.Words.{or_three, and_seven}
use qcremote.Proto.Writer.{
  ProtoWireType, varint, length_delimited, wire_byte, write_tag, write_string, write_uint64,
}
use qcremote.Proto.Reader.{
  Field, read_varint, take_bytes, wire_type_of, read_value, next, all_fields,
}
use qcremote.Proto.Varint.{
  varint_bytes, write_varint-groups, length-groups, read_varint-varint_bytes,
}
use qcremote.Proto.Fields.{all_fields-next}

-- What a message is built of: the two kinds of field that the writers know.
pub data Entry : Type 0 where
  number : ℕ → ℕ → Entry
  text : ℕ → List ℕ → Entry

-- Field numbers are 32 bits wide, values and lengths 64.
abbrev pub IsEntry : Entry → Type 0
IsEntry (number num value) = (num < 2 ^ 32) × (value < 2 ^ 64)
IsEntry (text num bytes) = (num < 2 ^ 32) × (length bytes < 2 ^ 64)

abbrev pub write_entry : List ℕ → Entry → List ℕ
write_entry out (number num value) = write_uint64 out num value
write_entry out (text num bytes) = write_string out num bytes

abbrev pub write_entries : List ℕ → List Entry → List ℕ
write_entries out [] = out
write_entries out (e ∷ es) = write_entries (write_entry out e) es

-- The field that the reader makes of an entry.
abbrev pub to_field : Entry → Field
to_field (number num value) = record {
  field_num = num;
  wire_type = varint;
  varint_value = value;
  bytes = [];
}
to_field (text num bytes) = record {
  field_num = num;
  wire_type = length_delimited;
  varint_value = 0;
  bytes = bytes;
}

abbrev tag_of : ℕ → ProtoWireType → ℕ
tag_of num wt = num * 8 + wire_byte wt

wire_byte-lt : (wt : ProtoWireType) → wire_byte wt < 8
wire_byte-lt wt = ground arith

wire_type_of-tag :
    (num : ℕ) (wt : ProtoWireType) → wire_type_of (bit_and (tag_of num wt) 0x7) ≡ some wt
wire_type_of-tag num wt = rw (and_seven (tag_of num wt), low) (back wt)
  where
    low : tag_of num wt % 8 ≡ wire_byte wt
    low = omega (arith, wire_byte-lt wt)

    back : (t : ProtoWireType) → wire_type_of (wire_byte t) ≡ some t
    back t = unfold wire_type_of in ground arith

write_tag-groups :
    (out : List ℕ) (num : ℕ) (wt : ProtoWireType)
    → num < 2 ^ 32
    → write_tag out num wt ≡ out ++ varint_bytes (tag_of num wt)
unfolding write_tag
write_tag-groups out num wt h =
    let kept : num * 2 ^ 3 % 2 ^ 64 ≡ num * 8 = omega arith in
    rw (kept, or_three num (wire_byte wt) (wire_byte-lt wt))
      (write_varint-groups out (tag_of num wt) (omega (arith, wire_byte-lt wt)))

abbrev pub entry_bytes : Entry → List ℕ
entry_bytes (number num value) = varint_bytes (tag_of num varint) ++ varint_bytes value
entry_bytes (text num bytes) =
    varint_bytes (tag_of num length_delimited) ++ (varint_bytes (length bytes) ++ bytes)

pub write_entry-bytes :
    (out : List ℕ) (e : Entry) → IsEntry e → write_entry out e ≡ out ++ entry_bytes e
unfolding write_uint64 write_string
write_entry-bytes out (number num value) h =
    rw
      (
        write_tag-groups out num varint h.0,
        write_varint-groups (out ++ varint_bytes (tag_of num varint)) value h.1,
      )
      (append_assoc out (varint_bytes (tag_of num varint)) (varint_bytes value))
write_entry-bytes out (text num bytes) h =
    rw
      (
        write_tag-groups out num length_delimited h.0,
        write_varint-groups (out ++ varint_bytes (tag_of num length_delimited)) (length bytes) h.1,
      )
      (simp append_assoc)

-- One call of `next`, in terms of what it reads first.
next_do :
    (reader : List ℕ) (num : ℕ) (wt : ProtoWireType) (rest : List ℕ)
    → num < 2 ^ 32
    → read_varint reader ≡ some (tag_of num wt, rest)
    → next reader ≡ read_value num wt rest
unfolding next
next_do [] num wt rest h e = unfold read_varint in cc
next_do (b ∷ bs) num wt rest h e =
    let shifted : tag_of num wt / 2 ^ 3 % 2 ^ 32 ≡ num = omega (arith, wire_byte-lt wt) in
    rw (e, wire_type_of-tag num wt, shifted) refl

next-entry_bytes :
    (e : Entry) (rest : List ℕ) → IsEntry e → next (entry_bytes e ++ rest) ≡ some (to_field e, rest)
next-entry_bytes (number num value) rest h =
    rw
      (
        append_assoc (varint_bytes (tag_of num varint)) (varint_bytes value) rest,
        next_do _ num varint (varint_bytes value ++ rest) h.0 (
            read_varint-varint_bytes (tag_of num varint) (varint_bytes value ++ rest)
              (omega arith)),
      )
      (unfold read_value in rw (read_varint-varint_bytes value rest h.1) refl)
next-entry_bytes (text num bytes) rest h =
    let whole : length (bytes ++ rest) ≡ length bytes + length rest = length-append bytes rest in
    rw
      (
        append_assoc (varint_bytes (tag_of num length_delimited))
            (varint_bytes (length bytes) ++ bytes) rest,
        append_assoc (varint_bytes (length bytes)) bytes rest,
        next_do _ num length_delimited (varint_bytes (length bytes) ++ (bytes ++ rest)) h.0 (
            read_varint-varint_bytes (tag_of num length_delimited) _
              (omega (arith, wire_byte-lt length_delimited))),
      )
      (unfold read_value take_bytes in
        rw
          (
            read_varint-varint_bytes (length bytes) (bytes ++ rest) h.1,
            le→ltb (length (bytes ++ rest)) (length bytes) (omega arith),
            take-append (length bytes) bytes rest refl,
            drop-append (length bytes) bytes rest refl,
          )
          refl)

abbrev entries_bytes : List Entry → List ℕ
entries_bytes [] = []
entries_bytes (e ∷ es) = entry_bytes e ++ entries_bytes es

pub write_entries-bytes :
    (out : List ℕ) (es : List Entry)
    → All IsEntry es
    → write_entries out es ≡ out ++ entries_bytes es
write_entries-bytes out [] h = sym (append-nil out)
write_entries-bytes out (e ∷ es) h =
    write_entries-bytes (write_entry out e) es h.1
    ∙ rw (write_entry-bytes out e h.0) (append_assoc out (entry_bytes e) (entries_bytes es))

all_fields-entries_bytes :
    (es : List Entry) (rest : List ℕ)
    → All IsEntry es
    → all_fields (entries_bytes es ++ rest) ≡ map to_field es ++ all_fields rest
all_fields-entries_bytes [] rest h = refl
all_fields-entries_bytes (e ∷ es) rest h =
    rw
      (
        append_assoc (entry_bytes e) (entries_bytes es) rest,
        all_fields-next _ (to_field e) (entries_bytes es ++ rest)
            (next-entry_bytes e (entries_bytes es ++ rest) h.0),
      )
      (ap (λ t. to_field e ∷ t) (all_fields-entries_bytes es rest h.1))

-- The writers append: to whatever is already there they add what they write from empty. That is read
-- back field by field, in the order in which it was written, and whatever follows is read as if it stood
-- alone: field numbers are 32-bit, values and text lengths 64-bit numbers.
pub all_fields-write_entries :
    (out : List ℕ) (es : List Entry) (rest : List ℕ)
    → All IsEntry es
    → (write_entries out es ≡ out ++ write_entries [] es)
      × (all_fields (write_entries [] es ++ rest) ≡ map to_field es ++ all_fields rest)
all_fields-write_entries out es rest h = (
  write_entries-bytes out es h ∙ ap (λ t. out ++ t) (sym (write_entries-bytes [] es h)),
  rw (write_entries-bytes [] es h) (all_fields-entries_bytes es rest h),
)

-- An entry takes at most ten bytes for its tag and ten for its number, or its text's bytes more.
abbrev pub entry_bound : Entry → ℕ
entry_bound (number num value) = 20
entry_bound (text num bytes) = 20 + length bytes

pub length-entry_bytes : (e : Entry) → length (entry_bytes e) ≤ entry_bound e
length-entry_bytes (number num value) = omega (
  arith,
  length-append (varint_bytes (tag_of num varint)) (varint_bytes value),
  length-groups 9 (tag_of num varint),
  length-groups 9 value,
)
length-entry_bytes (text num bytes) = omega (
  arith,
  length-append (varint_bytes (tag_of num length_delimited)) (varint_bytes (length bytes) ++ bytes),
  length-append (varint_bytes (length bytes)) bytes,
  length-groups 9 (tag_of num length_delimited),
  length-groups 9 (length bytes),
)
