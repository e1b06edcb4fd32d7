-- ===== src/Proto/Tests.antt =====
-- Runs of the writers and the reader, and the theorems at concrete inputs.
use qcremote.Prelude.{length, ℕ, ◌≡◌, refl, some, List, [], ◌∷◌, ◌++◌, arith}
use qcremote.Proto.Writer.{varint, write_varint, write_string, write_uint64, write_tag}
use qcremote.Proto.Reader.{
  Field, read_varint, take_bytes, wire_type_of, read_value, next, fields, all_fields,
}
use qcremote.Proto.Fields.{fields_enough}
use qcremote.Proto.RoundTrip.{number, text, write_entries, to_field, all_fields-write_entries}

abbrev request : List ℕ
request = 8 ∷ 172 ∷ 2 ∷ 18 ∷ 2 ∷ 65 ∷ 66 ∷ []

abbrev first_field : Field
first_field = record { field_num = 1; wire_type = varint; varint_value = 300; bytes = [] }

write_request : write_string (write_uint64 [] 1 300) 2 (65 ∷ 66 ∷ []) ≡ request
unfolding write_string write_uint64 write_varint write_tag
write_request = refl

next-request : next request ≡ some (first_field, 18 ∷ 2 ∷ 65 ∷ 66 ∷ [])
unfolding next read_varint wire_type_of read_value
next-request = refl

-- A field that is cut off ends the loop.
fields_truncated : length (all_fields (8 ∷ 1 ∷ 18 ∷ 9 ∷ 65 ∷ [])) ≡ 1
unfolding all_fields next read_varint wire_type_of read_value take_bytes
fields_truncated = refl

fields_enough_example : fields 20 request ≡ all_fields request
fields_enough_example = fields_enough 20 request (omega arith)

all_fields-write_entries_example :
    (write_entries (8 ∷ 7 ∷ []) (number 1 300 ∷ text 2 (65 ∷ 66 ∷ []) ∷ [])
      ≡ 8 ∷ 7 ∷ write_entries [] (number 1 300 ∷ text 2 (65 ∷ 66 ∷ []) ∷ []))
    × (all_fields (write_entries [] (number 1 300 ∷ text 2 (65 ∷ 66 ∷ []) ∷ []) ++ 24 ∷ 1 ∷ [])
        ≡ first_field ∷ to_field (text 2 (65 ∷ 66 ∷ [])) ∷ all_fields (24 ∷ 1 ∷ []))
all_fields-write_entries_example =
    all_fields-write_entries (8 ∷ 7 ∷ []) (number 1 300 ∷ text 2 (65 ∷ 66 ∷ []) ∷ []) (24 ∷ 1 ∷ [])
      (omega arith)
