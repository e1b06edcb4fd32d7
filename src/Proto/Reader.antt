-- ===== src/Proto/Reader.antt =====
-- ProtoFieldReader of QcProtobuf.hpp. A reader is the list of the bytes that it has not read, from
-- `offset_` to the end of `data_`. After `nullopt` no caller calls `next` again, so `none` carries no
-- reader.
use qcremote.Prelude.{
  ltb, leb, ◌==◌, if◌then◌else◌, ◌>>=◌, length, take, drop, ℕ, zero, suc, ◌+◌, ◌*◌, ◌/◌, ◌%◌, ◌^◌,
  bit_and, bit_or, Option, none, some, List, [], ◌∷◌,
}
use qcremote.Proto.Writer.{ProtoWireType, varint, fixed64, length_delimited, fixed32}

-- `varint_value` is set for a varint, `bytes` for the other wire types.
pub record Field : Type 0 where
  pub field_num : ℕ
  pub wire_type : ProtoWireType
  pub varint_value : ℕ
  pub bytes : List ℕ

-- The loop of `readVarint`.
unfoldable pub read_varint_loop : List ℕ → ℕ → ℕ → Option (ℕ × List ℕ)
read_varint_loop [] out shift = none
read_varint_loop (byte ∷ rest) out shift =
    let out' = bit_or out (bit_and byte 0x7F * 2 ^ shift % 2 ^ 64) in
    let more = read_varint_loop rest out' (shift + 7) in
    if bit_and byte 0x80 == 0 then some (out', rest) else if leb 64 (shift + 7) then none else more

unfoldable pub read_varint : List ℕ → Option (ℕ × List ℕ)
unfolding read_varint_loop
read_varint reader = read_varint_loop reader 0 0

unfoldable pub take_bytes : ℕ → List ℕ → Option (List ℕ × List ℕ)
take_bytes len reader =
    if ltb (length reader) len then none else some (take len reader, drop len reader)

-- `static_cast<ProtoWireType>(tag & 0x7)`; the other values take the `default` of the switch.
unfoldable pub wire_type_of : ℕ → Option ProtoWireType
wire_type_of n =
    if n == 0
    then some varint
    else if n == 1
    then some fixed64
    else if n == 2
    then some length_delimited
    else if n == 5
    then some fixed32
    else none

-- The switch of `next`: the value that follows the tag.
unfoldable pub read_value : ℕ → ProtoWireType → List ℕ → Option (Field × List ℕ)
read_value field_num varint reader = do
  (value, rest) ← read_varint reader
  some
      (record { field_num = field_num; wire_type = varint; varint_value = value; bytes = [] }, rest)
read_value field_num fixed64 reader = do
  (bytes, rest) ← take_bytes 8 reader
  some
      (record { field_num = field_num; wire_type = fixed64; varint_value = 0; bytes = bytes }, rest)
read_value field_num length_delimited reader = do
  (len, reader') ← read_varint reader
  (bytes, rest) ← take_bytes len reader'
  some (
    record { field_num = field_num; wire_type = length_delimited; varint_value = 0; bytes = bytes },
    rest,
  )
read_value field_num fixed32 reader = do
  (bytes, rest) ← take_bytes 4 reader
  some
      (record { field_num = field_num; wire_type = fixed32; varint_value = 0; bytes = bytes }, rest)

unfoldable pub next : List ℕ → Option (Field × List ℕ)
next [] = none
next (byte ∷ rest) = do
  (tag, rest') ← read_varint (byte ∷ rest)
  wire_type ← wire_type_of (bit_and tag 0x7)
  read_value (tag / 2 ^ 3 % 2 ^ 32) wire_type rest'

-- The fields that `while (const auto field = reader.next())` runs over.
unfoldable pub fields : ℕ → List ℕ → List Field
fields zero reader = []
fields (suc fuel) reader = elim (next reader) [
  | none ↦ []
  | some (field, rest) ↦ field ∷ fields fuel rest
]

-- Each field takes a byte at least.
unfoldable pub all_fields : List ℕ → List Field
unfolding fields
all_fields reader = fields (length reader) reader

-- The loop itself, with its body: `while (const auto field = reader.next()) { body }`.
unfoldable pub run_fields {ℓ} : {S : Type ℓ} → (S → Field → S) → S → List Field → S
run_fields body s [] = s
run_fields body s (f ∷ fs) = run_fields body (body s f) fs
