-- ===== src/Proto/Writer.antt =====
-- The writers of QcProtobuf.hpp. The vector that they append to is a list of bytes; that the
-- firmware's own messages never fill it is proved where they are built.
use qcremote.Prelude.{
  if◌then◌else◌, length, ℕ, ◌*◌, ◌/◌, ◌%◌, ◌^◌, ◌≤◌, ◌<◌, bit_or, Bool, List, [], ◌∷◌, ◌++◌, arith,
}
use mathlib.Core.Logic.{dite}
use mathlib.Core.WellFounded.{Acc}
use native.Mathlib.Decide.{dec_le}
use qcremote.Prelude.Order.{lt_wf}

pub data ProtoWireType : Type 0 where
  varint fixed64 length_delimited fixed32 : ProtoWireType

abbrev pub wire_byte : ProtoWireType → ℕ
wire_byte varint = 0
wire_byte fixed64 = 1
wire_byte length_delimited = 2
wire_byte fixed32 = 5

pub shift_shrinks : (v : ℕ) → 0x80 ≤ v → v / 2 ^ 7 < v
shift_shrinks v h = omega arith

-- `while (value >= 0x80)`
unfoldable pub write_varint_loop : List ℕ → (value : ℕ) → Acc ◌<◌ value → List ℕ
write_varint_loop out value (Acc.intro _ smaller) =
    dite (dec_le 0x80 value)
      (λ big.
        write_varint_loop (out ++ bit_or (value % 256) 0x80 ∷ []) (value / 2 ^ 7)
          (smaller _ (shift_shrinks value big)))
      (λ _. out ++ value % 256 ∷ [])

unfoldable pub write_varint : List ℕ → ℕ → List ℕ
unfolding write_varint_loop lt_wf dec_le
write_varint out value = write_varint_loop out value (lt_wf.apply value)

unfoldable pub write_tag : List ℕ → ℕ → ProtoWireType → List ℕ
write_tag out field_num wire_type =
    write_varint out (bit_or (field_num * 2 ^ 3 % 2 ^ 64) (wire_byte wire_type))

unfoldable pub write_string : List ℕ → ℕ → List ℕ → List ℕ
write_string out field_num value =
    write_varint (write_tag out field_num length_delimited) (length value) ++ value

unfoldable pub write_uint64 : List ℕ → ℕ → ℕ → List ℕ
write_uint64 out field_num value = write_varint (write_tag out field_num varint) value

unfoldable pub write_bool : List ℕ → ℕ → Bool → List ℕ
write_bool out field_num value = write_uint64 out field_num (if value then 1 else 0)

-- The enumerators that are written are not negative, so the cast to 64 bits keeps them.
unfoldable pub write_enum : List ℕ → ℕ → ℕ → List ℕ
write_enum out field_num value = write_uint64 out field_num value
