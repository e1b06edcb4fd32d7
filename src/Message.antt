-- ===== src/Message.antt =====
-- QcMessage.hpp: protobuf bytes with a trailer of eight bytes, command, four zeros and hash.
pub mod RoundTrip
mod Tests
use qcremote.Prelude.{
  ltb, if◌then◌else◌, length, get_or, take, drop, ℕ, ◌+◌, ◌-◌, ◌*◌, ◌/◌, ◌%◌, ◌^◌, bit_and, bit_or,
  Option, none, some, List, [], ◌∷◌, ◌++◌,
}

abbrev pub message_trailer_size : ℕ
message_trailer_size = 8

unfoldable pub encode_message : List ℕ → ℕ → List ℕ → List ℕ
encode_message out command proto_bytes =
    out
    ++ (proto_bytes
        ++ bit_and command 0xFF ∷ bit_and (command / 2 ^ 8) 0xFF ∷ 0 ∷ 0 ∷ 0 ∷ 0 ∷ 0 ∷ 0 ∷ [])

pub record DecodedMessage : Type 0 where
  pub command : ℕ
  pub proto_bytes : List ℕ
  pub hash : ℕ

-- `static_cast<uint16_t>(lo | (hi << 8))`
abbrev pub read_le16 : List ℕ → ℕ → ℕ
read_le16 bytes i = bit_or (get_or bytes i 0) (get_or bytes (i + 1) 0 * 2 ^ 8) % 2 ^ 16

unfoldable pub decode_message : List ℕ → Option DecodedMessage
decode_message full_message =
    let proto_len = length full_message - message_trailer_size in
    let trailer = take message_trailer_size (drop proto_len full_message) in
    if ltb (length full_message) message_trailer_size
    then none
    else some (record {
      command = read_le16 trailer 0;
      proto_bytes = take proto_len full_message;
      hash = read_le16 trailer 6;
    })
