-- ===== src/Message/RoundTrip.antt =====
-- The trailer that is written is the trailer that is read, and decoding takes the message apart.
use qcremote.Prelude.{
  ltb, le→ltb, Bool-cases, length, take, drop, length-append, length-drop, take-append-drop,
  take-length, take-append, drop-append, ℕ, ◌+◌, ◌-◌, ◌*◌, ◌/◌, ◌%◌, ◌^◌, ◌≤◌, ◌<◌, bit_and, bit_or,
  ◌≡◌, refl, sym, ap, ◌⊎◌, inl, inr, false, none, some, List, [], ◌∷◌, ◌++◌, arith,
}
use qcremote.Prelude.Words.{and_byte, or_bytes}
use qcremote.Message.{DecodedMessage, encode_message, decode_message, read_le16}

trailer_command :
    (c : ℕ) → c < 2 ^ 16 → bit_or (bit_and c 0xFF) (bit_and (c / 2 ^ 8) 0xFF * 2 ^ 8) % 2 ^ 16 ≡ c
trailer_command c h =
    rw (and_byte c, and_byte (c / 2 ^ 8), or_bytes (c % 256) (c / 2 ^ 8 % 256) (omega arith))
      (omega arith)

-- A message that is encoded into an empty buffer decodes to the command and the protobuf bytes that
-- it was made of, with hash 0, for every 16-bit command.
pub decode_message-encode_message :
    (command : ℕ) (proto : List ℕ)
    → command < 2 ^ 16
    → decode_message (encode_message [] command proto)
      ≡ some (record { command = command; proto_bytes = proto; hash = 0 })
unfolding decode_message encode_message
decode_message-encode_message command proto h =
    let bytes : List ℕ =
      bit_and command 0xFF ∷ bit_and (command / 2 ^ 8) 0xFF ∷ 0 ∷ 0 ∷ 0 ∷ 0 ∷ 0 ∷ 0 ∷ [] in
    let size : length (proto ++ bytes) ≡ length proto + 8 = length-append proto bytes in
    let front : length proto + 8 - 8 ≡ length proto = omega arith in
    rw
      (
        size,
        front,
        le→ltb (length proto + 8) 8 (omega arith),
        take-append (length proto) proto bytes refl,
        drop-append (length proto) proto bytes refl,
        trailer_command command h,
      )
      refl

-- Decoding fails on messages of fewer than eight bytes and on no other; what it returns is the
-- message without its last eight bytes, which are the trailer.
pub decode_message_lem :
    (m : List ℕ)
    → ((length m < 8) × (decode_message m ≡ none))
      ⊎ ((d : DecodedMessage) × (trailer : List ℕ) × (decode_message m ≡ some d)
          × (m ≡ d.proto_bytes ++ trailer)
          × (length trailer ≡ 8)
          × (d.command ≡ read_le16 trailer 0)
          × (d.hash ≡ read_le16 trailer 6))
unfolding decode_message
decode_message_lem m = elim (Bool-cases (ltb (length m) 8)) [
  | inl short ↦ inl (ground arith, rw short refl)
  | inr long ↦
      let n = length m - 8 in
      let size : length (drop n m) ≡ 8 = omega (arith, length-drop n m, big long) in
      let all : take 8 (drop n m) ≡ drop n m = take-length 8 (drop n m) (omega arith) in
      inr (
        record {
          command = read_le16 (take 8 (drop n m)) 0;
          proto_bytes = take n m;
          hash = read_le16 (take 8 (drop n m)) 6;
        },
        drop n m,
        rw long refl,
        sym (take-append-drop n m),
        size,
        ap (λ t. read_le16 t 0) all,
        ap (λ t. read_le16 t 6) all,
      )
]
  where
    big : ltb (length m) 8 ≡ false → 8 ≤ length m
    big e = ground arith

-- Eight bytes are added.
pub length-encode_message :
    (out : List ℕ) (command : ℕ) (proto : List ℕ)
    → length (encode_message out command proto) ≡ length out + length proto + 8
unfolding encode_message
length-encode_message out command proto =
    let bytes : List ℕ =
      bit_and command 0xFF ∷ bit_and (command / 2 ^ 8) 0xFF ∷ 0 ∷ 0 ∷ 0 ∷ 0 ∷ 0 ∷ 0 ∷ [] in
    omega (arith, length-append out (proto ++ bytes), length-append proto bytes)
