-- ===== src/Messages/Sizes.antt =====
-- The requests stay within their buffers (kHandshakeMessageCapacity).
use qcremote.Prelude.{
  if◌then◌else◌, length, All, length-append, ℕ, ◌+◌, ◌^◌, ◌≤◌, ◌<◌, ap, Bool, List, [], ◌∷◌, arith,
}
use native.Mathlib.Nat.{le_trans}
use qcremote.Proto.Writer.{write_enum, write_bool}
use qcremote.Proto.RoundTrip.{
  Entry, number, text, IsEntry, write_entries, write_entry, write_entry-bytes, entry_bytes,
  entry_bound, length-entry_bytes,
}
use qcremote.Message.{encode_message}
use qcremote.Message.RoundTrip.{length-encode_message}
use qcremote.Messages.Requests.{
  handshake_message_capacity, encode_reset_comms_buffers, encode_version_read,
  encode_version_update, encode_connection, encode_keep_alive, encode_file_read, encode_state_read,
}

abbrev total : List Entry → ℕ
total [] = 0
total (e ∷ es) = entry_bound e + total es

length-write_entries :
    (out : List ℕ) (es : List Entry)
    → All IsEntry es
    → length (write_entries out es) ≤ length out + total es
length-write_entries out [] h = omega arith
length-write_entries out (e ∷ es) h = omega (
  arith,
  length-write_entries (write_entry out e) es h.1,
  ap length (write_entry-bytes out e h.0),
  length-append out (entry_bytes e),
  length-entry_bytes e,
)

length-request :
    (command : ℕ) (es : List Entry)
    → All IsEntry es
    → length (encode_message [] command (write_entries [] es)) ≤ total es + 8
length-request command es h =
    omega
      (arith, length-encode_message [] command (write_entries [] es), length-write_entries [] es h)

-- Every request that the firmware builds fits its buffer of 128 bytes: for each 64-bit request id,
-- each session id of up to 80 bytes, each version of up to 60 bytes, and each command.
pub requests_fit :
    (session version : List ℕ) (command request_id : ℕ) (connected : Bool)
    → length session ≤ 80
    → length version ≤ 60
    → request_id < 2 ^ 64
    → All
        (λ m. length m ≤ handshake_message_capacity)
        (encode_reset_comms_buffers [] session
          ∷ encode_version_read []
          ∷ encode_version_update [] version request_id
          ∷ encode_connection [] connected request_id
          ∷ encode_keep_alive []
          ∷ encode_file_read [] request_id
          ∷ encode_state_read [] command request_id
          ∷ [])
unfolding encode_reset_comms_buffers encode_version_read encode_version_update encode_connection
    encode_keep_alive encode_file_read encode_state_read write_enum write_bool
requests_fit session version command request_id connected hs hv hr = (
  le_trans (length-request 52 (number 1 0 ∷ text 2 session ∷ []) (omega arith)) (omega arith),
  (
    le_trans (length-request 10 (number 1 3 ∷ []) (omega arith)) (omega arith),
    (
      le_trans
          (length-request 10 (number 1 1 ∷ number 2 request_id ∷ text 11 version ∷ [])
            (omega arith))
          (omega arith),
      (
        le_trans
            (length-request 49 (number 1 request_id ∷ number 2 (if connected then 1 else 0) ∷ [])
              ((omega arith, hr), ((omega arith, ground arith), tt)))
            (omega arith),
        (
          le_trans (length-request 32 (number 1 1 ∷ number 3 1 ∷ []) (omega arith)) (omega arith),
          (
            le_trans
                (length-request 4 (number 1 3 ∷ number 2 request_id ∷ number 11 1 ∷ [])
                  (omega arith))
                (omega arith),
            (
              le_trans
                  (length-request command (number 1 3 ∷ number 2 request_id ∷ []) (omega arith))
                  (omega arith),
              tt,
            ),
          ),
        ),
      ),
    ),
  ),
)
