-- ===== src/Session/Routing.antt =====
-- The way of a message from handleMessage to the worker that delivers it.
use qcremote.Prelude.{
  if◌then◌else◌, le→ltb, length, length-append, take-length, take-append, drop-append, ℕ, ◌+◌, ◌-◌,
  ◌^◌, ◌≤◌, ◌<◌, ◌≡◌, refl, ap, ◌∙◌, inl, inr, true, false, none, some, List, [], ◌∷◌, ◌++◌, arith,
}
use qcremote.Prelude.Text.{EtlString}
use qcremote.Message.{encode_message, decode_message, read_le16, DecodedMessage}
use qcremote.Message.RoundTrip.{
  decode_message-encode_message, decode_message_lem, length-encode_message,
}
use qcremote.Messages.Requests.{command_file}
use qcremote.Messages.File.{decode_file}
use qcremote.Mailbox.{Item, Mailbox, submit, take_item, release}
use qcremote.Catalog.{add_presets}
use qcremote.FileStream.{on_message}
use qcremote.Tally.{record_command}
use qcremote.Gzip.{has_magic}
use qcremote.Session.{
  QcSession, message_capacity, counted, is_ignored_command, submit_compressed, submit_plain,
  handle_decoded, handle_message, tally, take_version_reply, stream_message, session_on_message,
}
use qcremote.Session.Workers.{deliver_plain, dispatcher_round, free_dispatcher}

abbrev pub item_of : ℕ → List ℕ → Item
item_of command proto = record { command = command; bytes = proto; wire_size = length proto + 8 }

-- A message for a 16-bit command that the device encodes goes one way: a ModelRepo or ModuleStats
-- message is counted and ignored; another one that starts with the gzip magic is submitted to the
-- inflater, and any other to the dispatcher, each with the size on the wire. Anything shorter than a
-- trailer changes nothing.
pub handle_message_lem :
    (s : QcSession) (command : ℕ) (proto short : List ℕ)
    → command < 2 ^ 16
    → length short < 8
    → (handle_message s (encode_message [] command proto) ≡ (
        if is_ignored_command command
        then record s { ignored_large_command_count = counted s.ignored_large_command_count }
        else if has_magic proto
        then submit_compressed s (item_of command proto)
        else submit_plain s (item_of command proto)))
      × (handle_message s short ≡ s)
unfolding handle_message
handle_message_lem s command proto short h k = (
  rw (decode_message-encode_message command proto h, handle_message)
      (ap (λ n. handle_decoded s n (record { command = command; proto_bytes = proto; hash = 0 }))
          size
        ∙ unfold handle_decoded in refl),
  rw (too_short k, handle_message) refl,
)
  where
    size : length (encode_message [] command proto) ≡ length proto + 8
    size = omega (arith, length-encode_message [] command proto)

    too_short : length short < 8 → decode_message short ≡ none
    too_short k = elim (decode_message_lem short) [
      | inl none_there ↦ none_there.1
      | inr (d, trailer, e, p, size, c, x) ↦
          absurd (omega (arith, ap length p, length-append d.proto_bytes trailer))
    ]

-- What a plain File message does to the session.
abbrev pub with_file_message : EtlString → QcSession → ℕ → List ℕ → QcSession
with_file_message etl s now proto = record s {
  dispatcher = record s.dispatcher {
    busy = false;
    item = item_of command_file proto;
    ready = false;
  };
  post_stream_tally = record_command command_file s.post_stream_tally;
  file_stream = on_message s.file_stream now (length proto + 8) (length proto) false;
  preset_catalog = add_presets etl s.preset_catalog (decode_file proto).1;
}

submitted_item :
    (s : QcSession) (i : Item)
    → s.dispatcher.busy ≡ false
    → length i.bytes ≤ message_capacity
    → submit_plain s i
      ≡ record s { dispatcher = record s.dispatcher { busy = true; item = i; ready = true } }
unfolding submit_plain submit
submitted_item s i free fits = simp (free, le→ltb message_capacity (length i.bytes) fits)

delivered_file :
    (etl : EtlString) (s : QcSession) (now : ℕ) (i : Item)
    → i.command ≡ 4
    → s.file_stream.active ≡ true
    → deliver_plain etl s now i ≡ record s {
      post_stream_tally = record_command command_file s.post_stream_tally;
      file_stream = on_message s.file_stream now i.wire_size (length i.bytes) false;
      preset_catalog = add_presets etl s.preset_catalog (decode_file i.bytes).1;
    }
unfolding deliver_plain session_on_message stream_message tally take_version_reply
delivered_file etl s now i e active = simp (e, active)

-- A File message as the device sends it: its command, 4, in two bytes, and then the trailer's other six,
-- the reserved word and the hash, whatever they are.
abbrev pub file_reply : List ℕ → List ℕ → List ℕ
file_reply proto reserved_and_hash = proto ++ 4 ∷ 0 ∷ reserved_and_hash

pub length-file_reply :
    (proto rest : List ℕ) → length rest ≡ 6 → length (file_reply proto rest) ≡ length proto + 8
length-file_reply proto rest six = omega (arith, length-append proto (4 ∷ 0 ∷ rest))

decode_message-file_reply :
    (proto rest : List ℕ)
    → length rest ≡ 6
    → decode_message (file_reply proto rest)
      ≡ some (record {
        command = command_file;
        proto_bytes = proto;
        hash = read_le16 (4 ∷ 0 ∷ rest) 6;
      })
unfolding decode_message
decode_message-file_reply proto rest six =
    let bytes : List ℕ = 4 ∷ 0 ∷ rest in
    let front : length proto + 8 - 8 ≡ length proto = omega arith in
    rw
      (
        length-file_reply proto rest six,
        front,
        le→ltb (length proto + 8) 8 (omega arith),
        take-append (length proto) proto bytes refl,
        drop-append (length proto) proto bytes refl,
        take-length 6 rest (omega arith),
      )
      refl

submitted_file :
    (s : QcSession) (proto rest : List ℕ)
    → length rest ≡ 6
    → has_magic proto ≡ false
    → handle_message s (file_reply proto rest) ≡ submit_plain s (item_of command_file proto)
unfolding handle_message
submitted_file s proto rest six plain =
    let d : DecodedMessage = record {
      command = command_file;
      proto_bytes = proto;
      hash = read_le16 (4 ∷ 0 ∷ rest) 6;
    } in
    rw (decode_message-file_reply proto rest six, handle_message)
      (ap (λ n. handle_decoded s n d) (length-file_reply proto rest six)
        ∙ unfold handle_decoded in rw plain refl)

-- A plain File message of at most 131072 bytes, with any hash, that comes while the stream is active and
-- the dispatcher's slot is free is delivered by the dispatcher's next round: the stream counts it with
-- its sizes, the catalog takes the presets that it decodes to, the tally counts its command, and the
-- slot is free again.
pub file_message_arrives :
    (etl : EtlString) (s : QcSession) (now : ℕ) (proto rest : List ℕ)
    → length rest ≡ 6
    → s.dispatcher.busy ≡ false
    → s.file_stream.active ≡ true
    → has_magic proto ≡ false
    → length proto ≤ message_capacity
    → dispatcher_round etl (handle_message s (file_reply proto rest)) now
      ≡ some (with_file_message etl s now proto)
file_message_arrives etl s now proto rest six free active plain fits =
    let i : Item = item_of command_file proto in
    let box : Mailbox = record s.dispatcher { busy = true; item = i; ready = false } in
    let routed : handle_message s (file_reply proto rest)
        ≡ record s { dispatcher = record s.dispatcher { busy = true; item = i; ready = true } } =
      submitted_file s proto rest six plain ∙ submitted_item s i free fits in
    ap (λ x. dispatcher_round etl x now) routed
    ∙ unfold dispatcher_round take_item in
      ap (λ x. some (free_dispatcher x))
        (delivered_file etl (record s { dispatcher = box }) now i refl active)
      ∙ unfold free_dispatcher release in refl
