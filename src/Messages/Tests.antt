-- ===== src/Messages/Tests.antt =====
-- Runs of the message builders and decoders, and the theorems at concrete inputs.
use qcremote.Prelude.{
  length, take, All, ℕ, ◌%◌, ◌^◌, ◌≤◌, ◌≡◌, refl, true, false, some, List, [], ◌∷◌, arith,
}
use qcremote.Proto.Writer.{write_bool, write_uint64, write_varint, write_tag, write_enum}
use qcremote.Message.{encode_message}
use qcremote.Prelude.Text.{truncating, codes}
use qcremote.Proto.Reader.{
  all_fields, run_fields, next, read_varint, wire_type_of, read_value, take_bytes,
}
use qcremote.Messages.Requests.{
  handshake_message_capacity, encode_reset_comms_buffers, encode_version_read,
  encode_version_update, encode_connection, encode_keep_alive, encode_file_read, encode_state_read,
}
use qcremote.Messages.Replies.{decode_model_repo, decode_setlist_position, model_repo_field}
use qcremote.Messages.File.{
  FilePreset, decode_file, presets_of_header, header_field, folder_presets, files_loop,
  folder_field, product_field,
}
use qcremote.Messages.Sizes.{requests_fit}
use qcremote.Messages.LastField.{field_or, last_match, number_field, text_field}
use qcremote.Messages.Decode.{last_number, last_flag, decode_setlist_position_lem}
use qcremote.Messages.Listing.{expected, decode_file_lem}

encode_file_read_7 :
    encode_file_read [] 7 ≡ 8 ∷ 3 ∷ 16 ∷ 7 ∷ 88 ∷ 1 ∷ 4 ∷ 0 ∷ 0 ∷ 0 ∷ 0 ∷ 0 ∷ 0 ∷ 0 ∷ []
unfolding encode_file_read encode_message write_bool write_uint64 write_varint write_tag write_enum
encode_file_read_7 = refl

-- A READ reply, its request id twice: the last counts.
abbrev reply : List ℕ
reply = 8 ∷ 3 ∷ 16 ∷ 7 ∷ 16 ∷ 9 ∷ 26 ∷ 2 ∷ 65 ∷ 66 ∷ []

decode_model_repo-reply :
    decode_model_repo reply ≡ some (record { action = 3; request_id = 9; payload = 65 ∷ 66 ∷ [] })
unfolding decode_model_repo run_fields all_fields next read_varint wire_type_of read_value
    take_bytes model_repo_field
decode_model_repo-reply = refl

-- A folder "f" with a file "A" and one without a name.
abbrev listing : List ℕ
listing = 24 ∷ 0 ∷ 34 ∷ 10 ∷ 10 ∷ 1 ∷ 102 ∷ 58 ∷ 3 ∷ 26 ∷ 1 ∷ 65 ∷ 58 ∷ 0 ∷ []

abbrev preset : List ℕ → ℕ → FilePreset
preset name index = record {
  folder_key = 102 ∷ [];
  folder_name = [];
  folder_is_factory = false;
  preset_name = name;
  index = index;
}

decode_file-listing : decode_file listing ≡ (true, preset (65 ∷ []) 0 ∷ preset [] 1 ∷ [])
unfolding decode_file presets_of_header run_fields all_fields next read_varint wire_type_of
    read_value take_bytes header_field folder_presets files_loop folder_field product_field
decode_file-listing = refl

abbrev session : List ℕ
session = codes "qcremote-firmware-0000000000000"

requests_fit_example :
    All
      (λ m. length m ≤ handshake_message_capacity)
      (encode_reset_comms_buffers [] session
        ∷ encode_version_read []
        ∷ encode_version_update [] (codes "4.1.0") 1
        ∷ encode_connection [] true 1
        ∷ encode_keep_alive []
        ∷ encode_file_read [] 1
        ∷ encode_state_read [] 51 1
        ∷ [])
requests_fit_example =
    requests_fit session (codes "4.1.0") 51 1 true (omega arith) (omega arith) (omega arith)

decode_setlist_position_lem_example :
    decode_setlist_position truncating reply
    ≡ some (record {
      action =
          field_or 0
            (λ f. f.varint_value % 2 ^ 32)
            (last_match (number_field 1) (all_fields reply));
      request_id = last_number 2 (all_fields reply);
      folder_key =
          field_or [] (λ f. take 96 f.bytes) (last_match (text_field 3) (all_fields reply));
      position =
          field_or 0
            (λ f. f.varint_value % 2 ^ 32)
            (last_match (number_field 4) (all_fields reply));
      is_factory = last_flag 5 (all_fields reply);
      is_downloads = last_flag 6 (all_fields reply);
      key_in_downloads =
          field_or [] (λ f. take 96 f.bytes) (last_match (text_field 7) (all_fields reply));
      is_plugin = last_flag 8 (all_fields reply);
      key_in_plugin_folder =
          field_or [] (λ f. take 96 f.bytes) (last_match (text_field 9) (all_fields reply));
    })
decode_setlist_position_lem_example = decode_setlist_position_lem truncating reply

decode_file_lem_example : decode_file listing ≡ (true, expected (all_fields listing))
decode_file_lem_example = decode_file_lem listing
