-- ===== src/Messages/Replies.antt =====
-- The flat replies: decodeVersionReply (QcHandshakeMessages.hpp), decodeModelRepo and
-- decodeSetlistPosition. Each runs over the fields and keeps what the last one of a kind says.
use qcremote.Prelude.{
  ◌==◌, if◌then◌else◌, is_empty, ℕ, ◌%◌, ◌^◌, Bool, true, false, not, Option, none, some, List, [],
}
use qcremote.Prelude.Text.{EtlString}
use qcremote.Proto.Writer.{varint, length_delimited, ProtoWireType}
use qcremote.Proto.Reader.{Field, all_fields, run_fields}

abbrev pub is_varint : ProtoWireType → Bool
is_varint varint = true
is_varint _ = false

abbrev pub is_length_delimited : ProtoWireType → Bool
is_length_delimited length_delimited = true
is_length_delimited _ = false

pub record VersionReply : Type 0 where
  pub zenos_git_hash : List ℕ
  pub app_fw_version : List ℕ

-- `action` is the enumerator's number, a 32-bit `int` by its bits.
pub record ModelRepoReply : Type 0 where
  pub action : ℕ
  pub request_id : ℕ
  pub payload : List ℕ

pub record SetlistPositionReply : Type 0 where
  pub action : ℕ
  pub request_id : ℕ
  pub folder_key : List ℕ
  pub position : ℕ
  pub is_factory : Bool
  pub is_downloads : Bool
  pub key_in_downloads : List ℕ
  pub is_plugin : Bool
  pub key_in_plugin_folder : List ℕ

-- The members' initial values.
abbrev pub blank_version : VersionReply
blank_version = record { zenos_git_hash = []; app_fw_version = [] }

abbrev pub blank_model_repo : ModelRepoReply
blank_model_repo = record { action = 0; request_id = 0; payload = [] }

abbrev pub blank_setlist_position : SetlistPositionReply
blank_setlist_position = record {
  action = 0;
  request_id = 0;
  folder_key = [];
  position = 0;
  is_factory = false;
  is_downloads = false;
  key_in_downloads = [];
  is_plugin = false;
  key_in_plugin_folder = [];
}

unfoldable pub model_repo_field : ModelRepoReply → Field → ModelRepoReply
model_repo_field reply f =
    if f.field_num == 1
    then (if is_varint f.wire_type
        then record reply { action = f.varint_value % 2 ^ 32 }
        else reply)
    else if f.field_num == 2
    then (if is_varint f.wire_type then record reply { request_id = f.varint_value } else reply)
    else if f.field_num == 3
    then (if is_length_delimited f.wire_type then record reply { payload = f.bytes } else reply)
    else reply

unfoldable pub decode_model_repo : List ℕ → Option ModelRepoReply
decode_model_repo proto_bytes =
    if is_empty proto_bytes
    then none
    else some (
        run_fields model_repo_field (record { action = 0; request_id = 0; payload = [] })
          (all_fields proto_bytes))

module _ (etl : EtlString) where
  unfoldable pub version_field : VersionReply → Field → VersionReply
  version_field reply f =
      if not (is_length_delimited f.wire_type)
      then reply
      else if f.field_num == 4
      then record reply { zenos_git_hash = etl.assign 40 f.bytes }
      else if f.field_num == 7
      then record reply { app_fw_version = etl.assign 40 f.bytes }
      else reply

  unfoldable pub decode_version_reply : List ℕ → Option VersionReply
  decode_version_reply proto_bytes =
      if is_empty proto_bytes
      then none
      else some (
          run_fields version_field (record { zenos_git_hash = []; app_fw_version = [] })
            (all_fields proto_bytes))

  -- The cases of the switch that a varint sets, and those that a text sets.
  unfoldable pub setlist_number : SetlistPositionReply → ℕ → ℕ → SetlistPositionReply
  setlist_number reply num value =
      if num == 1
      then record reply { action = value % 2 ^ 32 }
      else if num == 2
      then record reply { request_id = value }
      else if num == 4
      then record reply { position = value % 2 ^ 32 }
      else if num == 5
      then record reply { is_factory = not (value == 0) }
      else if num == 6
      then record reply { is_downloads = not (value == 0) }
      else if num == 8
      then record reply { is_plugin = not (value == 0) }
      else reply

  unfoldable pub setlist_text : SetlistPositionReply → ℕ → List ℕ → SetlistPositionReply
  setlist_text reply num bytes =
      if num == 3
      then record reply { folder_key = etl.assign 96 bytes }
      else if num == 7
      then record reply { key_in_downloads = etl.assign 96 bytes }
      else if num == 9
      then record reply { key_in_plugin_folder = etl.assign 96 bytes }
      else reply

  unfoldable pub setlist_field : SetlistPositionReply → Field → SetlistPositionReply
  setlist_field reply f =
      if is_varint f.wire_type
      then setlist_number reply f.field_num f.varint_value
      else if is_length_delimited f.wire_type
      then setlist_text reply f.field_num f.bytes
      else reply

  unfoldable pub decode_setlist_position : List ℕ → Option SetlistPositionReply
  decode_setlist_position proto_bytes =
      if is_empty proto_bytes
      then none
      else some (run_fields setlist_field blank_setlist_position (all_fields proto_bytes))
