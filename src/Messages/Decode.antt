-- ===== src/Messages/Decode.antt =====
-- The flat replies against their description: each part is what the last field of its kind says.
use qcremote.Prelude.{
  ◌==◌, if◌then◌else◌, is_empty, ℕ, ◌%◌, ◌^◌, ◌≡◌, refl, ap, Bool, false, not, none, some, List, [],
  ◌∷◌, arith,
}
use qcremote.Prelude.Text.{EtlString}
use qcremote.Proto.Reader.{Field, all_fields, run_fields}
use qcremote.Messages.Replies.{
  blank_version, blank_model_repo, blank_setlist_position, SetlistPositionReply, version_field,
  decode_version_reply, model_repo_field, decode_model_repo, setlist_field, setlist_number,
  setlist_text, decode_setlist_position,
}
use qcremote.Messages.LastField.{last_match, field_or, number_field, text_field, run_fields-part}

-- The number, the flag and the text that the last field with this number holds.
abbrev pub last_number : ℕ → List Field → ℕ
last_number num fs = field_or 0 (λ f. f.varint_value) (last_match (number_field num) fs)

abbrev pub last_flag : ℕ → List Field → Bool
last_flag num fs =
    field_or false (λ f. not (f.varint_value == 0)) (last_match (number_field num) fs)

abbrev pub last_bytes : ℕ → List Field → List ℕ
last_bytes num fs = field_or [] (λ f. f.bytes) (last_match (text_field num) fs)

-- decodeModelRepo fails on empty input and on no other. The action is the last varint of field 1 cut
-- to 32 bits, the request id that of field 2, the payload the last bytes of field 3; a part with no
-- such field is 0 or empty, and fields of another number or wire type change nothing.
pub decode_model_repo_lem :
    (bytes : List ℕ)
    → let fs = all_fields bytes in
      decode_model_repo bytes ≡ (
        if is_empty bytes
        then none
        else some (record {
          action = field_or 0 (λ f. f.varint_value % 2 ^ 32) (last_match (number_field 1) fs);
          request_id = last_number 2 fs;
          payload = last_bytes 3 fs;
        }))
unfolding decode_model_repo model_repo_field
decode_model_repo_lem [] = refl
decode_model_repo_lem (b ∷ bs) = ap some (λ i. record {
  action =
      run_fields-part model_repo_field (λ s. s.action) (number_field 1)
        (λ f. f.varint_value % 2 ^ 32) (λ s f. ground arith) blank_model_repo (all_fields (b ∷ bs))
        i;
  request_id =
      run_fields-part model_repo_field (λ s. s.request_id) (number_field 2) (λ f. f.varint_value)
        (λ s f. ground arith) blank_model_repo (all_fields (b ∷ bs)) i;
  payload =
      run_fields-part model_repo_field (λ s. s.payload) (text_field 3) (λ f. f.bytes)
        (λ s f. ground arith) blank_model_repo (all_fields (b ∷ bs)) i;
})

-- The same of decodeVersionReply: fields 4 and 7, texts only, each kept as `assign` keeps it.
pub decode_version_reply_lem :
    (etl : EtlString) (bytes : List ℕ)
    → let fs = all_fields bytes in
      decode_version_reply etl bytes ≡ (
        if is_empty bytes
        then none
        else some (record {
          zenos_git_hash = field_or [] (λ f. etl.assign 40 f.bytes) (last_match (text_field 4) fs);
          app_fw_version = field_or [] (λ f. etl.assign 40 f.bytes) (last_match (text_field 7) fs);
        }))
unfolding decode_version_reply version_field
decode_version_reply_lem etl [] = refl
decode_version_reply_lem etl (b ∷ bs) = ap some (λ i. record {
  zenos_git_hash =
      run_fields-part (version_field etl) (λ s. s.zenos_git_hash) (text_field 4)
        (λ f. etl.assign 40 f.bytes) (λ s f. ground arith) blank_version (all_fields (b ∷ bs)) i;
  app_fw_version =
      run_fields-part (version_field etl) (λ s. s.app_fw_version) (text_field 7)
        (λ f. etl.assign 40 f.bytes) (λ s f. ground arith) blank_version (all_fields (b ∷ bs)) i;
})

module _ (etl : EtlString) {A : Type 0} (part : SetlistPositionReply → A) (test : Field → Bool)
    (value : Field → A) where
  setlist_part :
      ((s : SetlistPositionReply) (f : Field)
        → part (setlist_field etl s f) ≡ (if test f then value f else part s))
      → (fs : List Field)
      → part (run_fields (setlist_field etl) blank_setlist_position fs)
        ≡ field_or (part blank_setlist_position) value (last_match test fs)
  setlist_part sets fs =
      run_fields-part (setlist_field etl) part test value sets blank_setlist_position fs

-- decodeSetlistPosition answers nothing for an empty message. For any other it answers, for each of
-- its two 32-bit numbers, its request id, its three flags and its three texts, the value of the last
-- field of that number and of the kind that the part expects, cut to what the part can hold, and the
-- blank value where there is no such field.
pub decode_setlist_position_lem :
    (etl : EtlString) (bytes : List ℕ)
    → let fs = all_fields bytes in
      decode_setlist_position etl bytes ≡ (
        if is_empty bytes
        then none
        else some (record {
          action = field_or 0 (λ f. f.varint_value % 2 ^ 32) (last_match (number_field 1) fs);
          request_id = last_number 2 fs;
          folder_key = field_or [] (λ f. etl.assign 96 f.bytes) (last_match (text_field 3) fs);
          position = field_or 0 (λ f. f.varint_value % 2 ^ 32) (last_match (number_field 4) fs);
          is_factory = last_flag 5 fs;
          is_downloads = last_flag 6 fs;
          key_in_downloads =
              field_or [] (λ f. etl.assign 96 f.bytes) (last_match (text_field 7) fs);
          is_plugin = last_flag 8 fs;
          key_in_plugin_folder =
              field_or [] (λ f. etl.assign 96 f.bytes) (last_match (text_field 9) fs);
        }))
unfolding decode_setlist_position setlist_field setlist_number setlist_text
decode_setlist_position_lem etl [] = refl
decode_setlist_position_lem etl (b ∷ bs) =
    let fs = all_fields (b ∷ bs) in
    ap some (λ i. record {
      action =
          setlist_part etl (λ s. s.action) (number_field 1) (λ f. f.varint_value % 2 ^ 32)
            (λ s f. ground arith) fs i;
      request_id =
          setlist_part etl (λ s. s.request_id) (number_field 2) (λ f. f.varint_value)
            (λ s f. ground arith) fs i;
      folder_key =
          setlist_part etl (λ s. s.folder_key) (text_field 3) (λ f. etl.assign 96 f.bytes)
            (λ s f. ground arith) fs i;
      position =
          setlist_part etl (λ s. s.position) (number_field 4) (λ f. f.varint_value % 2 ^ 32)
            (λ s f. ground arith) fs i;
      is_factory =
          setlist_part etl (λ s. s.is_factory) (number_field 5) (λ f. not (f.varint_value == 0))
            (λ s f. ground arith) fs i;
      is_downloads =
          setlist_part etl (λ s. s.is_downloads) (number_field 6) (λ f. not (f.varint_value == 0))
            (λ s f. ground arith) fs i;
      key_in_downloads =
          setlist_part etl (λ s. s.key_in_downloads) (text_field 7) (λ f. etl.assign 96 f.bytes)
            (λ s f. ground arith) fs i;
      is_plugin =
          setlist_part etl (λ s. s.is_plugin) (number_field 8) (λ f. not (f.varint_value == 0))
            (λ s f. ground arith) fs i;
      key_in_plugin_folder =
          setlist_part etl (λ s. s.key_in_plugin_folder) (text_field 9) (λ f. etl.assign 96 f.bytes)
            (λ s f. ground arith) fs i;
    })
