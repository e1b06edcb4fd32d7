-- ===== src/Messages/Requests.antt =====
-- What the firmware sends: QcHandshakeMessages.hpp, QcFileRequest.hpp and QcStateReads.hpp.
use qcremote.Prelude.{ℕ, Bool, true, List, [], ◌∷◌}
use qcremote.Proto.Writer.{write_string, write_uint64, write_bool, write_enum}
use qcremote.Message.{encode_message}

abbrev pub command_version : ℕ
command_version = 10

abbrev pub command_connection : ℕ
command_connection = 49

abbrev pub command_reset_comms_buffers : ℕ
command_reset_comms_buffers = 52

abbrev pub command_keep_alive : ℕ
command_keep_alive = 32

abbrev pub command_file : ℕ
command_file = 4

abbrev pub command_model_repo : ℕ
command_model_repo = 51

abbrev pub command_setlist_position : ℕ
command_setlist_position = 2

abbrev pub command_module_stats : ℕ
command_module_stats = 35

pub data MessageAction : Type 0 where
  create update delete read move copy upload download swap : MessageAction

abbrev pub action_number : MessageAction → ℕ
action_number create = 0
action_number update = 1
action_number delete = 2
action_number read = 3
action_number move = 4
action_number copy = 5
action_number upload = 6
action_number download = 7
action_number swap = 8

abbrev pub handshake_message_capacity : ℕ
handshake_message_capacity = 128

unfoldable pub encode_reset_comms_buffers : List ℕ → List ℕ → List ℕ
encode_reset_comms_buffers out session_id =
    encode_message out command_reset_comms_buffers (write_string (write_uint64 [] 1 0) 2 session_id)

unfoldable pub encode_version_read : List ℕ → List ℕ
encode_version_read out = encode_message out command_version (write_enum [] 1 (action_number read))

unfoldable pub encode_version_update : List ℕ → List ℕ → ℕ → List ℕ
encode_version_update out cortex_control_version request_id = encode_message out command_version (
    write_string (write_uint64 (write_enum [] 1 (action_number update)) 2 request_id) 11
      cortex_control_version)

unfoldable pub encode_connection : List ℕ → Bool → ℕ → List ℕ
encode_connection out connected request_id =
    encode_message out command_connection (write_bool (write_uint64 [] 1 request_id) 2 connected)

unfoldable pub encode_keep_alive : List ℕ → List ℕ
encode_keep_alive out =
    encode_message out command_keep_alive
      (write_bool (write_enum [] 1 (action_number update)) 3 true)

unfoldable pub encode_file_read : List ℕ → ℕ → List ℕ
encode_file_read out request_id =
    encode_message out command_file
      (write_bool (write_uint64 (write_enum [] 1 (action_number read)) 2 request_id) 11 true)

-- ModelRepo, ModuleStats, UndoRedo, IOSettings, GeneralSettings, Mode, GlobalEQ, MasterVolume,
-- GlobalTempo, Scene, PresetDirty and SetlistPosition, in the order in which they are sent.
abbrev pub post_connect_state_read_commands : List ℕ
post_connect_state_read_commands =
    command_model_repo ∷ command_module_stats ∷ 21 ∷ 3 ∷ 9 ∷ 14 ∷ 38 ∷ 17 ∷ 33 ∷ 13 ∷ 34
    ∷ command_setlist_position ∷ []

unfoldable pub encode_state_read : List ℕ → ℕ → ℕ → List ℕ
encode_state_read out command request_id =
    encode_message out command (write_uint64 (write_enum [] 1 (action_number read)) 2 request_id)
