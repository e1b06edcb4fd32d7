-- ===== src/Message/Tests.antt =====
-- A run of the trailer code.
use qcremote.Prelude.{◌≡◌, refl, [], ◌∷◌}
use qcremote.Message.{encode_message}

encode_command_300 : encode_message [] 300 (9 ∷ []) ≡ 9 ∷ 44 ∷ 1 ∷ 0 ∷ 0 ∷ 0 ∷ 0 ∷ 0 ∷ 0 ∷ []
unfolding encode_message
encode_command_300 = refl
