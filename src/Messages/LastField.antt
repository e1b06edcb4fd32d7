-- ===== src/Messages/LastField.antt =====
-- What a loop over the fields keeps, where each step only overwrites: the last field that counts.
use qcremote.Prelude.{
  ◌==◌, if◌then◌else◌, ℕ, ◌≡◌, refl, ◌∙◌, Bool, true, false, ◌&&◌, Option, none, some, List, [],
  ◌∷◌,
}
use qcremote.Proto.Reader.{Field, run_fields}
use qcremote.Messages.Replies.{is_varint, is_length_delimited}

-- The last field of the list that passes the test.
unfoldable pub last_match : (Field → Bool) → List Field → Option Field
last_match test [] = none
last_match test (f ∷ fs) = elim (last_match test fs) [
  | some g ↦ some g
  | none ↦ if test f then some f else none
]

abbrev pub field_or {ℓ} : {A : Type ℓ} → A → (Field → A) → Option Field → A
field_or d g none = d
field_or d g (some f) = g f

-- A field with this number and a varint, or with this number and bytes.
abbrev pub number_field : ℕ → Field → Bool
number_field num f = f.field_num == num && is_varint f.wire_type

abbrev pub text_field : ℕ → Field → Bool
text_field num f = f.field_num == num && is_length_delimited f.wire_type

module _ {ℓ κ} {S : Type ℓ} {A : Type κ} (body : S → Field → S) (part : S → A) (test : Field → Bool)
    (value : Field → A) where
  -- If the body sets a part of the state on the fields that pass a test, and on no other, then the
  -- part is set by the last such field.
  pub run_fields-part :
      ((s : S) (f : Field) → part (body s f) ≡ (if test f then value f else part s))
      → (s : S) (fs : List Field)
      → part (run_fields body s fs) ≡ field_or (part s) value (last_match test fs)
  unfolding run_fields last_match
  run_fields-part sets s [] = refl
  run_fields-part sets s (f ∷ fs) =
      run_fields-part sets (body s f) fs ∙ rw (sets s f) (pick (last_match test fs) (test f))
    where
      pick :
          (o : Option Field) (b : Bool)
          → field_or (if b then value f else part s) value o
            ≡ field_or
                (part s)
                value
                (elim o [ some g ↦ some g | none ↦ if b then some f else none ])
      pick none true = refl
      pick none false = refl
      pick (some g) b = refl
