-- ===== src/Web/LastChange.antt =====
-- QcWifiWebTransport.hpp: the message of a broadcast that tells a change of the preset is a whole JSON
-- object, as the listing is: there is always room for the change.
use qcremote.Prelude.{
  if◌then◌else◌, length, All, length-append, ℕ, ◌+◌, ◌≤◌, ◌≡◌, refl, sym, ap, ◌∙◌, Bool, true, ◌||◌,
  List, [], ◌∷◌, ◌++◌, append_assoc, arith,
}
use qcremote.Prelude.Text.{codes}
use qcremote.Json.{encode_catalog_json}
use qcremote.Json.Document.{encoded_with_spare}
use qcremote.Json.Rendering.{ShortFolder, Shown, document, folders_text, header_text}
use qcremote.Json.Append.{append_literal_lem, append_uint_lem, decimal, length-decimal}
use qcremote.Web.{QcPresetChangeEvent, append_last_change, json_capacity, pop_back}
use qcremote.Catalog.Snapshot.{FolderEntry, QcCatalogSnapshot}

abbrev pub change_text : QcPresetChangeEvent → List ℕ
change_text e =
    (((codes ",\"lastChange\":{\"command\":" ++ decimal e.command) ++ codes ",\"count\":")
      ++ decimal e.count)
    ++ codes "}}"

pub pop_back-append : (body : List ℕ) (c : ℕ) → pop_back (body ++ c ∷ []) ≡ body
unfolding pop_back
pop_back-append [] c = refl
pop_back-append (b ∷ []) c = refl
pop_back-append (b ∷ d ∷ body) c = ap (λ t. b ∷ t) (pop_back-append (d ∷ body) c)

-- Where 55 characters are free behind a text that ends in `}`, the change is written as a whole.
change_written :
    (cap : ℕ) (e : QcPresetChangeEvent) (body : List ℕ)
    → length body + 56 ≤ cap
    → append_last_change cap e (body ++ 125 ∷ []) ≡ body ++ change_text e
unfolding append_last_change
change_written cap e body h =
    let a = codes ",\"lastChange\":{\"command\":" in
    let b = decimal e.command in
    let c = codes ",\"count\":" in
    let d = decimal e.count in
    let sb : length b ≤ 10 = length-decimal e.command in
    let sd : length d ≤ 10 = length-decimal e.count in
    let l1 = length-append body a in
    let l2 = length-append (body ++ a) b in
    let l3 = length-append ((body ++ a) ++ b) c in
    let l4 = length-append (((body ++ a) ++ b) ++ c) d in
    rw
      (
        pop_back-append body 125,
        append_literal_lem cap body a (omega arith),
        append_uint_lem cap (body ++ a) e.command (omega arith),
        append_literal_lem cap ((body ++ a) ++ b) c (omega arith),
        append_uint_lem cap (((body ++ a) ++ b) ++ c) e.count (omega arith),
        append_literal_lem cap ((((body ++ a) ++ b) ++ c) ++ d) (codes "}}") (omega arith),
      )
      (regroup_change body a b c d (codes "}}"))
  where
    regroup_change :
        (o a b c d t : List ℕ)
        → ((((o ++ a) ++ b) ++ c) ++ d) ++ t ≡ o ++ ((((a ++ b) ++ c) ++ d) ++ t)
    regroup_change o a b c d t = simp append_assoc

-- A document without its last character, which is `}`.
abbrev pub open_document : QcCatalogSnapshot → List ℕ
open_document s =
    (header_text s ++ folders_text true s.folders)
    ++ (codes "],\"incomplete\":" ++ (if s.incomplete then codes "true" else codes "false"))

open-document : (s : QcCatalogSnapshot) → document s ≡ open_document s ++ codes "}"
open-document s = sym (
    append_assoc (header_text s ++ folders_text true s.folders)
      (codes "],\"incomplete\":" ++ (if s.incomplete then codes "true" else codes "false"))
      (codes "}"))

-- In the buffer of the transport, for a snapshot whose names have at most 32 characters, the listing
-- with a change is a whole object: the document of encodeCatalogJson, of all the folders or those that
-- fit, with the last `}` replaced by the field `lastChange` with the command and the count, and `}}`.
-- No character is cut off, however full the buffer is.
pub append_last_change_lem :
    (s : QcCatalogSnapshot) (e : QcPresetChangeEvent)
    → All ShortFolder s.folders
    → (shown : List FolderEntry) × (left_out : Bool) × Shown s.folders shown left_out
      × (append_last_change json_capacity e (encode_catalog_json json_capacity s)
          ≡ open_document (record s { folders = shown; incomplete = s.incomplete || left_out })
            ++ change_text e)
append_last_change_lem s e short =
    let (shown, left_out, fair, text, size, full) =
      encoded_with_spare json_capacity 55 s (omega arith) (omega arith) short in
    let r = record s { folders = shown; incomplete = s.incomplete || left_out } in
    let whole : encode_catalog_json json_capacity s ≡ open_document r ++ codes "}" =
      text ∙ open-document r in
    (
      shown,
      left_out,
      fair,
      rw whole (
          change_written json_capacity e (open_document r)
            (omega (arith, ap length whole, size, length-append (open_document r) (codes "}")))),
    )
