-- ===== src/Json/Document.antt =====
-- What encodeCatalogJson writes: a whole document, for the snapshot or for a part of it that says so.
use qcremote.Prelude.{
  leb, Bool-cases, length, is_empty, All, length-append, ℕ, ◌+◌, ◌≤◌, ◌<◌, ◌≡◌, refl, sym, ap, ◌∙◌,
  inl, inr, Bool, true, false, not, ◌||◌, List, [], ◌∷◌, ◌++◌, append-nil, append_assoc, arith,
}
use qcremote.Prelude.Text.{codes}
use qcremote.Catalog.{PresetEntry}
use qcremote.Catalog.Snapshot.{FolderEntry, QcCatalogSnapshot}
use qcremote.Json.{
  append_literal, append_comma, append_preset, encode_presets, open_folder, encode_folders,
  encode_catalog_json,
}
use qcremote.Json.Append.{append_literal_lem}
use qcremote.Json.Rendering.{
  preset_text, comma, presets_text, opening_text, folders_text, header_text, end_text, document,
  Shown, ShortPreset, ShortFolder, all, cut, cut_in, next,
}
use qcremote.Json.Parts.{
  preset_written, opening_written, comma_written, header_written, end_written,
}

regroup : (o k p d t : List ℕ) → (((o ++ k) ++ p) ++ d) ++ t ≡ o ++ (k ++ ((p ++ d) ++ t))
regroup o k p d t = simp append_assoc

-- With `spare` more characters left free than the closing text takes.
module _ (cap spare : ℕ) (small : spare ≤ 65) where
  -- The presets that the inner loop writes.
  record Presets (out : List ℕ) (is_first : Bool) (ps : List PresetEntry) (r : List ℕ × Bool)
      : Type 0 where
    written : List PresetEntry
    rest : List PresetEntry
    split : ps ≡ written ++ rest
    told : r.1 ≡ not (is_empty rest)
    text : r.0 ≡ out ++ presets_text is_first written
    room : length r.0 + (23 + spare) ≤ cap
    full : r.1 ≡ true → cap < length r.0 + 183

  encode_presets-Presets :
      (out : List ℕ) (is_first : Bool) (ps : List PresetEntry)
      → All ShortPreset ps
      → length out + (23 + spare) ≤ cap
      → Presets out is_first ps (encode_presets cap out is_first ps)
  unfolding encode_presets
  encode_presets-Presets out is_first [] short h = record {
    written = [];
    rest = [];
    split = refl;
    told = refl;
    text = sym (append-nil out);
    room = h;
    full = λ e. cc;
  }
  encode_presets-Presets out is_first (p ∷ ps) short h =
      elim (Bool-cases (leb (length out + 183) cap)) [
        | inr full ↦ rw full (record {
          written = [];
          rest = p ∷ ps;
          split = refl;
          told = refl;
          text = sym (append-nil out);
          room = h;
          full = λ e. ground arith;
        })
        | inl free ↦
            let big : length out + 183 ≤ cap = ground arith in
            let (c, sc) = comma_written cap out is_first (omega arith) in
            let l1 = length-append out (comma is_first) in
            let (t, st) = preset_written cap (out ++ comma is_first) p short.0 (omega arith) in
            let l2 = length-append (out ++ comma is_first) (preset_text p) in
            let step : append_preset cap (append_comma cap out is_first) p
                ≡ (out ++ comma is_first) ++ preset_text p =
              ap (λ o. append_preset cap o p) c ∙ t in
            let more =
              encode_presets-Presets ((out ++ comma is_first) ++ preset_text p) false ps short.1
                (omega arith) in
            rw (free, step)
              (record {
                written = p ∷ more.written;
                rest = more.rest;
                split = ap (λ t. p ∷ t) more.split;
                told = more.told;
                text =
                    more.text
                    ∙ append_assoc (out ++ comma is_first) (preset_text p)
                        (presets_text false more.written)
                    ∙ append_assoc out (comma is_first)
                        (preset_text p ++ presets_text false more.written);
                room = more.room;
                full = more.full;
              })
      ]

  -- The folders that the outer loop writes.
  record Folders (out : List ℕ) (is_first : Bool) (fs : List FolderEntry) (r : List ℕ × Bool)
      : Type 0 where
    shown : List FolderEntry
    fair : Shown fs shown r.1
    text : r.0 ≡ out ++ folders_text is_first shown
    room : length r.0 + (21 + spare) ≤ cap
    full : r.1 ≡ true → cap < length r.0 + 183

  encode_folders-Folders :
      (out : List ℕ) (is_first : Bool) (fs : List FolderEntry)
      → All ShortFolder fs
      → length out + (21 + spare) ≤ cap
      → Folders out is_first fs (encode_folders cap out is_first fs)
  unfolding encode_folders
  encode_folders-Folders out is_first [] short h = record {
    shown = [];
    fair = all;
    text = sym (append-nil out);
    room = h;
    full = λ e. cc;
  }
  encode_folders-Folders out is_first (f ∷ fs) short h =
      elim (Bool-cases (leb (length out + 183) cap)) [
        | inr full ↦ rw full (record {
          shown = [];
          fair = cut;
          text = sym (append-nil out);
          room = h;
          full = λ e. ground arith;
        })
        | inl free ↦
            let big : length out + 183 ≤ cap = ground arith in
            let (c, sc) = comma_written cap out is_first (omega arith) in
            let l1 = length-append out (comma is_first) in
            let (t, st) = opening_written cap (out ++ comma is_first) f short.0.0 (omega arith) in
            let begun = (out ++ comma is_first) ++ opening_text f in
            let l2 = length-append (out ++ comma is_first) (opening_text f) in
            let step : open_folder cap (append_comma cap out is_first) f ≡ begun =
              ap (λ o. open_folder cap o f) c ∙ t in
            let inner = encode_presets-Presets begun true f.presets short.0.1 (omega arith) in
            let (closed, size) = inner_closed begun f.presets inner in
            let rest =
              encode_folders-Folders (begun ++ (presets_text true inner.written ++ codes "]}"))
                false fs short.1 size in
            rw (free, step, closed)
              (elim (Bool-cases (encode_presets cap begun true f.presets).1) [
                | inl stopped ↦ rw stopped (record {
                  shown = record f { presets = inner.written } ∷ [];
                  fair = within f inner.written inner.rest inner.split (sym inner.told ∙ stopped);
                  text =
                      sym (append-nil _)
                      ∙ regroup out (comma is_first) (opening_text f)
                          (presets_text true inner.written ++ codes "]}") [];
                  room = size;
                  full = λ e. closed_full begun f.presets inner stopped;
                })
                | inr whole ↦
                    let same : f.presets ≡ inner.written =
                      whole_presets inner.written inner.rest inner.split (sym inner.told ∙ whole) in
                    rw whole (record {
                      shown = f ∷ rest.shown;
                      fair = next rest.fair;
                      text =
                          rest.text
                          ∙ ap
                              (λ ps.
                                (begun ++ (presets_text true ps ++ codes "]}"))
                                ++ folders_text false rest.shown)
                              (sym same)
                          ∙ regroup out (comma is_first) (opening_text f)
                              (presets_text true f.presets ++ codes "]}")
                              (folders_text false rest.shown);
                      room = rest.room;
                      full = rest.full;
                    })
              ])
      ]
    where
      inner_closed :
          (begun : List ℕ) (ps : List PresetEntry)
          → (k : Presets begun true ps (encode_presets cap begun true ps))
          → (append_literal cap (encode_presets cap begun true ps).0 (codes "]}")
              ≡ begun ++ (presets_text true k.written ++ codes "]}"))
            × (length (begun ++ (presets_text true k.written ++ codes "]}")) + (21 + spare) ≤ cap)
      inner_closed begun ps k = (
        append_literal_lem cap (encode_presets cap begun true ps).0 (codes "]}")
              (omega (arith, k.room))
            ∙ ap (λ t. t ++ codes "]}") k.text
            ∙ append_assoc begun (presets_text true k.written) (codes "]}"),
        omega (
          arith,
          ap length k.text,
          k.room,
          length-append begun (presets_text true k.written),
          length-append begun (presets_text true k.written ++ codes "]}"),
          length-append (presets_text true k.written) (codes "]}"),
        ),
      )

      closed_full :
          (begun : List ℕ) (ps : List PresetEntry)
          → (k : Presets begun true ps (encode_presets cap begun true ps))
          → (encode_presets cap begun true ps).1 ≡ true
          → cap < length (begun ++ (presets_text true k.written ++ codes "]}")) + 183
      closed_full begun ps k stopped = omega (
        arith,
        ap length k.text,
        k.full stopped,
        length-append begun (presets_text true k.written),
        length-append begun (presets_text true k.written ++ codes "]}"),
        length-append (presets_text true k.written) (codes "]}"),
      )

      within :
          (f : FolderEntry) {fs : List FolderEntry} (written rest : List PresetEntry)
          → f.presets ≡ written ++ rest
          → not (is_empty rest) ≡ true
          → Shown (f ∷ fs) (record f { presets = written } ∷ []) true
      within f written [] e h = cc
      within f written (p ∷ rest) e h = cut_in p rest e

      whole_presets :
          {ps : List PresetEntry} (written rest : List PresetEntry)
          → ps ≡ written ++ rest
          → not (is_empty rest) ≡ false
          → ps ≡ written
      whole_presets written [] e h = e ∙ append-nil written
      whole_presets written (p ∷ rest) e h = cc

length-end_text : (incomplete : Bool) → length (end_text incomplete) ≤ 21
length-end_text true = omega arith
length-end_text false = omega arith

-- The document, and that `spare` characters of the buffer stay free.
pub encoded_with_spare :
    (cap spare : ℕ) (s : QcCatalogSnapshot)
    → spare ≤ 65
    → 84 + spare ≤ cap
    → All ShortFolder s.folders
    → (shown : List FolderEntry) × (left_out : Bool) × Shown s.folders shown left_out
      × (encode_catalog_json cap s
          ≡ document (record s { folders = shown; incomplete = s.incomplete || left_out }))
      × (length (encode_catalog_json cap s) + spare ≤ cap)
      × (left_out ≡ true → cap < length (encode_catalog_json cap s) + 183)
unfolding encode_catalog_json
encoded_with_spare cap spare s small big short =
    let (head, size) = header_written cap s (omega arith) in
    let k =
      encode_folders-Folders cap spare small (header_text s) true s.folders short (omega arith) in
    let (body, left_out) = encode_folders cap (header_text s) true s.folders in
    let ending = end_written cap body (s.incomplete || left_out) (omega (arith, k.room)) in
    (
      k.shown,
      left_out,
      k.fair,
      rw head (ending ∙ ap (λ t. t ++ end_text (s.incomplete || left_out)) k.text),
      rw (head, ending)
          (omega (
            arith,
            k.room,
            length-append body (end_text (s.incomplete || left_out)),
            length-end_text (s.incomplete || left_out),
          )),
      λ cuts.
          rw (head, ending)
            (omega (arith, k.full cuts, length-append body (end_text (s.incomplete || left_out)))),
    )

-- In a buffer of 84 characters or more, for a snapshot whose names have at most 32, encodeCatalogJson
-- writes a whole document, as if the buffer had no bounds: that of the snapshot with the folders cut
-- off at some point, between two folders or between two presets of the last one shown, or not at all.
-- It is marked incomplete exactly if the snapshot is or at least one folder or preset is left out, and
-- that only happens when the text comes within 183 characters of filling the buffer.
pub encode_catalog_json_lem :
    (cap : ℕ) (s : QcCatalogSnapshot)
    → 84 ≤ cap
    → All ShortFolder s.folders
    → (shown : List FolderEntry) × (left_out : Bool) × Shown s.folders shown left_out
      × (encode_catalog_json cap s
          ≡ document (record s { folders = shown; incomplete = s.incomplete || left_out }))
      × (left_out ≡ true → cap < length (encode_catalog_json cap s) + 183)
encode_catalog_json_lem cap s big short =
    let (shown, left_out, fair, text, size, full) =
      encoded_with_spare cap 0 s (omega arith) (omega arith) short in
    (shown, left_out, fair, text, full)
