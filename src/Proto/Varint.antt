-- ===== src/Proto/Varint.antt =====
-- Varints: what is written, what is read back, and how far a read goes.
use qcremote.Prelude.{
  leb, if◌then◌else◌, le→leb, lt→leb, length, ℕ, zero, suc, ◌+◌, ◌*◌, ◌/◌, ◌%◌, ◌^◌, ◌≤◌, ◌<◌,
  bit_and, bit_or, ◌≡◌, refl, ap, ◌∙◌, some, List, [], ◌∷◌, ◌++◌, append_assoc, arith,
}
use mathlib.Core.Logic.{dif_pos, dif_neg}
use mathlib.Core.WellFounded.{Acc}
use native.Mathlib.Bridge.{le_prop}
use native.Mathlib.Decide.{dec_le}
use native.Mathlib.Nat.{div-add-mod, mod-eq_of_lt}
use native.Mathlib.Numerals.{towards_suc}
use qcremote.Prelude.Bits.{low_bits, top_bit, set_top_bit}
use qcremote.Prelude.Words.{or_above}
use qcremote.Prelude.Order.{lt_wf}
use qcremote.Proto.Writer.{write_varint_loop, write_varint, shift_shrinks}
use qcremote.Proto.Reader.{read_varint_loop, read_varint}

-- The seven-bit groups of a number below 128 ^ (k + 1), lowest first, the top bit on all but the last.
unfoldable pub groups : ℕ → ℕ → List ℕ
groups zero v = v ∷ []
groups (suc k) v =
    let rest = groups k (v / 128) in if leb 128 v then (v % 128 + 128) ∷ rest else v ∷ []

-- A 64-bit number takes ten groups at most.
abbrev pub varint_bytes : ℕ → List ℕ
varint_bytes v = groups 9 v

group_byte : (v : ℕ) → bit_or (v % 256) 0x80 ≡ v % 128 + 128
group_byte v = rw (set_top_bit (v % 256) (omega arith)) (omega arith)

write_varint_loop-groups :
    (k : ℕ) (out : List ℕ) (v : ℕ) (w : Acc ◌<◌ v)
    → v < 128 ^ suc k
    → write_varint_loop out v w ≡ out ++ groups k v
unfolding write_varint_loop groups
write_varint_loop-groups zero out v (Acc.intro _ smaller) h =
    let byte : v % 256 ≡ v = omega arith in rw (dif_neg (dec_le 0x80 v) (omega arith), byte) refl
write_varint_loop-groups (suc k) out v (Acc.intro _ smaller) h = elim (dec_le 0x80 v) [
  | yes big ↦
      rw (dif_pos (dec_le 0x80 v) le_prop big, le→leb 128 v big, group_byte v)
        (write_varint_loop-groups k (out ++ (v % 128 + 128) ∷ []) (v / 2 ^ 7)
            (smaller _ (shift_shrinks v big)) (omega arith)
          ∙ append_assoc out ((v % 128 + 128) ∷ []) (groups k (v / 128)))
  | no small ↦
      let byte : v % 256 ≡ v = omega arith in
      rw (dif_neg (dec_le 0x80 v) small, byte, lt→leb 128 v (omega arith)) refl
]

-- On every 64-bit number the loop appends the number's groups.
pub write_varint-groups :
    (out : List ℕ) (v : ℕ) → v < 2 ^ 64 → write_varint out v ≡ out ++ varint_bytes v
unfolding write_varint
write_varint-groups out v h = write_varint_loop-groups 9 out v (lt_wf.apply v) (omega arith)

pub length-groups : (k v : ℕ) → (1 ≤ length (groups k v)) × (length (groups k v) ≤ k + 1)
unfolding groups
length-groups zero v = omega arith
length-groups (suc k) v = ground (arith, length-groups k (v / 128))

last_byte :
    (w out shift : ℕ) (rest : List ℕ)
    → w < 128
    → out < 2 ^ shift
    → out + w * 2 ^ shift < 2 ^ 64
    → read_varint_loop (w ∷ rest) out shift ≡ some (out + w * 2 ^ shift, rest)
unfolding read_varint_loop
last_byte w out shift rest hw ho fits =
    let low : bit_and w 0x7F ≡ w = low_bits w (omega arith) ∙ omega arith in
    let top : bit_and w 0x80 ≡ 0 = top_bit w (omega arith) ∙ omega arith in
    let kept : w * 2 ^ shift % 2 ^ 64 ≡ w * 2 ^ shift = mod-eq_of_lt (omega arith) in
    rw (low, top, kept, or_above shift out w ho) refl

inner_byte :
    (g out shift : ℕ) (rest : List ℕ)
    → g < 128
    → out < 2 ^ shift
    → shift + 7 < 64
    → out + g * 2 ^ shift < 2 ^ 64
    → read_varint_loop ((g + 128) ∷ rest) out shift
      ≡ read_varint_loop rest (out + g * 2 ^ shift) (shift + 7)
unfolding read_varint_loop
inner_byte g out shift rest hg ho hs fits =
    let low : bit_and (g + 128) 0x7F ≡ g = low_bits (g + 128) (omega arith) ∙ omega arith in
    let top : bit_and (g + 128) 0x80 ≡ 128 = top_bit (g + 128) (omega arith) ∙ omega arith in
    let kept : g * 2 ^ shift % 2 ^ 64 ≡ g * 2 ^ shift = mod-eq_of_lt (omega arith) in
    rw (low, top, kept, or_above shift out g ho, lt→leb 64 (shift + 7) hs) refl

shift_seven : (s : ℕ) → 2 ^ (s + 7) ≡ 128 * 2 ^ s
shift_seven s = simp towards_suc (omega arith)

-- The lowest group of `v` and the others, all shifted by `s`.
split_group : (v s : ℕ) → v * 2 ^ s ≡ v % 128 * 2 ^ s + v / 128 * 2 ^ (s + 7)
split_group v s = omega (
  arith,
  ap (λ (t : ℕ). t * 2 ^ s) (div-add-mod v 128),
  ap (λ (t : ℕ). v / 128 * t) (shift_seven s),
)

group_below : (g out s : ℕ) → g < 128 → out < 2 ^ s → out + g * 2 ^ s < 2 ^ (s + 7)
group_below g out s hg ho = rw (shift_seven s) (grind arith)

read_varint_loop-groups :
    (k v out shift : ℕ) (rest : List ℕ)
    → v < 128 ^ suc k
    → shift + 7 * k ≤ 63
    → out < 2 ^ shift
    → out + v * 2 ^ shift < 2 ^ 64
    → read_varint_loop (groups k v ++ rest) out shift ≡ some (out + v * 2 ^ shift, rest)
unfolding groups
read_varint_loop-groups zero v out shift rest hv hs ho fits =
    last_byte v out shift rest (omega arith) ho fits
read_varint_loop-groups (suc k) v out shift rest hv hs ho fits = ground (
  arith,
  last_byte v out shift rest,
  split_group v shift,
  inner_byte (v % 128) out shift (groups k (v / 128) ++ rest),
  group_below (v % 128) out shift,
  read_varint_loop-groups k (v / 128) (out + v % 128 * 2 ^ shift) (shift + 7) rest (omega arith),
)

pub read_varint-varint_bytes :
    (v : ℕ) (rest : List ℕ) → v < 2 ^ 64 → read_varint (varint_bytes v ++ rest) ≡ some (v, rest)
unfolding read_varint
read_varint-varint_bytes v rest h =
    let all : 0 + v * 2 ^ 0 ≡ v = omega arith in
    rw all at
      (read_varint_loop-groups 9 v 0 0 rest (omega arith) (omega arith) (omega arith) (omega arith))

-- What `readVarint` reads back from the bytes that `writeVarint` appended is the number, and it
-- leaves whatever follows them.
pub read_varint-write_varint :
    (v : ℕ) (rest : List ℕ) → v < 2 ^ 64 → read_varint (write_varint [] v ++ rest) ≡ some (v, rest)
read_varint-write_varint v rest h =
    rw (write_varint-groups [] v h) (read_varint-varint_bytes v rest h)
