-- ===== src/Prelude/Text.antt =====
-- Text literals of the source as lists of bytes, bounded strings, and equality of byte strings.
use Prim.Native.Nat.{ℕ, ◌≤◌}
use Prim.Native.Char.{code}
use Prim.Native.String.{String}
use mathlib.Core.Path.{◌≡◌}
use mathlib.Core.Bool.{Bool, true, false, ◌&&◌}
use mathlib.Core.List.{List, [], ◌∷◌}
use native.Mathlib.Omega.{arith}
use qcremote.Prelude.Tests.{◌==◌}
use qcremote.Prelude.Lists.{length, take, length-take, take-length}

-- The bytes of an ASCII literal.
abbrev pub codes : String → List ℕ
codes String.[] = []
codes (String.◌∷◌ c s) = code c ∷ codes s

-- `operator==` of string_view.
abbrev pub same_bytes : List ℕ → List ℕ → Bool
same_bytes [] [] = true
same_bytes [] (y ∷ ys) = false
same_bytes (x ∷ xs) [] = false
same_bytes (x ∷ xs) (y ∷ ys) = x == y && same_bytes xs ys

-- `etl::string<Capacity>::assign`, a library that the firmware only calls: a text that fits is
-- kept, and the result fits in any case.
pub record EtlString : Type 0 where
  pub assign : ℕ → List ℕ → List ℕ
  pub assign_fits : (capacity : ℕ) (s : List ℕ) → length s ≤ capacity → assign capacity s ≡ s
  pub assign_bounded : (capacity : ℕ) (s : List ℕ) → length (assign capacity s) ≤ capacity

pub truncate_bounded : (capacity : ℕ) (s : List ℕ) → length (take capacity s) ≤ capacity
truncate_bounded capacity s = omega (arith, length-take capacity s)

-- One way to meet these laws: the text is cut off at the capacity.
abbrev pub truncating : EtlString
truncating = record { assign = take; assign_fits = take-length; assign_bounded = truncate_bounded }
