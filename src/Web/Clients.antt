-- ===== src/Web/Clients.antt =====
-- QcWifiWebTransport.hpp: the list of the clients. It holds each socket once and at most two of them,
-- and whoever stands in it has been pushed the last listing, or is about to be.
pub mod Informed
pub mod Steps
pub mod Pushes
pub mod Reached
use qcremote.Prelude.{
  ◌==◌, Bool-cases, length, ℕ, ◌≤◌, ◌≡◌, refl, inl, inr, true, false, ◌||◌, List, [], ◌∷◌, ◌++◌,
  arith,
}
use qcremote.Web.Threads.{contains}
use qcremote.Web.{erase}

abbrev pub Distinct : List ℕ → Type 0
Distinct [] = Unit
Distinct (s ∷ ss) = (contains s ss ≡ false) × Distinct ss

pub contains-erase : (x s : ℕ) (ss : List ℕ) → contains x (erase s ss) ≡ true → contains x ss ≡ true
unfolding erase
contains-erase x s [] h = h
contains-erase x s (t ∷ ss) h = ground (arith, contains-erase x s ss)

not_contains-erase :
    (x s : ℕ) (ss : List ℕ) → contains x ss ≡ false → contains x (erase s ss) ≡ false
unfolding erase
not_contains-erase x s [] h = refl
not_contains-erase x s (t ∷ ss) h = ground (arith, not_contains-erase x s ss)

pub contains-erase_self : (s : ℕ) (ss : List ℕ) → Distinct ss → contains s (erase s ss) ≡ false
unfolding erase
contains-erase_self s [] h = refl
contains-erase_self s (t ∷ ss) h = ground (arith, contains-erase_self s ss h.1)

pub Distinct-erase : (s : ℕ) (ss : List ℕ) → Distinct ss → Distinct (erase s ss)
unfolding erase
Distinct-erase s [] h = h
Distinct-erase s (t ∷ ss) h = elim (Bool-cases (t == s)) [
  | inl same ↦ rw same h.1
  | inr other ↦ rw other (not_contains-erase t s ss h.0, Distinct-erase s ss h.1)
]

pub length-erase : (s : ℕ) (ss : List ℕ) → length (erase s ss) ≤ length ss
unfolding erase
length-erase s [] = omega arith
length-erase s (t ∷ ss) = ground (arith, length-erase s ss)

pub contains-append_one :
    (x s : ℕ) (ss : List ℕ) → contains x (ss ++ s ∷ []) ≡ (contains x ss || (s == x))
contains-append_one x s [] = ground arith
contains-append_one x s (t ∷ ss) = ground (arith, contains-append_one x s ss)

pub Distinct-append_one :
    (s : ℕ) (ss : List ℕ) → contains s ss ≡ false → Distinct ss → Distinct (ss ++ s ∷ [])
Distinct-append_one s [] h d = (refl, tt)
Distinct-append_one s (t ∷ ss) h d =
    (ground (arith, contains-append_one t s ss, d.0), Distinct-append_one s ss (ground arith) d.1)
