-- ===== src/Usb/Endpoints.antt =====
-- usbh_shim.c: which endpoint discover_endpoints records.
use qcremote.Prelude.{
  if◌then◌else◌, lt→ltb, take, ℕ, zero, suc, ◌+◌, ◌≡◌, refl, List, [], ◌∷◌, arith,
}
use qcremote.Usb.{
  Descriptor, Shim, UsbIfDescriptor, discover_endpoints, is_in, other_descriptor, walk_descriptors,
  endpoint, interface,
}

-- The endpoints before the next interface.
abbrev pub addresses : List Descriptor → List ℕ
addresses [] = []
addresses (interface ∷ ds) = []
addresses (endpoint address ∷ ds) = address ∷ addresses ds
addresses (other_descriptor ∷ ds) = addresses ds

abbrev pub last_in : ℕ → List ℕ → ℕ
last_in ep [] = ep
last_in ep (a ∷ more) = last_in (if is_in a then a else ep) more

walk_descriptors_lem :
    (n left found ep : ℕ) (ds : List Descriptor)
    → n ≡ found + left
    → walk_descriptors n found ep ds ≡ last_in ep (take left (addresses ds))
unfolding walk_descriptors
walk_descriptors_lem n zero found ep [] h = refl
walk_descriptors_lem n (suc left) found ep [] h = refl
walk_descriptors_lem n zero found ep (interface ∷ ds) h = refl
walk_descriptors_lem n (suc left) found ep (interface ∷ ds) h = refl
walk_descriptors_lem n zero found ep (endpoint a ∷ ds) h = ground arith
walk_descriptors_lem n (suc left) found ep (endpoint a ∷ ds) h =
    rw (lt→ltb found n (omega arith))
      (walk_descriptors_lem n left (found + 1) (if is_in a then a else ep) ds (omega arith))
walk_descriptors_lem n zero found ep (other_descriptor ∷ ds) h = ground arith
walk_descriptors_lem n (suc left) found ep (other_descriptor ∷ ds) h =
    rw (lt→ltb found n (omega arith)) (walk_descriptors_lem n (suc left) found ep ds h)

-- The endpoint recorded is the last IN endpoint among the first `bNumEndpoints` endpoints that stand
-- before the next interface; it is 0 where none of them is an IN endpoint. Nothing else changes.
pub discover_endpoints_lem :
    (s : Shim) (d : UsbIfDescriptor)
    → discover_endpoints s d
      ≡ record s { ep_in = last_in 0 (take d.num_endpoints (addresses d.following)) }
unfolding discover_endpoints
discover_endpoints_lem s d = λ i. record s {
  ep_in = walk_descriptors_lem d.num_endpoints d.num_endpoints 0 0 d.following (omega arith) i;
}
