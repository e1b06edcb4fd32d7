-- ===== src/Mailbox/Delivery.antt =====
-- The slot under every interleaving of the two threads: what is accepted is delivered, once, in order
-- and as it was submitted.
use qcremote.Prelude.{
  ltb, if◌then◌else◌, Bool-cases, length, All, length-append, All-append, ℕ, suc, ◌+◌, ◌%◌, ◌^◌,
  ◌≤◌, ◌≡◌, refl, sym, ap, ◌∙◌, inl, inr, Bool, true, false, ◌&&◌, ◌||◌, none, some, List, [], ◌∷◌,
  ◌++◌, append-nil, arith,
}
use qcremote.Mailbox.{Item, Mailbox, empty_mailbox, submit, take_item, release}

-- `holding` while the worker is between `k_sem_take` and the end of its round; it reads the slot there.
pub record Threads : Type 0 where
  pub box : Mailbox
  pub holding : Bool
  pub accepted : List Item
  pub delivered : List Item

-- What a thread does next. A worker's event that cannot happen now changes nothing.
pub data Event : Type 0 where
  submits : Item → Event
  takes : Event
  delivers : Event

unfoldable pub submitted : ℕ → Threads → Item → Threads
submitted capacity t i = record t {
  box = (submit capacity t.box i).1;
  accepted = if (submit capacity t.box i).0 then t.accepted ++ i ∷ [] else t.accepted;
}

unfoldable pub taken : Threads → Threads
taken t = elim (take_item t.box) [ none ↦ t | some box ↦ record t { box = box; holding = true } ]

unfoldable pub delivered_item : Threads → Threads
delivered_item t = record t {
  box = release t.box;
  holding = false;
  delivered = t.delivered ++ t.box.item ∷ [];
}

unfoldable pub happens : ℕ → Threads → Event → Threads
happens capacity t (submits i) = submitted capacity t i
happens capacity t takes = if t.holding then t else taken t
happens capacity t delivers = if t.holding then delivered_item t else t

unfoldable pub run_events : ℕ → Threads → List Event → Threads
run_events capacity t [] = t
run_events capacity t (e ∷ es) = run_events capacity (happens capacity t e) es

abbrev pub at_rest : Threads
at_rest = record { box = empty_mailbox; holding = false; accepted = []; delivered = [] }

abbrev pub submissions : List Event → ℕ
submissions [] = 0
submissions (submits i ∷ es) = suc (submissions es)
submissions (takes ∷ es) = submissions es
submissions (delivers ∷ es) = submissions es

-- The items that are accepted and not yet delivered.
abbrev pub in_flight : Threads → List Item
in_flight t = if t.box.busy then t.box.item ∷ [] else []

pub record IsValid (capacity : ℕ) (t : Threads) : Type 0 where
  pub nothing_lost : t.accepted ≡ t.delivered ++ in_flight t
  pub one_owner : t.box.busy ≡ (t.box.ready || t.holding)
  pub not_both : (t.box.ready && t.holding) ≡ false
  pub fits : All (λ i. length i.bytes ≤ capacity) t.accepted

module _ (capacity : ℕ) where
  submits-IsValid :
      (t : Threads) (i : Item) → IsValid capacity t → IsValid capacity (submitted capacity t i)
  unfolding submitted submit
  submits-IsValid t i v = elim (Bool-cases t.box.busy) [
    | inl busy ↦ simp busy (record {
      nothing_lost = ground (arith, v.nothing_lost);
      one_owner = ground (arith, v.one_owner);
      not_both = v.not_both;
      fits = v.fits;
    })
    | inr free ↦ elim (Bool-cases (ltb capacity (length i.bytes))) [
      | inl big ↦
          simp (free, big)
            (record {
              nothing_lost = ground (arith, v.nothing_lost);
              one_owner = ground (arith, v.one_owner);
              not_both = v.not_both;
              fits = v.fits;
            })
      | inr small ↦
          let all : t.accepted ≡ t.delivered = v.nothing_lost ∙ rw free (append-nil t.delivered) in
          simp (free, small)
            (record {
              nothing_lost = ap (λ l. l ++ i ∷ []) all;
              one_owner = ground (arith, v.one_owner);
              not_both = ground (arith, v.one_owner);
              fits = All-append _ t.accepted (i ∷ []) v.fits (ground arith, tt);
            })
    ]
  ]

  taken-IsValid :
      (t : Threads) → t.holding ≡ false → IsValid capacity t → IsValid capacity (taken t)
  unfolding taken
  taken-IsValid t idle v = elim (Bool-cases t.box.ready) [
    | inl ready ↦
        let took : take_item t.box ≡ some (record t.box { ready = false }) =
          unfold take_item in ground arith in
        rw (took, taken)
          (record {
            nothing_lost = v.nothing_lost;
            one_owner = ground (arith, v.one_owner);
            not_both = refl;
            fits = v.fits;
          })
    | inr nothing ↦
        let waits : take_item t.box ≡ none = unfold take_item in ground arith in rw (waits, taken) v
  ]

  delivered-IsValid :
      (t : Threads) → t.holding ≡ true → IsValid capacity t → IsValid capacity (delivered_item t)
  unfolding delivered_item release
  delivered-IsValid t held v =
      let busy : t.box.busy ≡ true = ground (arith, v.one_owner) in
      record {
        nothing_lost = v.nothing_lost ∙ rw busy (sym (append-nil (t.delivered ++ t.box.item ∷ [])));
        one_owner = ground (arith, v.not_both);
        not_both = ground arith;
        fits = v.fits;
      }

  happens-IsValid :
      (t : Threads) (e : Event) → IsValid capacity t → IsValid capacity (happens capacity t e)
  unfolding happens
  happens-IsValid t (submits i) v = submits-IsValid t i v
  happens-IsValid t takes v = elim (Bool-cases t.holding) [
    | inl held ↦ simp held v
    | inr idle ↦ simp idle (taken-IsValid t idle v)
  ]
  happens-IsValid t delivers v = elim (Bool-cases t.holding) [
    | inl held ↦ simp held (delivered-IsValid t held v)
    | inr idle ↦ simp idle v
  ]

  events-IsValid :
      (t : Threads) (es : List Event)
      → IsValid capacity t
      → IsValid capacity (run_events capacity t es)
  unfolding run_events
  events-IsValid t [] v = v
  events-IsValid t (e ∷ es) v = events-IsValid (happens capacity t e) es (happens-IsValid t e v)

  abbrev counted : Threads → ℕ
  counted t = length t.accepted + t.box.dropped_count

  submitted-counted :
      (t : Threads) (i : Item)
      → counted (submitted capacity t i) % 2 ^ 32 ≡ (counted t + 1) % 2 ^ 32
  unfolding submitted submit
  submitted-counted t i = ground (arith, length-append t.accepted (i ∷ []))

  taken-counted : (t : Threads) → counted (taken t) ≡ counted t
  unfolding taken take_item
  taken-counted t = ground arith

  delivered-counted : (t : Threads) → counted (delivered_item t) ≡ counted t
  unfolding delivered_item release
  delivered-counted t = refl

  run_events-counted :
      (t : Threads) (es : List Event)
      → counted (run_events capacity t es) % 2 ^ 32 ≡ (counted t + submissions es) % 2 ^ 32
  unfolding run_events happens
  run_events-counted t [] = omega arith
  run_events-counted t (submits i ∷ es) =
      omega (arith, submitted-counted t i, run_events-counted (submitted capacity t i) es)
  run_events-counted t (takes ∷ es) = elim (Bool-cases t.holding) [
    | inl held ↦ simp held (run_events-counted t es)
    | inr idle ↦ simp idle (omega (arith, taken-counted t, run_events-counted (taken t) es))
  ]
  run_events-counted t (delivers ∷ es) = elim (Bool-cases t.holding) [
    | inl held ↦
        simp held (omega (arith, delivered-counted t, run_events-counted (delivered_item t) es))
    | inr idle ↦ simp idle (run_events-counted t es)
  ]

at_rest-IsValid : (capacity : ℕ) → IsValid capacity at_rest
at_rest-IsValid capacity = record {
  nothing_lost = refl;
  one_owner = refl;
  not_both = refl;
  fits = tt;
}

-- However the submissions and the worker's rounds interleave from an empty slot: the accepted items
-- are the delivered ones, in order and as they were submitted, and at most the one in the slot behind
-- them; the slot is busy exactly while an item waits or the worker holds one, never both; and every
-- accepted item fits the slot.
pub run_events-IsValid :
    (capacity : ℕ) (es : List Event) → IsValid capacity (run_events capacity at_rest es)
run_events-IsValid capacity es = events-IsValid capacity at_rest es (at_rest-IsValid capacity)

-- Every submission is accepted or counted as dropped: their numbers add up modulo 2^32, the counter's
-- width.
pub accepted_or_dropped :
    (capacity : ℕ) (es : List Event)
    → (length (run_events capacity at_rest es).accepted
          + (run_events capacity at_rest es).box.dropped_count)
        % 2 ^ 32
      ≡ submissions es % 2 ^ 32
accepted_or_dropped capacity es = omega (arith, run_events-counted capacity at_rest es)
