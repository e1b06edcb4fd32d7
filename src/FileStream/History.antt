-- ===== src/FileStream/History.antt =====
-- What the stream has recorded, as a function of the messages that it saw.
use qcremote.Prelude.{
  length, ℕ, ◌+◌, ◌%◌, ◌<◌, max, ◌≡◌, refl, ap, ◌∙◌, Bool, true, false, Option, none, some, List,
  [], ◌∷◌, arith,
}
use qcremote.FileStream.{FileStream, word_mod, start, on_message, on_inflate_failed}

-- A File message that was decoded, or whose gzip payload could not be inflated, and when.
pub data Event : Type 0 where
  message : ℕ → ℕ → ℕ → Bool → Event
  failed : ℕ → ℕ → Option ℕ → Event

unfoldable pub handle : FileStream → Event → FileStream
handle s (message now wire inflated compressed) = on_message s now wire inflated compressed
handle s (failed now wire size) = on_inflate_failed s now wire size

unfoldable pub handle_all : FileStream → List Event → FileStream
handle_all s [] = s
handle_all s (e ∷ es) = handle_all (handle s e) es

-- What an event adds to each count.
abbrev pub wire_of : Event → ℕ
wire_of (message now wire inflated compressed) = wire
wire_of (failed now wire size) = wire

abbrev pub time_of : Event → ℕ
time_of (message now wire inflated compressed) = now
time_of (failed now wire size) = now

-- The bytes that were really inflated, and the size that the largest is measured by.
abbrev pub inflated_of : Event → ℕ
inflated_of (message now wire inflated compressed) = inflated
inflated_of (failed now wire size) = 0

abbrev pub known_size : Event → ℕ
known_size (message now wire inflated compressed) = inflated
known_size (failed now wire none) = 0
known_size (failed now wire (some size)) = size

abbrev pub compressed_of : Event → ℕ
compressed_of (message now wire inflated true) = 1
compressed_of (message now wire inflated false) = 0
compressed_of (failed now wire size) = 0

abbrev pub failed_of : Event → ℕ
failed_of (message now wire inflated compressed) = 0
failed_of (failed now wire size) = 1

abbrev pub sum_of : (Event → ℕ) → List Event → ℕ
sum_of f [] = 0
sum_of f (e ∷ es) = f e + sum_of f es

abbrev pub largest : (Event → ℕ) → List Event → ℕ
largest f [] = 0
largest f (e ∷ es) = max (f e) (largest f es)

abbrev pub last_time : ℕ → List Event → ℕ
last_time t [] = t
last_time t (e ∷ es) = last_time (time_of e) es

record IsWord (s : FileStream) : Type 0 where
  messages : s.message_count < word_mod
  compresseds : s.compressed_count < word_mod
  faileds : s.failed_count < word_mod
  wires : s.total_wire_bytes < word_mod
  inflateds : s.total_inflated_bytes < word_mod

-- One event on an active stream.
record Recorded (s : FileStream) (e : Event) (t : FileStream) : Type 0 where
  active : t.active ≡ true
  messages : t.message_count ≡ (s.message_count + 1) % word_mod
  compresseds : t.compressed_count ≡ (s.compressed_count + compressed_of e) % word_mod
  faileds : t.failed_count ≡ (s.failed_count + failed_of e) % word_mod
  wires : t.total_wire_bytes ≡ (s.total_wire_bytes + wire_of e) % word_mod
  inflateds : t.total_inflated_bytes ≡ (s.total_inflated_bytes + inflated_of e) % word_mod
  max_wire : t.max_wire_bytes ≡ max s.max_wire_bytes (wire_of e)
  max_inflated : t.max_inflated_bytes ≡ max s.max_inflated_bytes (known_size e)
  started : t.started_at_ms ≡ s.started_at_ms
  last : t.last_message_at_ms ≡ time_of e

handle-Recorded :
    (s : FileStream) (e : Event) → s.active ≡ true → IsWord s → Recorded s e (handle s e)
unfolding handle on_message on_inflate_failed
handle-Recorded s (message now wire inflated true) a w = ground arith
handle-Recorded s (message now wire inflated false) a w = ground arith
handle-Recorded s (failed now wire none) a w = ground arith
handle-Recorded s (failed now wire (some size)) a w = ground arith

record AllRecorded (s : FileStream) (es : List Event) (t : FileStream) : Type 0 where
  active : t.active ≡ true
  messages : t.message_count ≡ (s.message_count + length es) % word_mod
  compresseds : t.compressed_count ≡ (s.compressed_count + sum_of compressed_of es) % word_mod
  faileds : t.failed_count ≡ (s.failed_count + sum_of failed_of es) % word_mod
  wires : t.total_wire_bytes ≡ (s.total_wire_bytes + sum_of wire_of es) % word_mod
  inflateds : t.total_inflated_bytes ≡ (s.total_inflated_bytes + sum_of inflated_of es) % word_mod
  max_wire : t.max_wire_bytes ≡ max s.max_wire_bytes (largest wire_of es)
  max_inflated : t.max_inflated_bytes ≡ max s.max_inflated_bytes (largest known_size es)
  started : t.started_at_ms ≡ s.started_at_ms
  last : t.last_message_at_ms ≡ last_time s.last_message_at_ms es

add_step :
    (s t x y r : ℕ) → t ≡ (s + x) % word_mod → r ≡ (t + y) % word_mod → r ≡ (s + (x + y)) % word_mod
add_step s t x y r p q = omega arith

step_then :
    (s : FileStream) (e : Event) (es : List Event) (u t : FileStream)
    → Recorded s e u
    → AllRecorded u es t
    → AllRecorded s (e ∷ es) t
step_then s e es u t h k = record {
  active = k.active;
  messages = omega (arith, h.messages, k.messages);
  compresseds =
      add_step _ _ (compressed_of e) (sum_of compressed_of es) _ h.compresseds k.compresseds;
  faileds = add_step _ _ (failed_of e) (sum_of failed_of es) _ h.faileds k.faileds;
  wires = add_step _ _ (wire_of e) (sum_of wire_of es) _ h.wires k.wires;
  inflateds = add_step _ _ (inflated_of e) (sum_of inflated_of es) _ h.inflateds k.inflateds;
  max_wire = omega (arith, h.max_wire, k.max_wire);
  max_inflated = omega (arith, h.max_inflated, k.max_inflated);
  started = k.started ∙ h.started;
  last = k.last ∙ ap (λ x. last_time x es) h.last;
}

word_of : (n m : ℕ) → n ≡ m % word_mod → n < word_mod
word_of n m e = omega arith

Recorded-IsWord : (s : FileStream) (e : Event) (t : FileStream) → Recorded s e t → IsWord t
Recorded-IsWord s e t h = record {
  messages = word_of _ _ h.messages;
  compresseds = word_of _ _ h.compresseds;
  faileds = word_of _ _ h.faileds;
  wires = word_of _ _ h.wires;
  inflateds = word_of _ _ h.inflateds;
}

handle_all-AllRecorded :
    (es : List Event) (s : FileStream)
    → s.active ≡ true
    → IsWord s
    → AllRecorded s es (handle_all s es)
unfolding handle_all
handle_all-AllRecorded [] s a w = record {
  active = a;
  messages = omega (arith, w.messages);
  compresseds = omega (arith, w.compresseds);
  faileds = omega (arith, w.faileds);
  wires = omega (arith, w.wires);
  inflateds = omega (arith, w.inflateds);
  max_wire = omega arith;
  max_inflated = omega arith;
  started = refl;
  last = refl;
}
handle_all-AllRecorded (e ∷ es) s a w =
    let h : Recorded s e (handle s e) = handle-Recorded s e a w in
    step_then s e es (handle s e) _ h
      (handle_all-AllRecorded es (handle s e) h.active (Recorded-IsWord s e _ h))

zero_add : (n m : ℕ) → n ≡ (0 + m) % word_mod → n ≡ m % word_mod
zero_add n m e = omega arith

zero_max : (n m : ℕ) → n ≡ max 0 m → n ≡ m
zero_max n m e = omega arith

-- The stream after `start` at `t0` and the events `es`, whatever it was before.
abbrev pub seen : ℕ → List Event → FileStream
seen t0 es = record {
  active = true;
  message_count = length es % word_mod;
  compressed_count = sum_of compressed_of es % word_mod;
  failed_count = sum_of failed_of es % word_mod;
  total_wire_bytes = sum_of wire_of es % word_mod;
  total_inflated_bytes = sum_of inflated_of es % word_mod;
  max_wire_bytes = largest wire_of es;
  max_inflated_bytes = largest known_size es;
  started_at_ms = t0;
  last_message_at_ms = last_time t0 es;
}

-- A stream that is started and then handles a list of messages and failed inflates holds their
-- number, the numbers compressed and failed and the bytes on the wire and inflated (each modulo
-- 2^32), the largest size of each kind (the size of a failed one where it is known), the start and
-- the time of the last message; nothing of an earlier stream is left.
pub handle_all-start :
    (s : FileStream) (t0 : ℕ) (es : List Event) → handle_all (start s t0) es ≡ seen t0 es
unfolding start
handle_all-start s t0 es = same (handle_all-AllRecorded es (start s t0) refl (omega arith))
  where
    same :
        AllRecorded (start s t0) es (handle_all (start s t0) es)
        → handle_all (start s t0) es ≡ seen t0 es
    same k = λ i. record {
      active = k.active i;
      message_count = zero_add _ (length es) k.messages i;
      compressed_count = zero_add _ (sum_of compressed_of es) k.compresseds i;
      failed_count = zero_add _ (sum_of failed_of es) k.faileds i;
      total_wire_bytes = zero_add _ (sum_of wire_of es) k.wires i;
      total_inflated_bytes = zero_add _ (sum_of inflated_of es) k.inflateds i;
      max_wire_bytes = zero_max _ (largest wire_of es) k.max_wire i;
      max_inflated_bytes = zero_max _ (largest known_size es) k.max_inflated i;
      started_at_ms = k.started i;
      last_message_at_ms = k.last i;
    }
