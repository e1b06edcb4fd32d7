-- ===== src/Web/Clients/Pushes.antt =====
-- QcWifiWebTransport.hpp: a push of broadcast's loop leaves no client behind.
use qcremote.Prelude.{
  ◌==◌, if◌then◌else◌, Bool-cases, ℕ, ◌≡◌, refl, ◌⊎◌, inl, inr, Bool, true, false, List, ◌∷◌, arith,
}
use qcremote.Catalog.Snapshot.{QcCatalogSnapshot}
use qcremote.Web.Threads.{World, push, pushing}
use qcremote.Web.Clients.{Distinct-erase, contains-erase, contains-erase_self, length-erase}
use qcremote.Web.{push_to, remove_ws_client}
use qcremote.Web.Clients.Informed.{
  Current, Informed, IsValid, Shows, again_soon, awake, current, in_turn, not_pushing, signalled,
  told,
}

-- A push to one client is none to another.
other_client :
    {is_signalled : Bool} {snapshot : QcCatalogSnapshot} {sent : List (ℕ × List ℕ)} (text : List ℕ)
    (sock : ℕ) (rest : List ℕ) (is_sent : Bool) (s : ℕ)
    → (sock == s) ≡ false
    → Informed is_signalled snapshot (pushing text (sock ∷ rest)) sent s
    → Informed is_signalled snapshot
        (pushing text rest)
        (if is_sent then (sock, text) ∷ sent else sent)
        s
other_client text sock rest is_sent s ne (signalled e) = signalled e
other_client text sock rest is_sent s ne (awake e) = ground arith
other_client text sock rest is_sent s ne (in_turn e) = in_turn (ground arith)
other_client text sock rest true s ne (told t e shows) = told t (rw ne e) shows
other_client text sock rest false s ne (told t e shows) = told t e shows

up_to_date :
    {is_signalled : Bool} {snapshot : QcCatalogSnapshot} (text rest : List ℕ)
    → Current is_signalled snapshot (pushing text rest)
    → (is_signalled ≡ true) ⊎ Shows snapshot text
up_to_date text rest (again_soon e) = inl e
up_to_date text rest (not_pushing e) = ground arith
up_to_date {snapshot = snapshot} text rest (current t r e shows) =
    let same : text ≡ t = cc in inr (rw same shows)

still_Current :
    {is_signalled : Bool} {snapshot : QcCatalogSnapshot} (text : List ℕ) (sock : ℕ) (rest : List ℕ)
    → Current is_signalled snapshot (pushing text (sock ∷ rest))
    → Current is_signalled snapshot (pushing text rest)
still_Current text sock rest c = elim (up_to_date text (sock ∷ rest) c) [
  | inl e ↦ again_soon e
  | inr shows ↦ current text rest refl shows
]

pub pushes-IsValid :
    (w : World) (text : List ℕ) (sock : ℕ) (rest : List ℕ) (is_sent : Bool)
    → w.worker ≡ pushing text (sock ∷ rest)
    → IsValid w
    → IsValid (push w text sock rest is_sent)
unfolding push push_to remove_ws_client
pushes-IsValid w text sock rest true h v =
    let c = rw h at v.current in
    record {
      few = v.few;
      distinct = v.distinct;
      informed = λ s k. elim (Bool-cases (sock == s)) [
        | inl same ↦ elim (up_to_date text (sock ∷ rest) c) [
          | inl e ↦ signalled e
          | inr shows ↦ told text (rw same refl) shows
        ]
        | inr ne ↦ other_client text sock rest true s ne (rw h at (v.informed s k))
      ];
      current = still_Current text sock rest c;
    }
pushes-IsValid w text sock rest false h v = record {
  few = omega (arith, v.few, length-erase sock w.transport.ws_sockets);
  distinct = Distinct-erase sock w.transport.ws_sockets v.distinct;
  informed = λ s k. elim (Bool-cases (sock == s)) [
    | inl same ↦ ground (arith, contains-erase_self sock w.transport.ws_sockets v.distinct)
    | inr ne ↦
        other_client text sock rest false s ne
          (rw h at (v.informed s (contains-erase s sock w.transport.ws_sockets k)))
  ];
  current = still_Current text sock rest (rw h at v.current);
}
