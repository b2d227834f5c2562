-- ===== src/Service/Ordinals.antt =====
-- What the sessions of a service keep: the ordinals are each given once, and every channel that was opened is in
-- a session or closed.
use go_ipc.Prelude.{
  ℕ, ◌+◌, ◌<◌, ◌≡◌, ◌⊎◌, inl, inr, Bool-cases, true, false, ◌&&◌, Option, none, some, List, [], ◌∷◌,
  ◌==◌, if◌then◌else◌, if_both, refl, arith,
}
use go_ipc.Errors.{Err, Result, ok, err}
use go_ipc.Ring.Reader.{Msg}
use go_ipc.Queue.Park.{is_peer_gone}
use go_ipc.Service.{
  Answer, Complaint, answer, type_service_hello, type_service_knock, put_uint, service_seq_size,
}
use go_ipc.Service.Sessions.{
  Service, Network, forget, adopt, stop, run, start, serve, close, parse_incarnation,
}
use go_ipc.Service.Members.{
  Below, member, Below-remove, member-cons, member-here, member-remove, member-append,
}

pub record IsService (s : Service) : Type 0 where
  pub below : Below s.next s.sessions
  pub running : s.closing ≡ false
  pub accounted : (i : ℕ) → i < s.next → (member i s.sessions ≡ true) ⊎ (member i s.closed ≡ true)

forget-IsService : (i : ℕ) (s : Service) → IsService s → IsService (forget i s)
unfolding forget
forget-IsService i s h = record {
  below = Below-remove i s.next s.sessions h.below;
  running = h.running;
  accounted = λ j lt. elim (h.accounted j lt) [
    | inl k ↦ elim (member-remove i j s.sessions k) [
      | inl e ↦ inr (member-here i j s.closed e)
      | inr l ↦ inl l
    ]
    | inr k ↦ inr (member-cons j i s.closed k)
  ];
}

adopt-IsService :
    (net : Network) (id : List ℕ) (s : Service) → IsService s → IsService (adopt net id s)
unfolding adopt
adopt-IsService net id s h =
    let i = s.next in
    let s' : Service = record s { next = i + 1; sessions = i ∷ s.sessions } in
    let h' : IsService s' = record {
      below = (omega arith, h.below);
      running = h.running;
      accounted = λ j lt. elim (Bool-cases (i == j)) [
        | inl e ↦ inl (rw e refl)
        | inr ne ↦ elim (h.accounted j (ground arith)) [
          | inl k ↦ inl (member-cons j i s.sessions k)
          | inr k ↦ inr k
        ]
      ];
    } in
    elim (net.opens id)
      as (λ o. IsService (elim o [
        | some e ↦ s
        | none ↦ elim (net.sends i (type_service_hello, put_uint service_seq_size i)) [
          | some e ↦ forget i s'
          | none ↦ s'
        ]
      ])) [
        | some e ↦ h
        | none ↦
            elim (net.sends i (type_service_hello, put_uint service_seq_size i))
              as (λ o. IsService (elim o [ some e ↦ forget i s' | none ↦ s' ])) [
                | some e ↦ forget-IsService i s' h'
                | none ↦ h'
              ]
      ]

start-IsService :
    (net : Network) (ids : List (List ℕ)) (s : Service) → IsService s → IsService (start net ids s)
unfolding start
start-IsService net [] s h = h
start-IsService net (id ∷ ids) s h =
    start-IsService net ids (adopt net id s) (adopt-IsService net id s h)

run-IsService :
    (net : Network) (knocks : List (Result Msg)) (s : Service)
    → IsService s
    → IsService (run net knocks s)
unfolding run stop
run-IsService net [] s h = h
run-IsService net (err e ∷ knocks) s h = record {
  below = h.below;
  running = h.running;
  accounted = h.accounted;
}
run-IsService net (ok (typ, payload) ∷ knocks) s h =
    run-IsService net knocks
      (if (typ == type_service_knock) && parse_incarnation payload then adopt net payload s else s)
      (if_both IsService ((typ == type_service_knock) && parse_incarnation payload)
        (adopt-IsService net payload s h) h)

module _ (text_of : Complaint → List ℕ) (handler : ℕ → List ℕ → Answer) (net : Network) where
  serve-IsService :
      (i : ℕ) (arrivals : List (Result Msg)) (s : Service)
      → IsService s
      → IsService (serve text_of handler net i arrivals s).0
  unfolding serve
  serve-IsService i [] s h = h
  serve-IsService i (err e ∷ arrivals) s h =
      if_both (λ (t : Service × List Msg). IsService t.0) (is_peer_gone e)
        (forget-IsService i (record s { closed = i ∷ s.closed; gone = i ∷ s.gone })
          (record {
            below = h.below;
            running = h.running;
            accounted = λ j lt. elim (h.accounted j lt) [
              | inl k ↦ inl k
              | inr k ↦ inr (member-cons j i s.closed k)
            ];
          }))
        (forget-IsService i s h)
  serve-IsService i (ok m ∷ arrivals) s h =
      let r = answer text_of handler m in
      let rest = serve text_of handler net i arrivals s in
      elim (net.sends i r)
        as (λ o.
          IsService
            (elim o as (λ _. Service × List Msg) [
              | some e ↦ (forget i s, [])
              | none ↦ (rest.0, r ∷ rest.1)
            ]).0) [ some e ↦ forget-IsService i s h | none ↦ serve-IsService i arrivals s h ]

  -- What the sessions receive, one after the other.
  abbrev pub serve_all : List (ℕ × List (Result Msg)) → Service → Service
  serve_all [] s = s
  serve_all ((i, arrivals) ∷ more) s = serve_all more (serve text_of handler net i arrivals s).0

  serve_all-IsService :
      (all : List (ℕ × List (Result Msg))) (s : Service) → IsService s → IsService (serve_all all s)
  serve_all-IsService [] s h = h
  serve_all-IsService ((i, arrivals) ∷ more) s h =
      serve_all-IsService more (serve text_of handler net i arrivals s).0
        (serve-IsService i arrivals s h)

abbrev pub fresh_service : Service
fresh_service = record {
  next = 0;
  sessions = [];
  failure = none;
  cancelled = false;
  closing = false;
  closed = [];
  gone = [];
}

close_lem :
    (close_error unlink_error : Option Err) (s : Service)
    → IsService s
    → (i : ℕ) → i < s.next
    → member i (close close_error unlink_error s).0.closed ≡ true
unfolding close
close_lem close_error unlink_error s h i lt =
    rw h.running (member-append i s.sessions s.closed (h.accounted i lt))

fresh_service-IsService : IsService fresh_service
fresh_service-IsService = record {
  below = tt;
  running = refl;
  accounted = λ i lt. absurd (omega (arith, lt));
}

module _ (text_of : Complaint → List ℕ) (handler : ℕ → List ℕ → Answer) (net : Network) where
  -- The life of a service: the clients that the scan finds, the knocks, and what the sessions receive.
  abbrev pub lifetime : List (List ℕ) → List (Result Msg) → List (ℕ × List (Result Msg)) → Service
  lifetime found knocks all =
      serve_all text_of handler net all (run net knocks (start net found fresh_service))

  lifetime-IsService :
      (found : List (List ℕ)) (knocks : List (Result Msg)) (all : List (ℕ × List (Result Msg)))
      → IsService (lifetime found knocks all)
  lifetime-IsService found knocks all =
      serve_all-IsService text_of handler net all (run net knocks (start net found fresh_service)) (
        run-IsService net knocks (start net found fresh_service)
          (start-IsService net found fresh_service fresh_service-IsService))

  -- Whatever clients a service adopts and whatever they send, the open sessions have different ordinals, all of
  -- them given out, and after `Close` the channel of every ordinal that was ever given out is closed.
  pub close-lifetime :
      (found : List (List ℕ)) (knocks : List (Result Msg)) (all : List (ℕ × List (Result Msg)))
      (close_error unlink_error : Option Err)
      → let s = lifetime found knocks all in
        Below s.next s.sessions
        × ((i : ℕ) → i < s.next → member i (close close_error unlink_error s).0.closed ≡ true)
  close-lifetime found knocks all close_error unlink_error =
      let h = lifetime-IsService found knocks all in
      (h.below, close_lem close_error unlink_error (lifetime found knocks all) h)
