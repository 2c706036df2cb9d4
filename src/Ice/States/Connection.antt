-- ===== src/Ice/States/Connection.antt =====
-- The connection state that `poll_state` of media/ice/src/lib.rs keeps.
use ezk.Common.{
  ◌≤◌, ◌≡◌, ◌≢◌, refl, ◌∙◌, List, [], ◌∷◌, ◌++◌, some, Bool, true, false, ◌&&◌, arith, ap, sym,
  Bool-cases, inl, inr, if◌then◌else◌, if-elim,
}
use ezk.Ice.Types.{
  Component, same_component, CandidatePair, IceConnectionState, IceEvent, connection_state_changed,
}
use ezk.Ice.Agent.{IceAgent}
use ezk.Ice.Nomination.{poll_nomination}
use ezk.Ice.Nomination.Single.{nominated_count, Controlled, poll_nomination-Controlled}
use ezk.Ice.States.{
  poll_connection_state, set_connection_state, same_connection, has_nomination, in_progress,
  for_all_components, still_possible_from,
}

-- The state that follows, from whether all components have a nominated pair that succeeded, and
-- whether all have a check that is pending.
abbrev pub next_state : Bool → Bool → IceConnectionState → IceConnectionState
next_state true possible state = IceConnectionState.connected
next_state false false state = IceConnectionState.failed
next_state false true IceConnectionState.new = IceConnectionState.checking
next_state false true IceConnectionState.connected = IceConnectionState.disconnected
next_state false true state = state

abbrev pub announced : IceConnectionState → IceConnectionState → List IceEvent
announced old now = if same_connection old now then [] else connection_state_changed old now ∷ []

append_nothing : (events : List IceEvent) → events ≡ events ++ []
append_nothing [] = refl
append_nothing (e ∷ events) = ap (◌∷◌ e) (append_nothing events)

abbrev pub Announces : IceAgent → IceConnectionState → IceAgent → Type 0
Announces a state b =
    b
    ≡ record a { connection_state = state; events = a.events ++ announced a.connection_state state }

same_connection-equal : (a b : IceConnectionState) → same_connection a b ≡ true → a ≡ b
same_connection-equal a b h = ground arith

unchanged-Announces :
    (a : IceAgent) (state : IceConnectionState)
    → same_connection a.connection_state state ≡ true
    → Announces a state a
unchanged-Announces a state h = rw h (
    ap (λ e. record a { events = e }) (append_nothing a.events)
    ∙ ap (λ s. record a { connection_state = s; events = a.events ++ [] })
        (same_connection-equal a.connection_state state h))

set_connection_state-same :
    (a : IceAgent) (state : IceConnectionState)
    → same_connection a.connection_state state ≡ true
    → set_connection_state a state ≡ a
unfolding set_connection_state
set_connection_state-same a state e = rw (e, set_connection_state) refl

set_connection_state-Announces :
    (a : IceAgent) (state : IceConnectionState) → Announces a state (set_connection_state a state)
unfolding set_connection_state
set_connection_state-Announces a state =
    elim (Bool-cases (same_connection a.connection_state state)) [
      | inl e ↦ set_connection_state-same a state e ∙ unchanged-Announces a state e
      | inr e ↦ rw (e, set_connection_state) refl
    ]

-- The state by the table, for the agent's own pairs.
abbrev pub settled : IceAgent → IceConnectionState
settled a =
    next_state (for_all_components a.rtcp_mux (λ c. has_nomination c a.pairs))
      (for_all_components a.rtcp_mux (λ c. in_progress c a.pairs)) a.connection_state

possible-Announces :
    (a : IceAgent) (state : IceConnectionState)
    → a.connection_state ≡ state
    → Announces a (next_state false true state) (still_possible_from a state)
unfolding set_connection_state
possible-Announces a IceConnectionState.new e =
    set_connection_state-Announces a IceConnectionState.checking
possible-Announces a IceConnectionState.connected e =
    set_connection_state-Announces a IceConnectionState.disconnected
possible-Announces a IceConnectionState.failed e =
    unchanged-Announces a IceConnectionState.failed (rw e refl)
possible-Announces a IceConnectionState.disconnected e =
    unchanged-Announces a IceConnectionState.disconnected (rw e refl)
possible-Announces a IceConnectionState.checking e =
    unchanged-Announces a IceConnectionState.checking (rw e refl)

-- The connection state moves by the table; a change, and only a change, is announced by one event
-- with the old and the new state; nothing else of the agent is changed.
pub poll_connection_state-Announces :
    (a : IceAgent) → Announces a (settled a) (poll_connection_state a)
unfolding poll_connection_state
poll_connection_state-Announces a =
    elim (Bool-cases (for_all_components a.rtcp_mux (λ c. has_nomination c a.pairs))) [
      | inl e ↦
          rw (e, poll_connection_state)
            (set_connection_state-Announces a IceConnectionState.connected)
      | inr e ↦ elim (Bool-cases (for_all_components a.rtcp_mux (λ c. in_progress c a.pairs))) [
        | inl f ↦ rw (e, f, poll_connection_state) (possible-Announces a a.connection_state refl)
        | inr f ↦
            rw (e, f, poll_connection_state)
              (set_connection_state-Announces a IceConnectionState.failed)
      ]
    ]

nominated_one :
    (c : Component) (pairs : List CandidatePair)
    → has_nomination c pairs ≡ true
    → 1 ≤ nominated_count pairs
unfolding nominated_count
nominated_one c [] h = ground arith
nominated_one c (p ∷ pairs) h = elim (Bool-cases p.nominated) [
  | inl e ↦ rw e (ground arith)
  | inr e ↦ rw e (nominated_one c pairs (ground arith))
]

component_differs :
    (c : Component) → (same_component c Component.rtp && same_component c Component.rtcp) ≡ false
component_differs Component.rtp = refl
component_differs Component.rtcp = refl

nominated_two :
    (pairs : List CandidatePair)
    → has_nomination Component.rtp pairs ≡ true
    → has_nomination Component.rtcp pairs ≡ true
    → 2 ≤ nominated_count pairs
unfolding nominated_count
nominated_two [] h k = ground arith
nominated_two (p ∷ pairs) h k = elim (Bool-cases p.nominated) [
  | inr e ↦ rw e (nominated_two pairs (ground arith) (ground arith))
  | inl e ↦ elim (Bool-cases (same_component p.component Component.rtp)) [
    | inl f ↦ rw e (
        ground (
          arith,
          nominated_one Component.rtcp pairs (ground (arith, component_differs p.component)),
        ))
    | inr f ↦ rw e (ground (arith, nominated_one Component.rtp pairs (ground arith)))
  ]
]

unsettled :
    (possible : Bool) (state : IceConnectionState)
    → next_state false possible state ≢ IceConnectionState.connected
unsettled true IceConnectionState.new e = ground arith
unsettled true IceConnectionState.connected e = ground arith
unsettled true IceConnectionState.failed e = ground arith
unsettled true IceConnectionState.disconnected e = ground arith
unsettled true IceConnectionState.checking e = ground arith
unsettled false state e = ground arith

both_or_none :
    (b : IceAgent)
    → Controlled b
    → (has_nomination Component.rtp b.pairs && has_nomination Component.rtcp b.pairs) ≡ false
both_or_none b h = elim (Bool-cases (has_nomination Component.rtp b.pairs)) [
  | inr e ↦ ground arith
  | inl e ↦ elim (Bool-cases (has_nomination Component.rtcp b.pairs)) [
    | inr f ↦ ground arith
    | inl f ↦ ground (arith, nominated_two b.pairs e f, h.at_most_one)
  ]
]

no_nomination :
    (b : IceAgent)
    → Controlled b
    → for_all_components b.rtcp_mux (λ c. has_nomination c b.pairs) ≡ false
no_nomination b h =
    if-elim (λ x. x ≡ false) b.rtcp_mux (λ e. ground (arith, h.without_mux)) (λ e. both_or_none b h)

not_connected :
    (b : IceAgent)
    → Controlled b
    → (poll_connection_state b).connection_state ≢ IceConnectionState.connected
not_connected b h k =
    unsettled (for_all_components b.rtcp_mux (λ c. in_progress c b.pairs)) b.connection_state (
      ap
        (λ x.
          next_state x (for_all_components b.rtcp_mux (λ c. in_progress c b.pairs))
            b.connection_state)
        (sym (no_nomination b h))
      ∙ sym (ap (λ x. x.connection_state) (poll_connection_state-Announces b))
      ∙ k)

-- A controlled agent without rtcp-mux is stuck: with at most one nominated pair, the nomination
-- leaves at most one, of whichever component, and the connection state does not become connected.
pub poll_nomination-never_connected :
    (a b : IceAgent)
    → Controlled a
    → poll_nomination a ≡ some b
    → (nominated_count b.pairs ≤ 1)
      × ((poll_connection_state b).connection_state ≢ IceConnectionState.connected)
poll_nomination-never_connected a b h e =
    let c = poll_nomination-Controlled a b h e in (c.at_most_one, not_connected b c)
