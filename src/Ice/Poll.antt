-- ===== src/Ice/Poll.antt =====
-- media/ice/src/lib.rs: `poll` and what it drives. `none` stands for a panic.
pub mod Retransmit
use ezk.Common.{
  ℕ, suc, ◌+◌, ◌-◌, min, List, [], ◌∷◌, ◌++◌, Option, none, some, Bool, true, false, find, ltb, leb,
  ◌==◌, if◌then◌else◌,
}
use ezk.Common.Maps.{lookup}
use ezk.Ice.Types.{
  Candidate, IceCredentials, CandidatePairState, CandidatePair, InProgress, IceEvent, send_data,
}
use ezk.Ice.Stun.{
  StunConfig, StunServerBinding, retransmit_delta, make_binding_request, timeout, poll,
}
use ezk.Ice.Pairs.{key_is}
use ezk.Ice.Agent.{IceAgent, push_event}
use ezk.Ice.Nomination.{poll_nomination}
use ezk.Ice.States.{poll_state}

-- One pair of the loop of `poll_retransmit`, with the events it gives.
abbrev retransmit_in : StunConfig → ℕ → CandidatePair → InProgress → CandidatePair × List IceEvent
unfolding retransmit_delta
retransmit_in config now pair p =
    if ltb now p.retransmit_at
    then (pair, [])
    else if leb config.max_retransmits p.retransmits
    then (record pair { state = CandidatePairState.failed }, [])
    else (
      record pair {
        state = CandidatePairState.in_progress (record p {
          retransmits = p.retransmits + 1;
          retransmit_at = p.retransmit_at + retransmit_delta config (p.retransmits + 1);
        });
      },
      send_data pair.component p.stun_request (some p.source) p.target ∷ [],
    )

abbrev retransmit_by :
    StunConfig → ℕ → CandidatePair → CandidatePairState → CandidatePair × List IceEvent
unfolding retransmit_delta
retransmit_by config now pair (CandidatePairState.in_progress p) = retransmit_in config now pair p
retransmit_by config now pair state = (pair, [])

unfoldable pub retransmit_pair : StunConfig → ℕ → CandidatePair → CandidatePair × List IceEvent
unfolding retransmit_delta
retransmit_pair config now pair = retransmit_by config now pair pair.state

unfoldable pub retransmit_all :
    StunConfig → ℕ → List CandidatePair → List CandidatePair × List IceEvent
unfolding retransmit_pair
retransmit_all config now [] = ([], [])
retransmit_all config now (pair ∷ pairs) =
    let (pair', events) = retransmit_pair config now pair in
    let (pairs', more) = retransmit_all config now pairs in (pair' ∷ pairs', events ++ more)

unfoldable pub poll_retransmit : IceAgent → ℕ → IceAgent
unfolding retransmit_all
poll_retransmit a now =
    let (pairs, events) = retransmit_all a.stun_config now a.pairs in
    record a { pairs = pairs; events = a.events ++ events }

-- The bindings are polled one after the other; `ids` gives each the transaction id that it draws.
unfoldable pub poll_servers :
    StunConfig → ℕ → (ℕ → ℕ) → ℕ → List StunServerBinding → List StunServerBinding × List IceEvent
unfolding poll
poll_servers config now ids n [] = ([], [])
poll_servers config now ids n (server ∷ servers) =
    let (server', events) = poll config now (ids n) server in
    let (servers', more) = poll_servers config now ids (suc n) servers in
    (server' ∷ servers', events ++ more)

-- The pair for the next check: the front of the triggered queue, if it is a pair, or else the
-- first pair of the list that waits. The queue loses its front either way.
abbrev is_waiting : CandidatePairState → Bool
is_waiting CandidatePairState.waiting = true
is_waiting state = false

abbrev triggered : List (ℕ × ℕ) → List CandidatePair → Option CandidatePair
triggered [] pairs = none
triggered (key ∷ queue) pairs = find (key_is key.0 key.1) pairs

abbrev or_waiting : Option CandidatePair → List CandidatePair → Option CandidatePair
or_waiting none pairs = find (λ p. is_waiting p.state) pairs
or_waiting (some pair) pairs = some pair

unfoldable pub next_check : List (ℕ × ℕ) → List CandidatePair → Option CandidatePair
next_check queue pairs = or_waiting (triggered queue pairs) pairs

abbrev rest_of : List (ℕ × ℕ) → List (ℕ × ℕ)
rest_of [] = []
rest_of (key ∷ queue) = queue

unfoldable pub set_state :
    CandidatePair → CandidatePairState → List CandidatePair → List CandidatePair
set_state pair state [] = []
set_state pair state (p ∷ pairs) =
    let rest = set_state pair state pairs in
    if key_is pair.local pair.remote p then record p { state = state } ∷ pairs else p ∷ rest

-- The check of `pair` between its two candidates, under the transaction id `id`.
abbrev start_check :
    IceAgent
    → IceCredentials
    → ℕ
    → ℕ
    → CandidatePair
    → Option Candidate
    → Option Candidate
    → Option IceAgent
unfolding make_binding_request retransmit_delta set_state
start_check a remote_credentials now id pair (some l) (some r) =
    let request =
      make_binding_request id a.local_credentials remote_credentials l a.is_controlling
        a.control_tie_breaker pair.nominated in
    some (
      push_event
        (record a {
          pairs =
              set_state pair
                (CandidatePairState.in_progress (record {
                  transaction_id = id;
                  stun_request = request;
                  retransmit_at = now + retransmit_delta a.stun_config 0;
                  retransmits = 0;
                  source = l.base.ip;
                  target = r.addr;
                }))
                a.pairs;
        })
        (send_data pair.component request (some l.base.ip) r.addr))
start_check a remote_credentials now id pair (some l) none = none
start_check a remote_credentials now id pair none r = none

abbrev check_found : IceAgent → IceCredentials → ℕ → ℕ → Option CandidatePair → Option IceAgent
unfolding make_binding_request retransmit_delta set_state lookup
check_found a remote_credentials now id none = some a
check_found a remote_credentials now id (some pair) =
    start_check a remote_credentials now id pair (lookup ◌==◌ pair.local a.local_candidates)
      (lookup ◌==◌ pair.remote a.remote_candidates)

-- At most one new check within 50 ms.
abbrev is_early : Option ℕ → ℕ → Bool
is_early none now = false
is_early (some at) now = ltb now (at + 50)

unfoldable pub poll_checks : IceAgent → ℕ → ℕ → Option IceCredentials → Option IceAgent
unfolding make_binding_request retransmit_delta set_state lookup next_check
poll_checks a now id none = some a
poll_checks a now id (some remote_credentials) =
    if is_early a.last_ta_trigger now
    then some a
    else check_found
        (record a {
          last_ta_trigger = some now;
          triggered_check_queue = rest_of a.triggered_check_queue;
        })
        remote_credentials now id (next_check a.triggered_check_queue a.pairs)

abbrev and_checks : ℕ → ℕ → Option IceAgent → Option IceAgent
unfolding poll_checks
and_checks now id none = none
and_checks now id (some a) = poll_checks a now id a.remote_credentials

-- `poll`: `ids` are the random transaction ids of the bindings, `id` the one of a new check.
unfoldable pub poll_agent : IceAgent → ℕ → (ℕ → ℕ) → ℕ → Option IceAgent
unfolding poll_servers poll_retransmit poll_state poll_nomination poll_checks
poll_agent a now ids id =
    let (servers, events) = poll_servers a.stun_config now ids 0 a.stun_server in
    let polled = record a { stun_server = servers; events = a.events ++ events } in
    and_checks now id (poll_nomination (poll_state (poll_retransmit polled now)))

unfoldable pub opt_min : Option ℕ → Option ℕ → Option ℕ
opt_min none b = b
opt_min (some a) none = some a
opt_min (some a) (some b) = some (min a b)

abbrev ta_of : Option ℕ → ℕ → ℕ
ta_of none now = 0
ta_of (some at) now = at + 50 - now

abbrev bindings_min : List StunServerBinding → ℕ → Option ℕ
unfolding timeout opt_min
bindings_min [] now = none
bindings_min (s ∷ servers) now = opt_min (timeout s.state now) (bindings_min servers now)

-- `timeout` of the agent.
unfoldable pub agent_timeout : IceAgent → ℕ → Option ℕ
unfolding timeout opt_min
agent_timeout a now = opt_min (some (ta_of a.last_ta_trigger now)) (bindings_min a.stun_server now)
