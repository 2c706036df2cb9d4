-- ===== src/Sip/ServerInvTsx/Failure.antt =====
-- A failure response and its ACK in sip/sip-core/src/transaction/server_inv.rs.
use ezk.Common.{
  ℕ, suc, ◌+◌, ◌*◌, ◌≤◌, ◌<◌, ◌≡◌, refl, List, [], ◌∷◌, ◌++◌, arith, if-elim, ap, ◌∙◌, Bool, true,
  false, ltb, min,
}
use ezk.Sip.Method.{Method}
use ezk.Sip.StatusCode.{kind}
use ezk.Sip.TsxKey.{request, response}
use ezk.Sip.ServerInvTsx.{
  Event, message, timer, acknowledged, timed_out, send_failed, waits, await_ack, respond_failure,
  t1, t2, is_failure_kind, timers,
}

-- How often the response is sent again for these events, when no ACK is among them.
abbrev pub resent : List Event → ℕ
resent [] = 0
resent (message (request Method.invite) accepts ∷ events) = suc (resent events)
resent (message line accepts ∷ events) = resent events
resent (timer now accepts ∷ events) = suc (resent events)

abbrev delta_behind : ℕ → List Event → ℕ
delta_behind delta [] = delta
delta_behind delta (message line accepts ∷ events) = delta_behind delta events
delta_behind delta (timer now accepts ∷ events) = delta_behind (min (delta * 2) t2) events

-- No ACK, no timer after `abandon`, and nothing that is sent again is refused.
abbrev pub Patient : ℕ → List Event → Type 0
Patient abandon [] = Unit {0}
Patient abandon (message (request Method.ack) accepts ∷ events) = ⊥
Patient abandon (message (request Method.invite) accepts ∷ events) =
    (accepts ≡ true) × Patient abandon events
Patient abandon (message line accepts ∷ events) = Patient abandon events
Patient abandon (timer now accepts ∷ events) =
    (now ≤ abandon) × ((accepts ≡ true) × Patient abandon events)

await_ack-Patient :
    (abandon delta sent : ℕ) (events rest : List Event)
    → Patient abandon events
    → await_ack abandon delta sent (events ++ rest)
      ≡ await_ack abandon (delta_behind delta events) (sent + resent events) rest
unfolding await_ack
await_ack-Patient abandon delta sent [] rest h =
    ap (λ n. await_ack abandon delta n rest) (omega arith)
await_ack-Patient abandon delta sent (message (request Method.invite) accepts ∷ events) rest h =
    rw (h.0) (
      await_ack-Patient abandon delta (suc sent) events rest h.1
      ∙ ap (λ n. await_ack abandon (delta_behind delta events) n rest) (omega arith))
await_ack-Patient abandon delta sent (message (request Method.ack) accepts ∷ events) rest h =
    ground arith
await_ack-Patient abandon delta sent (message (request m) accepts ∷ events) rest h =
    await_ack-Patient abandon delta sent events rest h
await_ack-Patient abandon delta sent (message (response code) accepts ∷ events) rest h =
    await_ack-Patient abandon delta sent events rest h
await_ack-Patient abandon delta sent (timer now accepts ∷ events) rest h =
    let target =
      await_ack abandon (delta_behind (min (delta * 2) t2) events) (sent + suc (resent events))
        rest in
    rw (h.1.0) (
      if-elim (λ o. o ≡ target) (ltb abandon now) (λ e. ground arith)
        (λ e.
          await_ack-Patient abandon (min (delta * 2) t2) (suc sent) events rest h.1.1
          ∙ ap (λ n. await_ack abandon (delta_behind (min (delta * 2) t2) events) n rest)
              (omega arith)))

-- A failure response that the transport accepts is sent again for every INVITE, and for every timer
-- as long as 64 T1 are not over, if the transport accepts it each time. The ACK ends it well, the first timer
-- after 64 T1 with the time-out, and the first INVITE or timer at which the transport refuses the
-- response with that error; nothing else ends it. If the transport refuses the response when it is
-- sent first, that error is all.
pub respond_failure-ends :
    (code now later due : ℕ) (accepts : Bool) (events rest : List Event)
    → is_failure_kind (kind code) ≡ true
    → Patient (now + 32000) events
    → now + 32000 < later
    → due ≤ now + 32000
    → (respond_failure code true now (events ++ (message (request Method.ack) accepts ∷ rest))
        ≡ acknowledged (resent events))
      × ((respond_failure code true now (events ++ (timer later accepts ∷ rest))
            ≡ timed_out (resent events))
          × ((respond_failure code true now
                  (events ++ (message (request Method.invite) false ∷ rest))
                ≡ send_failed (resent events))
              × ((respond_failure code true now (events ++ (timer due false ∷ rest))
                    ≡ send_failed (resent events))
                  × ((respond_failure code true now (events ++ []) ≡ waits (resent events))
                      × (respond_failure code false now events ≡ send_failed 0)))))
unfolding respond_failure await_ack
respond_failure-ends code now later due accepts events rest f h gt le =
    let step = await_ack-Patient (now + 32000) t1 0 events in
    rw f (
      step (message (request Method.ack) accepts ∷ rest) h ∙ ap acknowledged (omega arith),
      (
        step (timer later accepts ∷ rest) h ∙ ground arith,
        (
          step (message (request Method.invite) false ∷ rest) h ∙ ap send_failed (omega arith),
          (
            step (timer due false ∷ rest) h ∙ ground arith,
            (step [] h ∙ ap waits (omega arith), refl),
          ),
        ),
      ),
    )

-- When nothing comes and the transport accepts what is sent, a failure response is sent again ten
-- times, after 0.5, 1, 2 and then every 4 seconds, and the transaction times out at the eleventh
-- timer.
respond_failure-unanswered :
    (code now : ℕ)
    → is_failure_kind (kind code) ≡ true
    → respond_failure code true now (timers 11 now t1) ≡ timed_out 10
unfolding respond_failure await_ack timers
respond_failure-unanswered code now f = rw f (ground arith)
