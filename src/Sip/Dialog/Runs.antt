-- ===== src/Sip/Dialog/Runs.antt =====
-- The requests that a dialog of sip/sip-ua/src/dialog/layer.rs receives one after the other.
use ezk.Common.{
  ℕ, ◌+◌, ◌<◌, ◌≡◌, refl, List, [], ◌∷◌, Option, none, some, All, arith, ◌==◌, map, ap, sym, ◌∙◌,
}
use ezk.Common.Maps.{lookup, erase, put, lookup-erase_other}
use ezk.Sip.Dialog.{IncomingRequest, DialogEntry, next_cseq, cseq_of, drain, receive_entry, new}
use ezk.Sip.Dialog.Backlog.{Consecutive}
use ezk.Sip.Dialog.Order.{receive_entry-early, receive_entry-expected}

module _ {H : Type 0} where
  -- What the entry hands on for each of the requests that are received, and its state at the end.
  unfoldable pub receive_each :
      DialogEntry H
      → List (IncomingRequest H)
      → DialogEntry H × List (Option (List (IncomingRequest H)))
  unfolding receive_entry
  receive_each entry [] = (entry, [])
  receive_each entry (request ∷ requests) =
      let (entry', out) = receive_entry entry request in
      let (last, outs) = receive_each entry' requests in (last, out ∷ outs)

  abbrev pub Above : ℕ → IncomingRequest H → Type 0
  Above m request = m < cseq_of request

  abbrev pub nothing : List (IncomingRequest H) → List (Option (List (IncomingRequest H)))
  nothing requests = map (λ request. none) requests

  -- As long as only requests above the expected CSeq number arrive, none is handed on, and what
  -- stands at the expected number stays there.
  receive_each-Above :
      (entry : DialogEntry H) (m : ℕ) (requests : List (IncomingRequest H))
      → entry.next_peer_cseq ≡ some m
      → All (Above m) requests
      → ((receive_each entry requests).1 ≡ nothing requests)
        × (lookup ◌==◌ m (receive_each entry requests).0.backlog ≡ lookup ◌==◌ m entry.backlog)
  unfolding receive_each lookup put
  receive_each-Above entry m [] e h = (refl, refl)
  receive_each-Above entry m (request ∷ requests) e h =
      let early = receive_entry-early entry request (rw e (h.0)) in
      let next = ap (λ r. r.0.next_peer_cseq) early ∙ rw e refl in
      let (outs, kept) = receive_each-Above (receive_entry entry request).0 m requests next h.1 in
      (
        ap (λ o. o ∷ (receive_each (receive_entry entry request).0 requests).1)
              (ap (λ r. r.1) early)
            ∙ ap (◌∷◌ none) outs,
        kept ∙ rw early (ground (arith, lookup-erase_other (cseq_of request) m entry.backlog)),
      )

  two_swapped :
      (c : ℕ) (a b : IncomingRequest H)
      → c + 2 < 4294967296
      → cseq_of a ≡ c + 2
      → cseq_of b ≡ c + 1
      → ((receive_entry (new (some c)) a).1 ≡ none)
        × ((receive_entry (receive_entry (new (some c)) a).0 b).1 ≡ some (b ∷ []))
        × (((receive_entry (receive_entry (new (some c)) a).0 b).0.next_peer_cseq ≡ some (c + 2))
            × (lookup ◌==◌ (c + 2) (receive_entry (receive_entry (new (some c)) a).0 b).0.backlog
                ≡ some a))
  unfolding receive_entry new drain lookup erase put
  two_swapped c a b lt ea eb = ground arith

  -- When the request with CSeq c + 2 overtakes the one with c + 1 behind the first request of a
  -- dialog, with CSeq c, it is never handed on: the request c + 1 is handed on alone, and for as
  -- long as only requests above c + 2 follow, none of them is handed on, and the overtaking one
  -- is still in the backlog.
  pub receive_each-swapped :
      (c : ℕ) (a b : IncomingRequest H) (later : List (IncomingRequest H))
      → c + 2 < 4294967296
      → cseq_of a ≡ c + 2
      → cseq_of b ≡ c + 1
      → All (Above (c + 2)) later
      → ((receive_each (new (some c)) (a ∷ b ∷ later)).1 ≡ none ∷ some (b ∷ []) ∷ nothing later)
        × (lookup ◌==◌ (c + 2) (receive_each (new (some c)) (a ∷ b ∷ later)).0.backlog ≡ some a)
  unfolding receive_each
  receive_each-swapped c a b later lt ea eb above =
      let (early, in_turn, (next, kept)) = two_swapped c a b lt ea eb in
      let (outs, still) = receive_each-Above _ (c + 2) later next above in
      (cc (early, in_turn, outs), still ∙ kept)

  abbrev pub each_alone : List (IncomingRequest H) → List (Option (List (IncomingRequest H)))
  each_alone requests = map (λ request. some (request ∷ [])) requests

  receive_entry-alone :
      (entry : DialogEntry H) (request : IncomingRequest H)
      → entry.backlog ≡ []
      → entry.next_peer_cseq ≡ some (cseq_of request)
      → receive_entry entry request ≡ (
        record entry { backlog = []; next_peer_cseq = some (next_cseq (cseq_of request)) },
        some (request ∷ []),
      )
  unfolding drain lookup
  receive_entry-alone entry request eb en =
      receive_entry-expected entry request (rw en refl)
      ∙ rw (eb, drain, lookup)
          (ap
            (λ b. (
              record entry { backlog = b; next_peer_cseq = some (next_cseq (cseq_of request)) },
              some (request ∷ []),
            ))
            eb)

  -- Requests that arrive in the order of their CSeq numbers are handed on at once, each alone,
  -- and nothing is stored.
  receive_each-in_order :
      (entry : DialogEntry H) (n : ℕ) (requests : List (IncomingRequest H))
      → entry.backlog ≡ []
      → entry.next_peer_cseq ≡ some n
      → Consecutive n requests
      → ((receive_each entry requests).1 ≡ each_alone requests)
        × ((receive_each entry requests).0.backlog ≡ [])
  unfolding receive_each
  receive_each-in_order entry n [] eb en h = (refl, eb)
  receive_each-in_order entry n (request ∷ requests) eb en (first, rest) =
      let x = receive_entry-alone entry request eb (en ∙ ap some (sym first)) in
      let (outs, left) =
        receive_each-in_order (receive_entry entry request).0 (next_cseq n) requests
          (ap (λ r. r.0.backlog) x)
          (ap (λ r. r.0.next_peer_cseq) x ∙ ap (λ m. some (next_cseq m)) first) rest in
      (cc (ap (λ r. r.1) x, outs), left)
