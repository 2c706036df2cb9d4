-- ===== src/Sip/Dialog/Order.antt =====
-- What `receive` of sip/sip-ua/src/dialog/layer.rs does with a request by its CSeq number.
use ezk.Common.{
  ℕ, suc, ◌≤◌, ◌<◌, ◌≡◌, refl, List, [], ◌∷◌, Option, none, some, length, All, arith, inl, inr,
  ◌==◌, compare-cases, sym,
}
use ezk.Common.Maps.{lookup, erase, put, All-erase}
use ezk.Sip.Dialog.{
  IncomingRequest, DialogEntry, next_cseq, cseq_of, drain, last_cseq, receive_entry,
  receive_expected, get_or_insert,
}
use ezk.Sip.Dialog.Backlog.{
  IsFiled, behind, Drains, drain-Drains, From, From-absent, drain-From, behind-last_cseq,
}

module _ {H : Type 0} where
  pub receive_entry-early :
      (entry : DialogEntry H) (request : IncomingRequest H)
      → get_or_insert entry.next_peer_cseq (cseq_of request) < cseq_of request
      → receive_entry entry request ≡ (
        record entry {
          backlog = put ◌==◌ (cseq_of request) request entry.backlog;
          next_peer_cseq = some (get_or_insert entry.next_peer_cseq (cseq_of request));
        },
        none,
      )
  unfolding receive_entry put
  receive_entry-early entry request lt =
      elim (compare-cases (cseq_of request)
        (get_or_insert entry.next_peer_cseq (cseq_of request))) [
          | inl (c, lt') ↦ ground arith
          | inr (inl (c, eq)) ↦ ground arith
          | inr (inr (c, gt)) ↦ rw (c, receive_entry) refl
        ]

  receive_entry-late :
      (entry : DialogEntry H) (request : IncomingRequest H)
      → cseq_of request < get_or_insert entry.next_peer_cseq (cseq_of request)
      → receive_entry entry request ≡ (
        record entry {
          next_peer_cseq = some (get_or_insert entry.next_peer_cseq (cseq_of request));
        },
        some (request ∷ []),
      )
  unfolding receive_entry put
  receive_entry-late entry request lt =
      elim (compare-cases (cseq_of request)
        (get_or_insert entry.next_peer_cseq (cseq_of request))) [
          | inl (c, lt') ↦ rw (c, receive_entry) refl
          | inr (inl (c, eq)) ↦ ground arith
          | inr (inr (c, gt)) ↦ ground arith
        ]

  pub receive_entry-expected :
      (entry : DialogEntry H) (request : IncomingRequest H)
      → cseq_of request ≡ get_or_insert entry.next_peer_cseq (cseq_of request)
      → receive_entry entry request
        ≡ receive_expected entry request
            (drain (suc (length entry.backlog)) (cseq_of request) entry.backlog)
  unfolding receive_entry put
  receive_entry-expected entry request eq =
      elim (compare-cases (cseq_of request)
        (get_or_insert entry.next_peer_cseq (cseq_of request))) [
          | inl (c, lt') ↦ ground arith
          | inr (inl (c, e)) ↦ rw (c, receive_entry) refl
          | inr (inr (c, gt)) ↦ ground arith
        ]

  abbrev pub AheadOf : Option ℕ → List (ℕ × IncomingRequest H) → Type 0
  AheadOf none backlog = backlog ≡ []
  AheadOf (some m) backlog = From m backlog

  -- The backlog holds each request under its own CSeq, none below the next expected one, and
  -- nothing before the first request is received.
  abbrev pub IsAhead : DialogEntry H → Type 0
  IsAhead entry = All IsFiled entry.backlog × AheadOf entry.next_peer_cseq entry.backlog

  From-first :
      (next : Option ℕ) (n : ℕ) (backlog : List (ℕ × IncomingRequest H))
      → AheadOf next backlog
      → From (get_or_insert next n) backlog
  From-first none n backlog h = rw h tt
  From-first (some m) n backlog h = h

  expected-IsAhead :
      (entry : DialogEntry H) (request : IncomingRequest H)
      → (requests : List (IncomingRequest H)) (rest : List (ℕ × IncomingRequest H))
      → Drains (cseq_of request) entry.backlog requests rest
      → From (behind (cseq_of request) requests) rest
      → IsAhead (receive_expected entry request (requests, rest)).0
  expected-IsAhead entry request [] rest d f =
      (d.filed, From-absent (cseq_of request) rest f d.complete)
  expected-IsAhead entry request (next ∷ requests) rest d f =
      (d.filed, rw (sym (behind-last_cseq (cseq_of request) next requests d.consecutive)) f)

  -- Whatever request is received, early, late or in its turn, the backlog stays ahead of the
  -- expected CSeq number.
  pub receive_entry-IsAhead :
      (entry : DialogEntry H) (request : IncomingRequest H)
      → IsAhead entry
      → IsAhead (receive_entry entry request).0
  unfolding put erase
  receive_entry-IsAhead entry request (filed, ahead) =
      let n = cseq_of request in
      let m = get_or_insert entry.next_peer_cseq n in
      let from : From m entry.backlog = From-first entry.next_peer_cseq n entry.backlog ahead in
      elim (compare-cases n m) [
        | inl (c, lt) ↦ rw (receive_entry-late entry request lt) (filed, from)
        | inr (inl (c, e)) ↦ rw (receive_entry-expected entry request e) (
            expected-IsAhead entry request _ _
              (drain-Drains (suc (length entry.backlog)) n entry.backlog (omega arith) filed)
              (drain-From (suc (length entry.backlog)) n entry.backlog (rw e from)))
        | inr (inr (c, gt)) ↦ rw (receive_entry-early entry request gt) (
          (refl, All-erase ◌==◌ IsFiled n entry.backlog filed),
          (omega arith, All-erase ◌==◌ (λ x. m ≤ x.0) n entry.backlog from),
        )
      ]

  -- What is handed on, and what stays, by the order of the CSeq and the expected one.
  pub data Receives (entry : DialogEntry H) (request : IncomingRequest H) : Type 0 where
    late :
        cseq_of request < get_or_insert entry.next_peer_cseq (cseq_of request)
        → (receive_entry entry request).1 ≡ some (request ∷ [])
        → (receive_entry entry request).0.backlog ≡ entry.backlog
        → Receives entry request
    early :
        get_or_insert entry.next_peer_cseq (cseq_of request) < cseq_of request
        → (receive_entry entry request).1 ≡ none
        → lookup ◌==◌ (cseq_of request) (receive_entry entry request).0.backlog ≡ some request
        → Receives entry request
    in_turn :
        (requests : List (IncomingRequest H))
        → (receive_entry entry request).1 ≡ some (request ∷ requests)
        → Drains (cseq_of request) entry.backlog requests (receive_entry entry request).0.backlog
        → (receive_entry entry request).0.next_peer_cseq
          ≡ some (next_cseq (last_cseq request requests))
        → Receives entry request
