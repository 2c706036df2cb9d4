-- ===== src/Sip/Dialog/Backlog.antt =====
-- The backlog of a dialog of sip/sip-ua/src/dialog/layer.rs: what is taken out of it.
use ezk.Common.{
  ℕ, suc, ◌≤◌, ◌<◌, ◌≡◌, refl, List, [], ◌∷◌, none, some, length, All, arith, Option-cases, inl,
  inr, ◌==◌, Bool, Bool-cases, true, false, if◌then◌else◌, ap, ◌∙◌, sym,
}
use ezk.Common.Maps.{
  lookup, erase, length-erase_lt, All-erase, lookup-erase_other, lookup-erase_same,
}
use ezk.Sip.Dialog.{IncomingRequest, next_cseq, cseq_of, drain, last_cseq}

module _ {H : Type 0} where
  -- Entries stand under the CSeq of their request.
  abbrev pub IsFiled : ℕ × IncomingRequest H → Type 0
  IsFiled entry = cseq_of entry.1 ≡ entry.0

  -- The requests have the CSeq numbers from `n` on, one after the other.
  abbrev pub Consecutive : ℕ → List (IncomingRequest H) → Type 0
  Consecutive n [] = Unit {0}
  Consecutive n (request ∷ requests) = (cseq_of request ≡ n) × Consecutive (next_cseq n) requests

  -- The number that follows a run of `requests` from `n` on.
  abbrev pub behind : ℕ → List (IncomingRequest H) → ℕ
  behind n [] = n
  behind n (request ∷ requests) = behind (next_cseq n) requests

  IsFiled-lookup :
      (n : ℕ) (backlog : List (ℕ × IncomingRequest H)) (request : IncomingRequest H)
      → All IsFiled backlog
      → lookup ◌==◌ n backlog ≡ some request
      → cseq_of request ≡ n
  unfolding lookup
  IsFiled-lookup n [] request h e = ground arith
  IsFiled-lookup n (entry ∷ backlog) request h e =
      ground (arith, IsFiled-lookup n backlog request h.1)

  -- Whether a request of the number is among these.
  abbrev pub has_cseq : ℕ → List (IncomingRequest H) → Bool
  has_cseq n [] = false
  has_cseq n (request ∷ requests) = if cseq_of request == n then true else has_cseq n requests

  -- What `drain` takes out is the whole run of consecutive CSeq numbers that the backlog holds: each
  -- request of it stood there under its number, no request of the next number is left, and every
  -- other one is left where it was.
  pub record Drains (n : ℕ) (backlog : List (ℕ × IncomingRequest H))
      (requests : List (IncomingRequest H)) (rest : List (ℕ × IncomingRequest H)) : Type 0 where
    pub consecutive : Consecutive n requests
    pub complete : lookup ◌==◌ (behind n requests) rest ≡ none
    pub filed : All IsFiled rest
    pub taken : All (λ request. lookup ◌==◌ (cseq_of request) backlog ≡ some request) requests
    pub left :
        (m : ℕ) → lookup ◌==◌ m rest ≡ (if has_cseq m requests then none else lookup ◌==◌ m backlog)

  lookup-erase-some :
      (n m : ℕ) (backlog : List (ℕ × IncomingRequest H)) (request : IncomingRequest H)
      → lookup ◌==◌ m (erase ◌==◌ n backlog) ≡ some request
      → lookup ◌==◌ m backlog ≡ some request
  lookup-erase-some n m backlog request e = elim (Bool-cases (n == m)) [
    | inl same ↦
        let here : n ≡ m = ground (arith, same) in
        let gone : lookup ◌==◌ m (erase ◌==◌ n backlog) ≡ none =
          ap (λ k. lookup ◌==◌ k (erase ◌==◌ n backlog)) (sym here) ∙ lookup-erase_same n backlog in
        cc (gone, e)
    | inr differs ↦ sym (lookup-erase_other n m backlog differs) ∙ e
  ]

  taken-erase :
      (n : ℕ) (backlog : List (ℕ × IncomingRequest H)) (requests : List (IncomingRequest H))
      → All (λ r. lookup ◌==◌ (cseq_of r) (erase ◌==◌ n backlog) ≡ some r) requests
      → All (λ r. lookup ◌==◌ (cseq_of r) backlog ≡ some r) requests
  taken-erase n backlog [] h = tt
  taken-erase n backlog (r ∷ requests) h =
      (lookup-erase-some n (cseq_of r) backlog r h.0, taken-erase n backlog requests h.1)

  left-erase :
      (n m : ℕ) (backlog rest : List (ℕ × IncomingRequest H)) (request : IncomingRequest H)
      (requests : List (IncomingRequest H))
      → cseq_of request ≡ n
      → lookup ◌==◌ m rest
        ≡ (if has_cseq m requests then none else lookup ◌==◌ m (erase ◌==◌ n backlog))
      → lookup ◌==◌ m rest
        ≡ (if has_cseq m (request ∷ requests) then none else lookup ◌==◌ m backlog)
  left-erase n m backlog rest request requests at h = elim (Bool-cases (n == m)) [
    | inl same ↦
        let here : n ≡ m = ground (arith, same) in
        let gone : lookup ◌==◌ m (erase ◌==◌ n backlog) ≡ none =
          ap (λ k. lookup ◌==◌ k (erase ◌==◌ n backlog)) (sym here) ∙ lookup-erase_same n backlog in
        ground (arith, gone, h, at, same)
    | inr differs ↦ ground (arith, lookup-erase_other n m backlog differs, h, at, differs)
  ]

  pub drain-Drains :
      (fuel n : ℕ) (backlog : List (ℕ × IncomingRequest H))
      → length backlog < fuel
      → All IsFiled backlog
      → Drains n backlog (drain fuel n backlog).0 (drain fuel n backlog).1
  unfolding drain
  drain-Drains ℕ.zero n backlog lt h = ground arith
  drain-Drains (suc fuel) n backlog lt h = elim (Option-cases (lookup ◌==◌ n backlog)) [
    | inl e ↦
        rw (e, drain)
          (record { consecutive = tt; complete = e; filed = h; taken = tt; left = λ m. refl })
    | inr (request, e) ↦
        let d =
          drain-Drains fuel (next_cseq n) (erase ◌==◌ n backlog)
            (omega (arith, length-erase_lt ◌==◌ n backlog request e))
            (All-erase ◌==◌ IsFiled n backlog h) in
        rw (e, drain)
          (record {
            consecutive = (IsFiled-lookup n backlog request h e, d.consecutive);
            complete = d.complete;
            filed = d.filed;
            taken = (
              ap (λ k. lookup ◌==◌ k backlog) (IsFiled-lookup n backlog request h e) ∙ e,
              taken-erase n backlog _ d.taken,
            );
            left = λ m.
                left-erase n m backlog _ request _ (IsFiled-lookup n backlog request h e)
                  (d.left m);
          })
  ]

  -- The keys of the backlog are `n` or more.
  abbrev pub From : ℕ → List (ℕ × IncomingRequest H) → Type 0
  From n backlog = All (λ entry. n ≤ entry.0) backlog

  From-erase :
      (n : ℕ) (backlog : List (ℕ × IncomingRequest H))
      → From n backlog
      → From (next_cseq n) (erase ◌==◌ n backlog)
  unfolding erase
  From-erase n [] h = tt
  From-erase n (entry ∷ backlog) h = ground (arith, From-erase n backlog h.1)

  pub From-absent :
      (n : ℕ) (backlog : List (ℕ × IncomingRequest H))
      → From n backlog
      → lookup ◌==◌ n backlog ≡ none
      → From (next_cseq n) backlog
  unfolding lookup
  From-absent n [] h e = tt
  From-absent n (entry ∷ backlog) h e = ground (arith, From-absent n backlog h.1)

  pub drain-From :
      (fuel n : ℕ) (backlog : List (ℕ × IncomingRequest H))
      → From n backlog
      → From (behind n (drain fuel n backlog).0) (drain fuel n backlog).1
  unfolding drain
  drain-From ℕ.zero n backlog h = h
  drain-From (suc fuel) n backlog h = elim (Option-cases (lookup ◌==◌ n backlog)) [
    | inl e ↦ rw (e, drain) h
    | inr (request, e) ↦
        rw (e, drain)
          (drain-From fuel (next_cseq n) (erase ◌==◌ n backlog) (From-erase n backlog h))
  ]

  -- The number behind a run that is not empty follows its last CSeq.
  pub behind-last_cseq :
      (n : ℕ) (request : IncomingRequest H) (requests : List (IncomingRequest H))
      → Consecutive n (request ∷ requests)
      → behind n (request ∷ requests) ≡ next_cseq (last_cseq request requests)
  behind-last_cseq n request [] h = rw (h.0) refl
  behind-last_cseq n request (next ∷ requests) h = behind-last_cseq (next_cseq n) next requests h.1
