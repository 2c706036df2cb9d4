-- ===== src/Sip/ClientInvTsx/Ack.antt =====
-- The ACK that sip/sip-core/src/transaction/client_inv.rs makes for a failure. Of the comparison of
-- names only what it does with the six names of an ACK is relied on, since the `==` of `Name` in
-- sip/sip-types/src/header/name.rs is not transitive.
use ezk.Common.{◌≡◌, refl, ◌∙◌, List, [], ◌∷◌, Bool, true, false, All}
use ezk.Common.Result.{ok}
use ezk.Sip.Method.{Method}
use ezk.Sip.TsxKey.{CSeq}
use ezk.Sip.Headers.{Entry, to_list, contains, insert_type, get}
use ezk.Sip.Headers.Values.{values_of}
use ezk.Sip.ClientInvTsx.{Syntax, OutgoingRequest, create_ack, cseq_type, max_forwards_type}
use ezk.Sip.Headers.Adds.{Adds, clone_into-Adds, insert_type-Adds}

-- No two of the names are the same, whichever comes first in the comparison.
abbrev pub AreApart : {N : Type 0} → (N → N → Bool) → List N → Type 0
AreApart same [] = Unit {0}
AreApart same (n ∷ names) =
    All (λ m. (same n m ≡ false) × (same m n ≡ false)) names × AreApart same names

abbrev pub ack_names : {N V E : Type 0} → Syntax N V E → List N
ack_names s = s.via ∷ s.from ∷ s.to ∷ s.call_id ∷ s.max_forwards ∷ s.cseq ∷ []

-- The number of the request under the method ACK.
abbrev ack_cseq : CSeq → CSeq
ack_cseq cseq = record { cseq = cseq.cseq; method = Method.ack }

module _ {N V E P : Type 0} (s : Syntax N V E) where
  -- Via, From and Call-ID of the request, To of the response, and nothing else but the number of
  -- the request under the method ACK, and Max-Forwards.
  pub record IsAckOf (req : OutgoingRequest N V P) (response_headers : List (Entry N V))
      (cseq : CSeq) (ack : OutgoingRequest N V P) : Type 0 where
    pub acks : ack.method ≡ Method.ack
    pub to_same_target : ack.parts ≡ req.parts
    pub via_copied : values_of s.same ack.headers s.via ≡ values_of s.same req.headers s.via
    pub from_copied : values_of s.same ack.headers s.from ≡ values_of s.same req.headers s.from
    pub to_answered : values_of s.same ack.headers s.to ≡ values_of s.same response_headers s.to
    pub call_id_copied :
        values_of s.same ack.headers s.call_id ≡ values_of s.same req.headers s.call_id
    pub hops : values_of s.same ack.headers s.max_forwards ≡ s.print_max_forwards 70 ∷ []
    pub numbered :
        values_of s.same ack.headers s.cseq
        ≡ s.print_cseq (record { cseq = cseq.cseq; method = Method.ack }) ∷ []
    pub nothing_else :
        (m : N) → All (λ n. s.same n m ≡ false) (ack_names s) → values_of s.same ack.headers m ≡ []

  abbrev ack_with : OutgoingRequest N V P → CSeq → List (Entry N V) → OutgoingRequest N V P
  ack_with req cseq h = record {
    method = Method.ack;
    parts = req.parts;
    headers =
        insert_type s.same (cseq_type s) s.cseq (record { cseq = cseq.cseq; method = Method.ack })
          (insert_type s.same (max_forwards_type s) s.max_forwards 70 h);
  }

  -- The four headers are copied one after the other, and the two others are new.
  ack_with-IsAckOf :
      (req : OutgoingRequest N V P) (response_headers h1 h2 h3 h4 : List (Entry N V)) (cseq : CSeq)
      → AreApart s.same (ack_names s)
      → Adds s.same s.via (values_of s.same req.headers s.via) [] h1
      → Adds s.same s.from (values_of s.same req.headers s.from) h1 h2
      → Adds s.same s.to (values_of s.same response_headers s.to) h2 h3
      → Adds s.same s.call_id (values_of s.same req.headers s.call_id) h3 h4
      → Adds s.same s.max_forwards
          (s.print_max_forwards 70 ∷ [])
          h4
          (insert_type s.same (max_forwards_type s) s.max_forwards 70 h4)
      → Adds s.same s.cseq
          (s.print_cseq (ack_cseq cseq) ∷ [])
          (insert_type s.same (max_forwards_type s) s.max_forwards 70 h4)
          (ack_with req cseq h4).headers
      → IsAckOf req response_headers cseq (ack_with req cseq h4)
  unfolding values_of
  ack_with-IsAckOf req response_headers h1 h2 h3 h4 cseq (a, (b, (c, (d, (e, _))))) v1 v2 v3 v4 v5
        v6 =
      record {
        acks = refl;
        to_same_target = refl;
        via_copied =
            v6.others s.via a.1.1.1.1.0.1
            ∙ v5.others s.via a.1.1.1.0.1
            ∙ v4.others s.via a.1.1.0.1
            ∙ v3.others s.via a.1.0.1
            ∙ v2.others s.via a.0.1
            ∙ v1.own;
        from_copied =
            v6.others s.from b.1.1.1.0.1
            ∙ v5.others s.from b.1.1.0.1
            ∙ v4.others s.from b.1.0.1
            ∙ v3.others s.from b.0.1
            ∙ v2.own;
        to_answered =
            v6.others s.to c.1.1.0.1 ∙ v5.others s.to c.1.0.1 ∙ v4.others s.to c.0.1 ∙ v3.own;
        call_id_copied = v6.others s.call_id d.1.0.1 ∙ v5.others s.call_id d.0.1 ∙ v4.own;
        hops = v6.others s.max_forwards e.0.1 ∙ v5.own;
        numbered = v6.own;
        nothing_else = λ m (f, (g, (x, (y, (z, (w, _)))))).
            v6.others m w
            ∙ v5.others m z
            ∙ v4.others m y
            ∙ v3.others m x
            ∙ v2.others m g
            ∙ v1.others m f;
      }

  -- With the headers that it copies, an ACK is made for every failure, if each of the six names of
  -- an ACK is the same as itself and no two of them are the same. It has the Via, From and Call-ID of
  -- the request and the To of the response, the number of the request under the method ACK, and
  -- Max-Forwards, and no other header, so no Route of the request.
  pub create_ack-IsAckOf :
      (req : OutgoingRequest N V P) (response_headers : List (Entry N V)) (cseq : CSeq)
      → All (λ n. s.same n n ≡ true) (ack_names s)
      → AreApart s.same (ack_names s)
      → contains s.same req.headers s.via ≡ true
      → contains s.same req.headers s.from ≡ true
      → contains s.same response_headers s.to ≡ true
      → contains s.same req.headers s.call_id ≡ true
      → get s.same (cseq_type s) req.headers s.cseq ≡ ok cseq
      → (ack : OutgoingRequest N V P) × (create_ack s req response_headers ≡ ok ack)
        × IsAckOf req response_headers cseq ack
  unfolding create_ack values_of to_list
  create_ack-IsAckOf req response_headers cseq (i, (j, (k, (l, (o, (p, _))))))
        (a, (b, (c, (d, (e, f))))) via from to call_id numbered =
      let (h1, e1, v1) = clone_into-Adds s.same s.via i {E = E} req.headers [] via tt in
      let (h2, e2, v2) =
        clone_into-Adds s.same s.from j {E = E} req.headers h1 from (v1.absent s.from a.0.0 tt) in
      let (h3, e3, v3) =
        clone_into-Adds s.same s.to k {E = E} response_headers h2 to
          (v2.absent s.to b.0.0 (v1.absent s.to a.1.0.0 tt)) in
      let (h4, e4, v4) = clone_into-Adds s.same s.call_id l {E = E} req.headers h3 call_id (
        v3.absent s.call_id c.0.0
          (v2.absent s.call_id b.1.0.0 (v1.absent s.call_id a.1.1.0.0 tt))) in
      let v5 = insert_type-Adds s.same s.max_forwards o (max_forwards_type s) 70 h4 (
        v4.absent s.max_forwards d.0.0 (
          v3.absent s.max_forwards c.1.0.0
            (v2.absent s.max_forwards b.1.1.0.0 (v1.absent s.max_forwards a.1.1.1.0.0 tt)))) in
      let v6 =
        insert_type-Adds s.same s.cseq p (cseq_type s) (ack_cseq cseq)
          (insert_type s.same (max_forwards_type s) s.max_forwards 70 h4)
          (v5.absent s.cseq e.0.0 (
            v4.absent s.cseq d.1.0.0 (
              v3.absent s.cseq c.1.1.0.0
                (v2.absent s.cseq b.1.1.1.0.0 (v1.absent s.cseq a.1.1.1.1.0.0 tt))))) in
      (
        ack_with req cseq h4,
        rw (e1, e2, e3, e4, numbered) refl,
        ack_with-IsAckOf req response_headers h1 h2 h3 h4 cseq (a, (b, (c, (d, (e, f))))) v1 v2 v3
            v4 v5 v6,
      )
