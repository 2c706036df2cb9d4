-- ===== src/Rtp/Session/Reports.antt =====
-- The reports of media/rtp/src/session/mod.rs.
use ezk.Common.{ℕ, ◌+◌, ◌%◌, ◌^◌, ◌≡◌, refl, ◌∙◌, ap, List, [], ◌∷◌, Option, none, some, map, arith}
use ezk.Rtp.Session.{
  Floats, SenderState, ReceiverState, RtpSession, ReportBlock, Report, sender_report,
  receiver_report, report_all, generate_rtcp_report, report_of,
}

module _ (floats : Floats) where
  -- What a receiver has lost: what was reported, and what its buffer has counted since.
  abbrev pub losses : ReceiverState floats → ℕ
  losses r = r.total_lost + r.jitter_buffer.lost

  abbrev pub blocks_of : Report floats → List (ReportBlock floats)
  blocks_of (sender_report ntp rtp packets octets blocks) = blocks
  blocks_of (receiver_report blocks) = blocks

  -- One block for each receiver, in order, with all its losses to 32 bits; the losses are kept,
  -- and the counters of the buffers are at zero.
  pub record Reports (session : RtpSession floats) (report : Report floats)
      (after : RtpSession floats) : Type 0 where
    pub sources : map (λ b. b.block_ssrc) (blocks_of report) ≡ map (λ r. r.ssrc) session.receiver
    pub cumulative :
        map (λ b. b.cumulative_lost) (blocks_of report)
        ≡ map (λ r. losses r % 2 ^ 32) session.receiver
    pub kept : map losses after.receiver ≡ map losses session.receiver
    pub reset :
        map (λ r. r.jitter_buffer.lost + r.jitter_buffer.received) after.receiver
        ≡ map (λ r. 0) session.receiver

  blocks_of-report_of :
      (clock_rate now : ℕ) (s : Option SenderState) (blocks : List (ReportBlock floats))
      → blocks_of (report_of floats clock_rate now s blocks) ≡ blocks
  blocks_of-report_of clock_rate now none blocks = refl
  blocks_of-report_of clock_rate now (some s) blocks = refl

  module _ (now : ℕ) where
    sources-report_all :
        (receivers : List (ReceiverState floats))
        → map (λ b. b.block_ssrc) (report_all floats now receivers).0 ≡ map (λ r. r.ssrc) receivers
    unfolding report_all
    sources-report_all [] = refl
    sources-report_all (r ∷ receivers) = ap (◌∷◌ r.ssrc) (sources-report_all receivers)

    cumulative-report_all :
        (receivers : List (ReceiverState floats))
        → map (λ b. b.cumulative_lost) (report_all floats now receivers).0
          ≡ map (λ r. losses r % 2 ^ 32) receivers
    unfolding report_all
    cumulative-report_all [] = refl
    cumulative-report_all (r ∷ receivers) =
        ap (◌∷◌ (losses r % 2 ^ 32)) (cumulative-report_all receivers)

    losses-report_all :
        (receivers : List (ReceiverState floats))
        → map losses (report_all floats now receivers).1 ≡ map losses receivers
    unfolding report_all
    losses-report_all [] = refl
    losses-report_all (r ∷ receivers) =
        let same : losses r + 0 ≡ losses r = omega arith in
        λ i. same i ∷ losses-report_all receivers i

    counters-report_all :
        (receivers : List (ReceiverState floats))
        → map
            (λ r. r.jitter_buffer.lost + r.jitter_buffer.received)
            (report_all floats now receivers).1
          ≡ map (λ r. 0) receivers
    unfolding report_all
    counters-report_all [] = refl
    counters-report_all (r ∷ receivers) = ap (◌∷◌ 0) (counters-report_all receivers)

  -- A report has a block for each receiver, in order, whose cumulative loss is all that the
  -- receiver has lost, to 32 bits; no loss is forgotten by it, and the counters of the jitter
  -- buffers start again at zero.
  pub generate_rtcp_report-Reports :
      (now : ℕ) (session : RtpSession floats)
      → let (report, after) = generate_rtcp_report floats now session in
        Reports session report after
  unfolding generate_rtcp_report
  generate_rtcp_report-Reports now session =
      let (blocks, receivers) = report_all floats now session.receiver in
      let all = blocks_of-report_of session.clock_rate now session.sender blocks in
      record {
        sources = ap (map (λ b. b.block_ssrc)) all ∙ sources-report_all now session.receiver;
        cumulative =
            ap (map (λ b. b.cumulative_lost)) all ∙ cumulative-report_all now session.receiver;
        kept = losses-report_all now session.receiver;
        reset = counters-report_all now session.receiver;
      }
