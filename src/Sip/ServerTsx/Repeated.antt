-- ===== src/Sip/ServerTsx/Repeated.antt =====
-- The requests that come again behind a final response, `respond` of
-- sip/sip-core/src/transaction/server.rs.
use ezk.Common.{
  ℕ, suc, ◌+◌, ◌≡◌, refl, ◌∙◌, List, [], ◌∷◌, ◌++◌, Bool, true, false, map, arith, ap,
  if◌then◌else◌,
}
use ezk.Sip.StatusCode.{kind}
use ezk.Sip.TsxKey.{MessageLine, request, response}
use ezk.Sip.ClientTsx.{is_provisional}
use ezk.Sip.ServerTsx.{Event, message, abandon, stopped, answer_again, respond}

abbrev pub is_request : MessageLine → Bool
is_request (request method) = true
is_request (response code) = false

abbrev pub requests : List MessageLine → ℕ
requests [] = 0
requests (line ∷ lines) = let n = requests lines in if is_request line then suc n else n

answer_again-requests :
    (sent : ℕ) (lines : List MessageLine) (later : List Event)
    → answer_again sent (map message lines ++ (abandon ∷ later)) ≡ stopped (sent + requests lines)
unfolding answer_again
answer_again-requests sent [] later = ap stopped (omega arith)
answer_again-requests sent (request method ∷ lines) later =
    answer_again-requests (suc sent) lines later ∙ ap stopped (omega arith)
answer_again-requests sent (response code ∷ lines) later = answer_again-requests sent lines later

-- On a transport that is not reliable, a final response that is accepted once is sent again for
-- every request that arrives before the 64 T1 are over, for nothing else, and for nothing that
-- comes later; on a reliable one it is never sent again.
respond-requests :
    (code : ℕ) (lines : List MessageLine) (later : List Event)
    → is_provisional (kind code) ≡ false
    → (respond false code true (map message lines ++ (abandon ∷ later)) ≡ stopped (requests lines))
      × (respond true code true (map message lines ++ (abandon ∷ later)) ≡ stopped 0)
unfolding respond
respond-requests code lines later final =
    (rw (final) (answer_again-requests 0 lines later ∙ ap stopped (omega arith)), rw (final) refl)
