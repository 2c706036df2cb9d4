-- ===== src/Tests/Dispatch.antt =====
-- The dispatch of received messages. A message is a number, its key what is left over by ten, and
-- one that is above 100 is an INFO request.
use ezk.Common.{ℕ, ◌%◌, List, [], ◌∷◌, Option, none, some, Bool, true, ltb, if◌then◌else◌}
use ezk.Sip.Method.{Method}
use ezk.Sip.Endpoint.{Take, passes, keeps, drops}

abbrev key_by : ℕ → Option ℕ
key_by n = some (n % 10)

abbrev method_of : ℕ → Option Method
method_of n = if ltb 100 n then some Method.info else none

-- The second of two layers keeps what is above 200, and drops what is above 300.
abbrev layers : List (ℕ → Take)
layers =
    (λ n. passes) ∷ (λ n. if ltb 300 n then drops else (if ltb 200 n then keeps else passes)) ∷ []

abbrev transactions : List (ℕ × (ℕ → Bool))
transactions = (3, λ n. true) ∷ []

-- The transport takes every answer, and what is above 150 came over a reliable one.
abbrev accepts : ℕ → Bool
accepts n = true

abbrev reliable : ℕ → Bool
reliable n = ltb 150 n
