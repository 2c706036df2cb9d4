-- ===== src/Tests/Sip.antt =====
-- The SIP data types on concrete messages.
use text.Mathlib.Text.{starts_with}
use mathlib.Core.Option
use ezk.Common.{
  ℕ, suc, ◌+◌, ◌/◌, ◌≡◌, ◌↔◌, ◌⊎◌, refl, List, [], ◌∷◌, none, some, true, length, arith, ==_iff,
  ◌==◌,
}
use ezk.Common.Result.{Result, ok, err}
use ezk.Sip.Method.{Method}
use ezk.Sip.Params.{Param, get_val}
use ezk.Sip.Headers.{
  one, more, Entry, HeaderType, contains, insert, printed_len, display, get, edit,
}
use ezk.Sip.Headers.Values.{IsSame}
use ezk.Sip.Headers.Lookup.{IsDistinct}
use ezk.Sip.Headers.Edit.{Edits, edit-Edits}
use ezk.Sip.Headers.Print.{printed_len-display}
use ezk.Sip.TsxKey.{
  BaseHeaders, request, response, from_message_parts, client_key, branch_prefix, generate_branch,
}
use ezk.Sip.TsxKey.Matching.{
  from_message_parts-client, from_message_parts-same_branch, IsInviteOrAck,
}

-- Names and values are numbers here.
same_numbers : IsSame ◌==◌
same_numbers = record {
  same_refl = λ a. (==_iff a a).1 refl;
  same_symm = λ a b h. ground (arith, ==_iff a b, ==_iff b a);
  same_trans = λ a b c h k. ground (arith, ==_iff a b, ==_iff b c, ==_iff a c);
}

abbrev headers : List (Entry ℕ ℕ)
headers =
    record { name = 1; values = one 10 } ∷ record { name = 2; values = more (20 ∷ 21 ∷ []) } ∷ []

abbrev target : List (Entry ℕ ℕ)
target = record { name = 2; values = one 22 } ∷ []

inserted :
    insert ◌==◌ 1 11 headers
    ≡ record { name = 1; values = more (10 ∷ 11 ∷ []) }
      ∷ record { name = 2; values = more (20 ∷ 21 ∷ []) }
      ∷ []
unfolding insert
inserted = refl

headers-IsDistinct : IsDistinct ◌==◌ headers
unfolding contains
headers-IsDistinct = (refl, (refl, tt))

-- A header that is the first of its values.
abbrev first_value : List ℕ → Result ℕ ℕ
first_value [] = err 0
first_value (v ∷ vs) = ok v

abbrev number_header : HeaderType ℕ ℕ ℕ
number_header = record {
  decode = first_value;
  extend_values = λ h values. values;
  create_values = λ h. one h;
}

edit-Edits_example :
    Edits same_numbers number_header 2 suc 2 headers
      (get ◌==◌ number_header headers 2)
      (edit ◌==◌ number_header 2 suc headers)
edit-Edits_example = edit-Edits same_numbers number_header 2 2 suc headers headers-IsDistinct

abbrev digits : ℕ → List ℕ
digits n = (n / 10 + 48) ∷ []

printed_len-display_example :
    printed_len digits digits headers ≡ Option.map length (display digits digits headers)
printed_len-display_example = printed_len-display digits digits headers

abbrev params : List Param
params =
    record { name = "branch"; value = some "z9hG4bKabc" }
    ∷ record { name = "rport"; value = none }
    ∷ []

abbrev invite : BaseHeaders ℕ
invite = record {
  via = record { sent_by = 5060; params = params };
  more_via = [];
  from_tag = some "a";
  to_tag = none;
  call_id = "c";
  cseq = record { cseq = 1; method = Method.invite };
}

abbrev ack : BaseHeaders ℕ
ack = record invite { cseq = record { cseq = 1; method = Method.ack } }

invite_branch : get_val invite.via.params "branch" ≡ some (generate_branch "abc")
unfolding get_val generate_branch
invite_branch = refl

branch_starts : starts_with (generate_branch "abc") branch_prefix ≡ true
unfolding generate_branch
branch_starts = refl

from_message_parts-client_example :
    from_message_parts (response 200) invite ≡ some (client_key Method.invite "abc")
from_message_parts-client_example =
    from_message_parts-client invite Method.invite "abc" 200 invite_branch refl

from_message_parts-same_branch_example :
    (from_message_parts (request Method.invite) invite
      ≡ from_message_parts (request Method.ack) ack)
    ↔ ((Method.invite ≡ Method.ack) ⊎ (IsInviteOrAck Method.invite × IsInviteOrAck Method.ack))
from_message_parts-same_branch_example =
    from_message_parts-same_branch invite ack Method.invite Method.ack (generate_branch "abc")
      branch_starts invite_branch invite_branch refl refl
