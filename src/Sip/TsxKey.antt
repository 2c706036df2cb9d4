-- ===== src/Sip/TsxKey.antt =====
-- sip/sip-core/src/transaction/key.rs, with `generate_branch` of transaction/mod.rs and the parsed
-- headers of sip-core/src/lib.rs that it reads. A `BytesStr` is a text; `H` is `HostPort`.
pub mod Matching
use Prim.Native.String.{String, ◌++◌}
use text.Mathlib.Text.{starts_with}
use ezk.Common.{ℕ, List, Option, none, some, Bool, true, false, if◌then◌else◌}
use ezk.Sip.Method.{Method}
use ezk.Sip.Params.{Param, get_val}

abbrev pub branch_prefix : String
branch_prefix = "z9hG4bK"

-- The prefix, and the 23 random characters that are drawn.
unfoldable pub generate_branch : String → String
generate_branch random = branch_prefix ++ random

pub data Role : Type 0 where
  server client : Role

pub record Rfc2543 (H : Type 0) : Type 0 where
  pub role : Role
  pub method : Option Method
  pub cseq : ℕ
  pub from_tag : String
  pub call_id : String
  pub via_host_port : H

pub record Rfc3261 : Type 0 where
  pub role : Role
  pub branch : String
  pub method : Option Method

pub data TsxKey (H : Type 0) : Type 0 where
  rfc3261 : Rfc3261 → TsxKey H
  rfc2543 : Rfc2543 H → TsxKey H

pub record Via (H : Type 0) : Type 0 where
  pub sent_by : H
  pub params : List Param

pub record CSeq : Type 0 where
  pub cseq : ℕ
  pub method : Method

-- What `from_headers` reads of `BaseHeaders`; the vector of Via headers is never empty.
pub record BaseHeaders (H : Type 0) : Type 0 where
  pub via : Via H
  pub more_via : List (Via H)
  pub from_tag : Option String
  pub to_tag : Option String
  pub call_id : String
  pub cseq : CSeq

-- INVITE and ACK are `none`, so that the ACK to a failure matches the transaction of its INVITE.
unfoldable pub filter_method : Method → Option Method
filter_method Method.invite = none
filter_method Method.ack = none
filter_method method = some method

abbrev pub is_server_role : Role → Bool
is_server_role Role.server = true
is_server_role Role.client = false

abbrev pub is_none : Option Method → Bool
is_none none = true
is_none (some method) = false

-- `unwrap_or(&EMPTY)`.
abbrev pub unwrap_or_empty : Option String → String
unwrap_or_empty none = ""
unwrap_or_empty (some s) = s

module _ {H : Type 0} where
  unfoldable pub is_server : TsxKey H → Bool
  is_server (rfc3261 rfc) = is_server_role rfc.role
  is_server (rfc2543 rfc) = is_server_role rfc.role

  unfoldable pub is_invite : TsxKey H → Bool
  is_invite (rfc3261 rfc) = is_none rfc.method
  is_invite (rfc2543 rfc) = is_none rfc.method

  unfoldable pub branch : TsxKey H → String
  branch (rfc3261 v) = v.branch
  branch (rfc2543 v) = ""

  -- The key of a new client transaction, from the characters that are drawn.
  unfoldable pub client_key : Method → String → TsxKey H
  unfolding filter_method generate_branch
  client_key method random = rfc3261 (record {
    role = Role.client;
    branch = generate_branch random;
    method = filter_method method;
  })

  -- Without a From tag the answer is the error "Missing Tag", here `none`.
  abbrev legacy_key : BaseHeaders H → Role → Option String → Option (TsxKey H)
  unfolding filter_method
  legacy_key headers role none = none
  legacy_key headers role (some from_tag) = some (
      rfc2543 (record {
        role = role;
        method = filter_method headers.cseq.method;
        cseq = headers.cseq.cseq;
        from_tag = from_tag;
        call_id = headers.call_id;
        via_host_port = headers.via.sent_by;
      }))

  unfoldable pub from_headers : BaseHeaders H → Role → Option (TsxKey H)
  unfolding filter_method
  from_headers headers role =
      let branch = unwrap_or_empty (get_val headers.via.params "branch") in
      if starts_with branch branch_prefix
      then some (
          rfc3261
            (record { role = role; branch = branch; method = filter_method headers.cseq.method }))
      else legacy_key headers role headers.from_tag

pub data MessageLine : Type 0 where
  request : Method → MessageLine
  response : ℕ → MessageLine

module _ {H : Type 0} where
  unfoldable pub from_message_parts : MessageLine → BaseHeaders H → Option (TsxKey H)
  unfolding from_headers
  from_message_parts (request method) headers = from_headers headers Role.server
  from_message_parts (response code) headers = from_headers headers Role.client
