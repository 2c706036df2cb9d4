-- ===== src/Ice/Stun.antt =====
-- media/ice/src/stun.rs: the retransmission timing, the messages that the agent builds, and the
-- binding to a STUN server. A message is what its builder is given.
pub mod Binding
use Prim.Native.String.{String, ◌++◌}
use text.Mathlib.Text.{◌==◌ as str_eq}
use ezk.Common.{
  ◌&&◌, ℕ, suc, ◌+◌, ◌*◌, ◌-◌, ◌^◌, min, List, [], ◌∷◌, Option, none, some, Bool, true, false, ltb,
  leb, ◌==◌, if◌then◌else◌, ◌||◌,
}
use ezk.Ice.Types.{
  Component, SocketAddr, Candidate, IceCredentials, Attribute, username, priority, ice_controlling,
  ice_controlled, use_candidate, error_code, xor_mapped_address, message_integrity, fingerprint,
  Class, StunMessage, IceEvent, send_data,
}

pub record StunConfig : Type 0 where
  pub initial_rto : ℕ
  pub max_retransmits : ℕ
  pub max_rto : ℕ
  pub binding_refresh_interval : ℕ

-- `StunConfig::new`.
abbrev pub default_config : StunConfig
default_config = record {
  initial_rto = 250;
  max_retransmits = 7;
  max_rto = 3000;
  binding_refresh_interval = 20000;
}

unfoldable pub retransmit_delta : StunConfig → ℕ → ℕ
retransmit_delta config attempts = min (config.initial_rto * 2 ^ attempts) config.max_rto

abbrev role_attribute : Bool → ℕ → Attribute
role_attribute is_controlling tie_breaker =
    if is_controlling then ice_controlling tie_breaker else ice_controlled tie_breaker

abbrev signed : String → List Attribute
signed key = message_integrity key ∷ fingerprint ∷ []

unfoldable pub make_binding_request :
    ℕ → IceCredentials → IceCredentials → Candidate → Bool → ℕ → Bool → StunMessage
make_binding_request id local_credentials remote_credentials candidate is_controlling tie
      nominates =
    record {
      class = Class.request;
      transaction_id = id;
      attributes =
          username (remote_credentials.ufrag ++ ":" ++ local_credentials.ufrag)
          ∷ priority candidate.priority
          ∷ role_attribute is_controlling tie
          ∷ (if nominates
              then use_candidate ∷ signed remote_credentials.pwd
              else signed remote_credentials.pwd);
    }

unfoldable pub make_success_response : ℕ → IceCredentials → SocketAddr → StunMessage
make_success_response id local_credentials source = record {
  class = Class.success;
  transaction_id = id;
  attributes = xor_mapped_address source ∷ signed local_credentials.pwd;
}

-- The answer to a role conflict; its class is Success.
unfoldable pub make_role_error :
    ℕ → IceCredentials → IceCredentials → SocketAddr → Bool → ℕ → StunMessage
make_role_error id local_credentials remote_credentials source is_controlling tie = record {
  class = Class.success;
  transaction_id = id;
  attributes =
      username (local_credentials.ufrag ++ ":" ++ remote_credentials.ufrag)
      ∷ error_code 487 "Role Conflict"
      ∷ role_attribute is_controlling tie
      ∷ xor_mapped_address source
      ∷ signed remote_credentials.pwd;
}

abbrev pub first {ℓ} : {A : Type ℓ} → (Attribute → Option A) → List Attribute → Option A
first read [] = none
first read (a ∷ attributes) = elim (read a) [
  | some value ↦ some value
  | none ↦ first read attributes
]

abbrev read_username : Attribute → Option String
read_username (username name) = some name
read_username a = none

abbrev read_integrity : Attribute → Option String
read_integrity (message_integrity key) = some key
read_integrity a = none

abbrev is_request : Class → Bool
is_request Class.request = true
is_request Class.indication = true
is_request class = false

abbrev is_text : Option String → String → Bool
is_text none expected = false
is_text (some text) expected = str_eq text expected

-- The check of the HMAC passes for the key that it was made with, and for no other.
unfoldable pub verify_integrity : IceCredentials → IceCredentials → StunMessage → Bool
verify_integrity local_credentials remote_credentials msg =
    if is_request msg.class
    then is_text (first read_integrity msg.attributes) local_credentials.pwd
      && is_text (first read_username msg.attributes)
          (local_credentials.ufrag ++ ":" ++ remote_credentials.ufrag)
    else is_text (first read_integrity msg.attributes) remote_credentials.pwd

pub data StunServerBindingState : Type 0 where
  waiting failed : StunServerBindingState
  in_progress : ℕ → StunMessage → ℕ → ℕ → StunServerBindingState
  waiting_for_refresh : ℕ → StunServerBindingState

pub record StunServerBinding : Type 0 where
  pub server : SocketAddr
  pub component : Component
  pub state : StunServerBindingState
  pub last_mapped_addr : Option SocketAddr

-- `StunServerBinding::new`.
unfoldable pub new : SocketAddr → Component → StunServerBinding
new server component = record {
  server = server;
  component = component;
  state = StunServerBindingState.waiting;
  last_mapped_addr = none;
}

abbrev is_some : Option SocketAddr → Bool
is_some none = false
is_some (some a) = true

abbrev is_failed : StunServerBindingState → Bool
is_failed StunServerBindingState.failed = true
is_failed state = false

unfoldable pub is_completed : StunServerBinding → Bool
is_completed binding = is_some binding.last_mapped_addr || is_failed binding.state

-- `checked_duration_since` with the default zero is `-` on ℕ.
unfoldable pub timeout : StunServerBindingState → ℕ → Option ℕ
timeout StunServerBindingState.waiting now = some 0
timeout (StunServerBindingState.in_progress id request retransmit_at n) now =
    some (retransmit_at - now)
timeout (StunServerBindingState.waiting_for_refresh refresh_at) now = some (refresh_at - now)
timeout StunServerBindingState.failed now = none

-- The binding and the events it gives, for the random transaction id `id`.
unfoldable pub start_binding_request :
    StunConfig → ℕ → ℕ → StunServerBinding → StunServerBinding × List IceEvent
unfolding retransmit_delta
start_binding_request config now id binding =
    let request : StunMessage = record {
      class = Class.request;
      transaction_id = id;
      attributes = fingerprint ∷ [];
    } in
    (
      record binding {
        state = StunServerBindingState.in_progress id request (now + retransmit_delta config 0) 0;
      },
      send_data binding.component request none binding.server ∷ [],
    )

abbrev poll_state :
    StunConfig
    → ℕ
    → ℕ
    → StunServerBinding
    → StunServerBindingState
    → StunServerBinding × List IceEvent
unfolding start_binding_request retransmit_delta
poll_state config now id binding StunServerBindingState.waiting =
    start_binding_request config now id binding
poll_state config now id binding (StunServerBindingState.in_progress tsx request at n) =
    if ltb now at
    then (binding, [])
    else if leb config.max_retransmits n
    then (record binding { state = StunServerBindingState.failed; last_mapped_addr = none }, [])
    else (
      record binding {
        state =
            StunServerBindingState.in_progress tsx request (at + retransmit_delta config (suc n))
              (suc n);
      },
      send_data binding.component request none binding.server ∷ [],
    )
poll_state config now id binding (StunServerBindingState.waiting_for_refresh refresh_at) =
    if ltb refresh_at now then start_binding_request config now id binding else (binding, [])
poll_state config now id binding StunServerBindingState.failed = (binding, [])

unfoldable pub poll : StunConfig → ℕ → ℕ → StunServerBinding → StunServerBinding × List IceEvent
unfolding start_binding_request retransmit_delta
poll config now id binding = poll_state config now id binding binding.state

abbrev wants : StunServerBindingState → ℕ → Bool
wants (StunServerBindingState.in_progress tsx request at n) id = id == tsx
wants state id = false

unfoldable pub wants_stun_response : StunServerBinding → ℕ → Bool
wants_stun_response binding id = wants binding.state id

-- A response with a mapped address, received at `now`.
unfoldable pub receive_stun_response :
    StunConfig → ℕ → StunServerBinding → SocketAddr → StunServerBinding
receive_stun_response config now binding mapped = record binding {
  state = StunServerBindingState.waiting_for_refresh (now + config.binding_refresh_interval);
  last_mapped_addr = some mapped;
}
