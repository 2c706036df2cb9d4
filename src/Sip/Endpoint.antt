-- ===== src/Sip/Endpoint.antt =====
-- sip/sip-core/src/endpoint.rs and transaction/mod.rs: how a received message finds the transaction,
-- the layer or the default answer that takes it. Keys are compared by `same`; the key of a message
-- and, of a request, its method are functions of the message. A layer is what it does with a request
-- by the time it returns.
pub mod Dispatch
use ezk.Common.{
  ℕ, zero, suc, List, [], ◌∷◌, Option, none, some, Bool, true, false, not, ◌&&◌, if◌then◌else◌,
}
use ezk.Common.Maps.{lookup, put, erase}
use ezk.Sip.Method.{Method}

-- What a received message comes to: the number of the layer that took it, and whether the layer
-- keeps the request, with its registration, when it returns; or the answer 481 in a new
-- transaction, and whether that outlives the handling; or nothing.
pub data Dispatched : Type 0 where
  malformed by_transaction orphaned ignored panics : Dispatched
  answered : Bool → Dispatched
  by_layer : ℕ → Bool → Dispatched

-- What a layer does with a request: it may take it, and then keep or drop it.
pub data Take : Type 0 where
  passes keeps drops : Take

-- The handler of a transaction takes a message or gives it back.
abbrev pub Transactions : Type 0 → Type 0 → Type 0
Transactions K M = List (K × (M → Bool))

abbrev pub is_ack : Method → Bool
is_ack Method.ack = true
is_ack method = false

abbrev pub is_invite : Method → Bool
is_invite Method.invite = true
is_invite method = false

-- What the task that handles a message comes to: the map as it is while the layers or the default
-- answer have the request, and the map when the task is done.
pub record Received (K M : Type 0) : Type 0 where
  pub result : Dispatched
  pub during : Transactions K M
  pub after : Transactions K M

-- Whether the transaction outlives the default answer. `respond_failure` answers an INVITE, and the
-- task waits until it ends; `respond` leaves a task that answers what is sent again, but on a
-- reliable transport, or when sending fails. `accepts` says whether the transport takes the answer
-- to a message, and `reliable` whether it is a reliable one.
abbrev pub outlives : {M : Type 0} → (M → Bool) → (M → Bool) → M → Method → Bool
outlives accepts reliable msg method =
    if is_invite method then false else (accepts msg && not (reliable msg))

module _ {K M : Type 0} where
  abbrev pub unchanged : Dispatched → Transactions K M → Received K M
  unchanged result map = record { result = result; during = map; after = map }

module _ {K M : Type 0} (same : K → K → Bool) where
  abbrev vacant_entry :
      K → (M → Bool) → Transactions K M → Option (M → Bool) → Option (Transactions K M)
  vacant_entry key handler map none = some (put same key handler map)
  vacant_entry key handler map (some occupied) = none

  -- `none` is the panic on a key that is there.
  unfoldable pub register_transaction :
      K → (M → Bool) → Transactions K M → Option (Transactions K M)
  unfolding lookup put
  register_transaction key handler map = vacant_entry key handler map (lookup same key map)

  unfoldable pub remove_transaction : K → Transactions K M → Transactions K M
  unfolding erase
  remove_transaction key map = erase same key map

  -- `get_handler`: the handler, or a registration that takes everything.
  abbrev handler_or_new :
      K → Transactions K M → Option (M → Bool) → Option (M → Bool) × Transactions K M
  handler_or_new key map (some handler) = (some handler, map)
  handler_or_new key map none = (none, put same key (λ msg. true) map)

  unfoldable pub get_handler : K → Transactions K M → Option (M → Bool) × Transactions K M
  get_handler key map = handler_or_new key map (lookup same key map)

  -- `add_filter`; `none` is the panic on a key that is not there.
  abbrev with_filter :
      K → (M → Bool) → Transactions K M → Option (M → Bool) → Option (Transactions K M)
  with_filter key filter map none = none
  with_filter key filter map (some old) =
      some (put same key (λ msg. if filter msg then old msg else false) map)

  unfoldable pub add_filter : K → (M → Bool) → Transactions K M → Option (Transactions K M)
  unfolding lookup put
  add_filter key filter map = with_filter key filter map (lookup same key map)

  module _ (key_of : M → Option K) (method_of : M → Option Method)
      (accepts reliable : M → Bool) where
    -- The drop of a request or of a transaction removes the key of its registration.
    abbrev dropped : Bool → K → Transactions K M → Transactions K M
    dropped created key map = if created then remove_transaction key map else map

    -- `handle_unwanted_request`: a transaction needs the registration.
    abbrev handle_unwanted_request : Bool → K → M → Transactions K M → Method → Received K M
    handle_unwanted_request created key msg map method =
        if is_ack method
        then record { result = ignored; during = map; after = dropped created key map }
        else if created
        then record {
          result = answered (outlives accepts reliable msg method);
          during = map;
          after = if outlives accepts reliable msg method then map else remove_transaction key map;
        }
        else unchanged panics map

    abbrev taken : ℕ → Bool → K → Transactions K M → Received K M → Take → Received K M
    taken index created key map later passes = later
    taken index created key map later keeps = unchanged (by_layer index true) map
    taken index created key map later drops = record {
      result = by_layer index false;
      during = map;
      after = dropped created key map;
    }

    -- The loop over the layers, up to the first that takes the request.
    unfoldable pub offer :
        List (M → Take) → ℕ → Bool → K → M → Method → Transactions K M → Received K M
    offer [] index created key msg method map = handle_unwanted_request created key msg map method
    offer (layer ∷ layers) index created key msg method map =
        taken index created key map (offer layers (suc index) created key msg method map)
          (layer msg)

    abbrev pub handle_new :
        List (M → Take) → Bool → K → M → Transactions K M → Option Method → Received K M
    handle_new layers created key msg map none = record {
      result = orphaned;
      during = map;
      after = dropped created key map;
    }
    handle_new layers created key msg map (some method) = offer layers 0 created key msg method map

    abbrev pub handle_found :
        List (M → Take) → K → M → Option (M → Bool) × Transactions K M → Received K M
    handle_found layers key msg (some handler, map) =
        if handler msg
        then unchanged by_transaction map
        else handle_new layers false key msg map (method_of msg)
    handle_found layers key msg (none, map) = handle_new layers true key msg map (method_of msg)

    abbrev pub handle_key : List (M → Take) → M → Transactions K M → Option K → Received K M
    handle_key layers msg map none = unchanged malformed map
    handle_key layers msg map (some key) = handle_found layers key msg (get_handler key map)

    unfoldable pub do_receive : List (M → Take) → M → Transactions K M → Received K M
    do_receive layers msg map = handle_key layers msg map (key_of msg)
