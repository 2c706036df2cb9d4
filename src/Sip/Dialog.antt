-- ===== src/Sip/Dialog.antt =====
-- sip/sip-ua/src/dialog/layer.rs and key.rs: how a request that is part of a dialog is ordered by
-- its CSeq and handed to the usages. A map is a list of keys and values; `usages` lists the values
-- of the slot map in its order. A CSeq number is a `u32`, so its successor wraps.
pub mod Backlog
pub mod Order
pub mod Runs
use Prim.Native.String.{String}
use Prim.Native.Nat.{compare, Ordering}
use text.Mathlib.Text.{◌==◌ as str_eq}
use ezk.Common.{
  ℕ, suc, ◌+◌, ◌%◌, List, [], ◌∷◌, Option, none, some, Bool, true, false, ◌&&◌, length, ◌==◌,
  if◌then◌else◌,
}
use ezk.Common.Maps.{lookup, erase, put}
use ezk.Sip.Method.{Method}
use ezk.Sip.TsxKey.{BaseHeaders}

pub record DialogKey : Type 0 where
  pub call_id : String
  pub peer_tag : Option String
  pub local_tag : String

pub record IncomingRequest (H : Type 0) : Type 0 where
  pub method : Method
  pub base_headers : BaseHeaders H
  pub body : String

-- What a usage does with a request that it is offered: it takes it, or it leaves it.
pub record Usage (H : Type 0) : Type 0 where
  pub name : String
  pub takes : IncomingRequest H → Bool

pub record DialogEntry (H : Type 0) : Type 0 where
  pub backlog : List (ℕ × IncomingRequest H)
  pub next_peer_cseq : Option ℕ
  pub usages : List (Usage H)

abbrev pub next_cseq : ℕ → ℕ
next_cseq n = (n + 1) % 4294967296

abbrev pub same_tag : Option String → Option String → Bool
same_tag none none = true
same_tag (some a) (some b) = str_eq a b
same_tag none (some b) = false
same_tag (some a) none = false

abbrev pub same_key : DialogKey → DialogKey → Bool
same_key a b =
    str_eq a.call_id b.call_id && (same_tag a.peer_tag b.peer_tag && str_eq a.local_tag b.local_tag)

-- What becomes of a request that no usage takes.
pub data Unwanted : Type 0 where
  no_response invite_not_found not_found : Unwanted

unfoldable pub handle_unwanted_request : Method → Unwanted
handle_unwanted_request Method.ack = Unwanted.no_response
handle_unwanted_request Method.invite = Unwanted.invite_not_found
handle_unwanted_request method = Unwanted.not_found

pub data Handled (H : Type 0) : Type 0 where
  by_usage : String → IncomingRequest H → Handled H
  unwanted : Unwanted → IncomingRequest H → Handled H

abbrev new_next : Option ℕ → Option ℕ
new_next none = none
new_next (some peer_cseq) = some (next_cseq peer_cseq)

abbrev pub get_or_insert : Option ℕ → ℕ → ℕ
get_or_insert none n = n
get_or_insert (some m) n = m

-- The answer of the layer: the request is not its own, or it took it, with what it handed on.
pub data Received (H : Type 0) : Type 0 where
  left : Received H
  took : List (DialogKey × DialogEntry H) → List (Handled H) → Received H

module _ {H : Type 0} where
  -- `DialogEntry::new`.
  unfoldable pub new : Option ℕ → DialogEntry H
  new peer_cseq = record { backlog = []; next_peer_cseq = new_next peer_cseq; usages = [] }

  abbrev key_of : BaseHeaders H → Option String → Option DialogKey
  key_of headers none = none
  key_of headers (some local_tag) =
      some
        (record { call_id = headers.call_id; peer_tag = headers.from_tag; local_tag = local_tag })

  unfoldable pub from_incoming : IncomingRequest H → Option DialogKey
  from_incoming request = key_of request.base_headers request.base_headers.to_tag

  abbrev pub cseq_of : IncomingRequest H → ℕ
  cseq_of request = request.base_headers.cseq.cseq

  -- `for next_cseq in from..`: the requests found one after the other, and the backlog without
  -- them. Each round takes an entry out, so fuel above the number of entries is enough.
  unfoldable pub drain :
      ℕ → ℕ → List (ℕ × IncomingRequest H) → List (IncomingRequest H) × List (ℕ × IncomingRequest H)
  unfolding lookup erase put
  drain ℕ.zero from backlog = ([], backlog)
  drain (suc fuel) from backlog = elim (lookup ◌==◌ from backlog) [
    | none ↦ ([], backlog)
    | some request ↦
        let (requests, rest) = drain fuel (next_cseq from) (erase ◌==◌ from backlog) in
        (request ∷ requests, rest)
  ]

  abbrev pub last_cseq : IncomingRequest H → List (IncomingRequest H) → ℕ
  last_cseq request [] = cseq_of request
  last_cseq request (next ∷ requests) = last_cseq next requests

  -- `Ordering::Equal`: the loop starts at the CSeq of the request itself.
  abbrev pub receive_expected :
      DialogEntry H
      → IncomingRequest H
      → List (IncomingRequest H) × List (ℕ × IncomingRequest H)
      → DialogEntry H × Option (List (IncomingRequest H))
  receive_expected entry request (requests, backlog) = (
    record entry {
      backlog = backlog;
      next_peer_cseq = some (next_cseq (last_cseq request requests));
    },
    some (request ∷ requests),
  )

  abbrev receive_compared :
      DialogEntry H
      → IncomingRequest H
      → ℕ
      → Ordering
      → DialogEntry H × Option (List (IncomingRequest H))
  unfolding drain erase put
  receive_compared entry request next Ordering.lt =
      (record entry { next_peer_cseq = some next }, some (request ∷ []))
  receive_compared entry request next Ordering.eq =
      receive_expected entry request
        (drain (suc (length entry.backlog)) (cseq_of request) entry.backlog)
  receive_compared entry request next Ordering.gt = (
    record entry {
      backlog = put ◌==◌ (cseq_of request) request entry.backlog;
      next_peer_cseq = some next;
    },
    none,
  )

  -- The part of `receive` under the lock, for the entry of the dialog: `none` returns at once.
  unfoldable pub receive_entry :
      DialogEntry H → IncomingRequest H → DialogEntry H × Option (List (IncomingRequest H))
  unfolding drain erase put
  receive_entry entry request =
      let next = get_or_insert entry.next_peer_cseq (cseq_of request) in
      receive_compared entry request next (compare (cseq_of request) next)

  -- The usages are offered the request in their order until one takes it.
  unfoldable pub offer : List (Usage H) → IncomingRequest H → Handled H
  unfolding handle_unwanted_request
  offer [] request = unwanted (handle_unwanted_request request.method) request
  offer (usage ∷ usages) request =
      if usage.takes request then by_usage usage.name request else offer usages request

  abbrev offer_all : List (Usage H) → List (IncomingRequest H) → List (Handled H)
  unfolding offer
  offer_all usages [] = []
  offer_all usages (request ∷ requests) = offer usages request ∷ offer_all usages requests

  abbrev receive_found :
      List (DialogKey × DialogEntry H)
      → DialogKey
      → List (Usage H)
      → DialogEntry H × Option (List (IncomingRequest H))
      → Received H
  unfolding offer erase put
  receive_found dialogs key usages (entry, none) = took (put same_key key entry dialogs) []
  receive_found dialogs key usages (entry, some requests) =
      took (put same_key key entry dialogs) (offer_all usages requests)

  abbrev receive_at :
      List (DialogKey × DialogEntry H)
      → IncomingRequest H
      → DialogKey
      → Option (DialogEntry H)
      → Received H
  unfolding receive_entry offer erase put
  receive_at dialogs request key none = left
  receive_at dialogs request key (some entry) =
      receive_found dialogs key entry.usages (receive_entry entry request)

  abbrev receive_keyed :
      List (DialogKey × DialogEntry H) → IncomingRequest H → Option DialogKey → Received H
  unfolding receive_entry offer erase put lookup
  receive_keyed dialogs request none = left
  receive_keyed dialogs request (some key) =
      receive_at dialogs request key (lookup same_key key dialogs)

  unfoldable pub receive : List (DialogKey × DialogEntry H) → IncomingRequest H → Received H
  unfolding from_incoming receive_entry offer erase put lookup
  receive dialogs request = receive_keyed dialogs request (from_incoming request)
