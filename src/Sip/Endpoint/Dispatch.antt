-- ===== src/Sip/Endpoint/Dispatch.antt =====
-- What do_receive of sip/sip-core/src/endpoint.rs leaves of the transactions.
use ezk.Common.{
  ℕ, suc, ◌≡◌, ◌≢◌, List, [], ◌∷◌, Option, none, some, Bool, true, false, ◌⊎◌, ◌↔◌, if◌then◌else◌,
}
use ezk.Common.Maps.{lookup, put}
use ezk.Sip.Method.{Method}
use ezk.Sip.Endpoint.{
  Dispatched, malformed, by_transaction, orphaned, ignored, answered, by_layer, panics, Take,
  passes, keeps, drops, Received, unchanged, do_receive,
}

module _ {K M : Type 0} (same : K → K → Bool) where
  module _ (key_of : M → Option K) (method_of : M → Option Method)
      (accepts reliable : M → Bool) where
    -- Each of the layers leaves the message.
    abbrev pub PassedBy : M → List (M → Take) → Type 0
    PassedBy msg [] = Unit {0}
    PassedBy msg (layer ∷ layers) = (layer msg ≡ passes) × PassedBy msg layers

    -- Of the layers, which are counted from `index`, the `i`-th is the first that takes the message.
    abbrev pub TakenBy : M → ℕ → List (M → Take) → ℕ → Bool → Type 0
    TakenBy msg index [] i keeping = ⊥
    TakenBy msg index (layer ∷ layers) i keeping =
        ((i ≡ index) × (layer msg ≡ (if keeping then keeps else drops)))
        ⊎ ((layer msg ≡ passes) × TakenBy msg (suc index) layers i keeping)

    -- Why a message without a transaction comes to the result.
    abbrev pub Explains : M → ℕ → List (M → Take) → Option Method → Dispatched → Type 0
    Explains msg index layers method malformed = ⊥
    Explains msg index layers method by_transaction = ⊥
    Explains msg index layers method panics = ⊥
    Explains msg index layers method orphaned = method ≡ none
    Explains msg index layers method ignored = (method ≡ some Method.ack) × PassedBy msg layers
    Explains msg index layers method (answered stays) =
        (m : Method) × (method ≡ some m)
        × ((m ≢ Method.ack) × PassedBy msg layers)
        × ((stays ≡ true) ↔ ((m ≢ Method.invite) × ((accepts msg ≡ true) × (reliable msg ≡ false))))
    Explains msg index layers method (by_layer i keeping) = TakenBy msg index layers i keeping

    -- Whether the registration of a message outlives its handling.
    abbrev pub is_kept : Dispatched → Bool
    is_kept (answered stays) = stays
    is_kept (by_layer i keeping) = keeping
    is_kept result = false

    module _ (layers : List (M → Take)) where
      -- What the handling of a message comes to, whose key `k` has no transaction in `map`: while it
      -- lasts, the key has a transaction that takes every further message of the key; when it is
      -- done, the transaction is still there if it was kept, and else the map is what it was.
      pub record Registers (k : K) (msg : M) (map : List (K × (M → Bool))) (r : Received K M)
          : Type 0 where
        pub explained : Explains msg 0 layers (method_of msg) r.result
        pub delivered :
            (next : M)
            → key_of next ≡ some k
            → do_receive same key_of method_of accepts reliable layers next r.during
              ≡ unchanged by_transaction r.during
        pub settled : r.after ≡ (if is_kept r.result then r.during else map)

      module _ (k : K) (is : same k k ≡ true) (map : List (K × (M → Bool)))
          (fresh : lookup same k map ≡ none) where
        abbrev registered : List (K × (M → Bool))
        registered = put same k (λ msg. true) map

        record Settles (msg : M) (index : ℕ) (rest : List (M → Take)) (method : Option Method)
            (r : Received K M) : Type 0 where
          why : Explains msg index rest method r.result
          held : r.during ≡ registered
          left : r.after ≡ (if is_kept r.result then registered else map)
