-- ===== src/Sip/TsxKey/Matching.antt =====
-- Which messages the keys of sip/sip-core/src/transaction/key.rs bring together.
use Prim.Native.String.{String}
use text.Mathlib.Text.{starts_with}
use text.Mathlib.TextPositions.{starts_with-append}
use ezk.Common.{
  ℕ, ◌≡◌, refl, ap, ◌∙◌, Option, none, some, Bool, true, false, if◌then◌else◌, ◌↔◌, ◌⊎◌, inl, inr,
  sym,
}
use ezk.Sip.Method.{Method}
use ezk.Sip.Params.{get_val}
use ezk.Sip.TsxKey.{
  TsxKey, rfc3261, Role, BaseHeaders, filter_method, client_key, generate_branch, branch_prefix,
  from_headers, legacy_key, MessageLine, request, response, from_message_parts, unwrap_or_empty,
}

abbrev pub IsInviteOrAck : Method → Type 0
IsInviteOrAck m = (m ≡ Method.invite) ⊎ (m ≡ Method.ack)

filter_method-cases :
    (m : Method) → (IsInviteOrAck m × (filter_method m ≡ none)) ⊎ (filter_method m ≡ some m)
unfolding filter_method
filter_method-cases Method.invite = inl (inl refl, refl)
filter_method-cases Method.ack = inl (inr refl, refl)
filter_method-cases m = inr refl

filter_method-none : (m : Method) → IsInviteOrAck m → filter_method m ≡ none
unfolding filter_method
filter_method-none m (inl e) = rw e refl
filter_method-none m (inr e) = rw e refl

filtered-agree :
    (m n : Method)
    → filter_method m ≡ filter_method n
    → (m ≡ n) ⊎ (IsInviteOrAck m × IsInviteOrAck n)
filtered-agree m n e = elim (filter_method-cases m) [
  | inl (i, a) ↦ elim (filter_method-cases n) [ inl (j, b) ↦ inr (i, j) | inr b ↦ cc (a, b, e) ]
  | inr a ↦ elim (filter_method-cases n) [
    | inl (j, b) ↦ cc (a, b, e)
    | inr b ↦ inl (let same : some m ≡ some n = sym a ∙ e ∙ b in cc)
  ]
]

agree-filtered :
    (m n : Method)
    → (m ≡ n) ⊎ (IsInviteOrAck m × IsInviteOrAck n)
    → filter_method m ≡ filter_method n
agree-filtered m n (inl e) = ap filter_method e
agree-filtered m n (inr (i, j)) = filter_method-none m i ∙ sym (filter_method-none n j)

module _ {H : Type 0} where
  from_headers-branch :
      (headers : BaseHeaders H) (role : Role) (b : String)
      → get_val headers.via.params "branch" ≡ some b
      → starts_with b branch_prefix ≡ true
      → from_headers headers role
        ≡ some (
            rfc3261
              (record { role = role; branch = b; method = filter_method headers.cseq.method }))
  unfolding from_headers
  from_headers-branch headers role b e p = rw (e, from_headers) (rw p)

  -- A response that carries the branch that was drawn for a client transaction, and in its CSeq the
  -- method of the transaction, has the key of that transaction, whatever else it says.
  pub from_message_parts-client :
      (headers : BaseHeaders H) (method : Method) (random : String) (code : ℕ)
      → get_val headers.via.params "branch" ≡ some (generate_branch random)
      → headers.cseq.method ≡ method
      → from_message_parts (response code) headers ≡ some (client_key method random)
  unfolding from_message_parts client_key
  from_message_parts-client headers method random code b m =
      from_headers-branch headers Role.client (generate_branch random) b
        (starts_with-append branch_prefix random)
      ∙ ap
          (λ m. some (
            rfc3261 (record {
              role = Role.client;
              branch = generate_branch random;
              method = filter_method m;
            })))
          m

  legacy_key-none :
      (headers : BaseHeaders H) (role : Role) (key : TsxKey H) (b : Bool) (tag : Option String)
      → ((if b then some key else legacy_key headers role tag) ≡ none)
        ↔ ((b ≡ false) × (tag ≡ none))
  unfolding legacy_key
  legacy_key-none headers role key true tag = (λ e. cc, λ e. cc (e.0))
  legacy_key-none headers role key false none = (λ e. (refl, refl), λ e. refl)
  legacy_key-none headers role key false (some tag) = (λ e. cc, λ e. cc (e.1))

  from_headers-none :
      (headers : BaseHeaders H) (role : Role)
      → (from_headers headers role ≡ none) ↔ (
          (starts_with (unwrap_or_empty (get_val headers.via.params "branch")) branch_prefix
            ≡ false)
          × (headers.from_tag ≡ none))
  unfolding from_headers
  from_headers-none headers role =
      let branch = unwrap_or_empty (get_val headers.via.params "branch") in
      legacy_key-none headers role
        (rfc3261
          (record { role = role; branch = branch; method = filter_method headers.cseq.method }))
        (starts_with branch branch_prefix) headers.from_tag

  -- The key of a received message: it is of the role that the line says, and it fails exactly
  -- when neither a branch with the prefix nor a From tag is there.
  from_message_parts-none :
      (headers : BaseHeaders H) (line : MessageLine)
      → (from_message_parts line headers ≡ none) ↔ (
          (starts_with (unwrap_or_empty (get_val headers.via.params "branch")) branch_prefix
            ≡ false)
          × (headers.from_tag ≡ none))
  unfolding from_message_parts
  from_message_parts-none headers (request method) = from_headers-none headers Role.server
  from_message_parts-none headers (response code) = from_headers-none headers Role.client

  -- Two requests with one branch, which has the prefix of RFC 3261, and whose CSeq headers have the
  -- methods of their lines, have one key exactly when they have one method or each of them is an
  -- INVITE or an ACK.
  pub from_message_parts-same_branch :
      (h k : BaseHeaders H) (m n : Method) (b : String)
      → starts_with b branch_prefix ≡ true
      → get_val h.via.params "branch" ≡ some b
      → get_val k.via.params "branch" ≡ some b
      → h.cseq.method ≡ m
      → k.cseq.method ≡ n
      → (from_message_parts (request m) h ≡ from_message_parts (request n) k)
        ↔ ((m ≡ n) ⊎ (IsInviteOrAck m × IsInviteOrAck n))
  unfolding from_message_parts
  from_message_parts-same_branch h k m n b p hb kb hm kn =
      let hk = from_headers-branch h Role.server b hb p in
      let kk = from_headers-branch k Role.server b kb p in
      (λ e. filtered-agree m n cc, λ agree. let e = agree-filtered m n agree in cc (hk, kk, e))
