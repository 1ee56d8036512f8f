-- ===== src/Api/Forwarding.antt =====
-- The policies of the platform at the door of the mailboxes: the callbacks that `New` installs, and
-- `StoreEnvelope`, which asks them.
use agent_comm_platform.Base.{
  ℕ, ◌≡◌, refl, ap, ◌∙◌, Bool, true, false, not, Option, none, some, arith, ◌⊎◌, inl, inr,
  if◌then◌else◌,
}
use agent_comm_platform.Base.Int.{ℤ}
use agent_comm_platform.Base.Bytes.{Bytes}
use agent_comm_platform.Base.Action.{ok, err, Result-cases}
use agent_comm_platform.Registry.Store.{Sdk as RegistrySdk, Entry, resolve_entry}
use agent_comm_platform.Mq.Sdk.{Sdk}
use agent_comm_platform.Mq.Tables.{V1Row, Store as Mailboxes, World, Error, invalid_message}
use agent_comm_platform.Mq.StoreV1.{allows, forwards, admit, store_envelope}
use agent_comm_platform.Api.Policies.{Platform, allows_entry, is_forward_allowed, serving}

-- The platform stores nothing for others, or the recipient's entry says that its platform keeps
-- user data and this one does not forward to such.
abbrev pub IsBarred : {Env : Type 0} → RegistrySdk → Bool → ℕ → Platform Env → Bytes → Type 0
IsBarred registry_sdk fault now p recipient =
    (p.policies.store_user_data ≡ false)
    ⊎ ((p.policies.forward_to_storage_platforms ≡ false)
        × ((e : Entry) × (resolve_entry registry_sdk fault now recipient p.registry ≡ ok (some e))
            × (e.stores_user_data ≡ true)))

-- The callbacks answer so.
closed :
    {Env : Type 0} (registry_sdk : RegistrySdk) (fault : Bool) (now : ℕ) (p : Platform Env)
    (recipient : Bytes)
    → IsBarred registry_sdk fault now p recipient
    → (allows (serving registry_sdk fault now p).store_allowed ≡ false)
      ⊎ (forwards (serving registry_sdk fault now p).forward_allowed recipient ≡ false)
unfolding serving is_forward_allowed allows forwards allows_entry
closed registry_sdk fault now p recipient (inl off) = inl off
closed registry_sdk fault now p recipient (inr (off, (e, found, stores))) = inr (
    ap
      (λ b.
        if b
        then true
        else allows_entry (resolve_entry registry_sdk fault now recipient p.registry))
      off
    ∙ ap allows_entry found
    ∙ ap not stores)

module _ {Env : Type 0} (sdk : Sdk Env) (authorize : Bytes → Bool) (w : World) where
  admit_contradiction :
      (before : Mailboxes Env) (recipient : Bytes) (env : Option Env) (expiry : ℤ) (row : V1Row)
      → (allows before.store_allowed ≡ false) ⊎ (forwards before.forward_allowed recipient ≡ false)
      → admit sdk authorize w before env recipient expiry ≡ ok row
      → ⊥
  unfolding admit
  admit_contradiction before recipient none expiry row h k = cc
  admit_contradiction before recipient (some x) expiry row h k = ground arith

  admit_refused :
      (before : Mailboxes Env) (recipient : Bytes) (env : Option Env) (expiry : ℤ)
      → (allows before.store_allowed ≡ false) ⊎ (forwards before.forward_allowed recipient ≡ false)
      → (e : Error) × (admit sdk authorize w before env recipient expiry ≡ err e)
  admit_refused before recipient env expiry h =
      elim (Result-cases (admit sdk authorize w before env recipient expiry)) [
        | inl refused ↦ refused
        | inr (row, admitted) ↦
            absurd (admit_contradiction before recipient env expiry row h admitted)
      ]

  refused_outright :
      (before : Mailboxes Env) (recipient : Bytes) (env : Option Env) (expiry : ℤ)
      (s : Mailboxes Env) (e : Error)
      → admit sdk authorize w before env recipient expiry ≡ err e
      → (e' : Error) × (store_envelope sdk authorize w before recipient env expiry s ≡ (err e', s))
  unfolding store_envelope
  refused_outright before recipient none expiry s e h = (invalid_message, refl)
  refused_outright before recipient (some x) expiry s e h = (e, rw (h, store_envelope))

  -- While the platform stores nothing for others, or does not forward to platforms that keep user
  -- data and the current entry of the recipient says that its platform does, every v1 message for
  -- the recipient is refused and changes nothing.
  pub store_envelope_barred :
      (registry_sdk : RegistrySdk) (fault : Bool) (now : ℕ) (p : Platform Env) (recipient : Bytes)
      (env : Option Env) (expiry : ℤ) (s : Mailboxes Env)
      → IsBarred registry_sdk fault now p recipient
      → (e : Error) × (store_envelope sdk authorize w
            (serving registry_sdk fault now p)
            recipient
            env
            expiry
            s
          ≡ (err e, s))
  store_envelope_barred registry_sdk fault now p recipient env expiry s h =
      let refused =
        admit_refused (serving registry_sdk fault now p) recipient env expiry
          (closed registry_sdk fault now p recipient h) in
      refused_outright (serving registry_sdk fault now p) recipient env expiry s refused.0 refused.1
