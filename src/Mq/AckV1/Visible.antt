-- ===== src/Mq/AckV1/Visible.antt =====
-- The rows that `Ack` may mark under a policy that requires v2, in terms of the tables, and the grants
-- that isManagedAtIssuer of internal/mq/v2_store.go finds.
use agent_comm_platform.Base.{
  ℕ, ◌^◌, ◌≤◌, ◌<◌, ◌≡◌, inl, inr, ◌⊎◌, Bool, true, false, Option, none, some, List, arith,
  Option-cases,
}
use agent_comm_platform.Base.Int.{pos, ltb_ℤ, leb_ℤ, mul_int64}
use agent_comm_platform.Base.Bytes.{Bytes, eq→≡, contains}
use agent_comm_platform.Base.Table.{IsIn, select_row, select_row-IsIn}
use agent_comm_platform.Base.Action.{ok, Result-cases}
use agent_comm_platform.Mq.Managed.{
  is_granted, is_managed_at_issuer, load_managed_grant, permits, key_matches,
}
use agent_comm_platform.Mq.Sdk.{Sdk}
use agent_comm_platform.Mq.Tables.{V1Row, ManagedRow, Store, World, unix}
use agent_comm_platform.Mq.AckV1.{AckIdentity, is_visible}

module _ {Env : Type 0} (s : Store Env) where
  -- The table has a grant of the policy's issuer for the URN, and for the key if one is given, which
  -- held when the message was stored, and holds now, as the policy does.
  pub record IsManaged (now : ℕ) (urn : Bytes) (key : Option Bytes) (stored_at_ns : ℕ)
      : Type 0 where
    pub grant : ManagedRow
    pub on_record : IsIn s.db.managed grant
    pub of_urn : grant.urn ≡ urn
    pub of_issuer : grant.issuer_pubkey ≡ s.v2_managed_issuer
    pub in_force : now < s.v2_policy_expiry
    pub unrevoked : grant.revoked ≡ false
    pub valid : ltb_ℤ (pos now) grant.expires_at ≡ true
    pub enrolled : grant.enrolled_at_ns ≤ stored_at_ns
    pub begun : leb_ℤ (mul_int64 grant.not_before (10 ^ 9)) (pos stored_at_ns) ≡ true
    pub not_ended : ltb_ℤ (pos stored_at_ns) (mul_int64 grant.expires_at (10 ^ 9)) ≡ true
    pub of_key : (k : Bytes) → key ≡ some k → k ≡ grant.identity_pubkey

  key_matches_ok :
      (key : Option Bytes) (identity : Bytes)
      → key_matches key identity ≡ true
      → (k : Bytes) → key ≡ some k
      → k ≡ identity
  unfolding key_matches
  key_matches_ok none identity h k e = cc
  key_matches_ok (some x) identity h k e = eq→≡ k identity (cc (h, e))

  granted :
      (m : ManagedRow) (now : ℕ) (urn : Bytes) (key : Option Bytes) (stored_at_ns : ℕ)
      → select_row (is_granted s.v2_managed_issuer urn) s.db.managed ≡ some m
      → permits
          (some record {
            identity_pubkey = m.identity_pubkey;
            not_before = m.not_before;
            expires_at = m.expires_at;
            enrolled_at_ns = m.enrolled_at_ns;
            revoked = m.revoked;
          })
          key
          stored_at_ns
          s.v2_policy_expiry
          now
        ≡ true
      → IsManaged now urn key stored_at_ns
  unfolding permits
  granted m now urn key stored_at_ns found h =
      let place = select_row-IsIn (is_granted s.v2_managed_issuer urn) s.db.managed m found in
      record {
        grant = m;
        on_record = place.1;
        of_urn = eq→≡ m.urn urn (ground (arith, place.0));
        of_issuer = eq→≡ m.issuer_pubkey s.v2_managed_issuer (ground (arith, place.0));
        in_force = ground arith;
        unrevoked = ground arith;
        valid = ground arith;
        enrolled = ground arith;
        begun = ground arith;
        not_ended = ground arith;
        of_key = key_matches_ok key m.identity_pubkey (ground arith);
      }

  is_managed_ok :
      (fault : Bool) (t t' : ℕ) (urn : Bytes) (key : Option Bytes) (stored_at_ns : ℕ)
      → is_managed_at_issuer fault t t' s.v2_managed_issuer s.v2_policy_expiry urn key stored_at_ns
          s.db
        ≡ ok true
      → IsManaged (unix t') urn key stored_at_ns
  unfolding is_managed_at_issuer load_managed_grant permits
  is_managed_ok fault t t' urn key stored_at_ns h =
      elim (Option-cases (select_row (is_granted s.v2_managed_issuer urn) s.db.managed)) [
        | inl missing ↦ absurd (ground (arith, missing))
        | inr (m, found) ↦ granted m (unix t') urn key stored_at_ns found (ground (arith, found))
      ]

module _ {Env : Type 0} (sdk : Sdk Env) (recipient : Bytes) (ids : List Bytes) (s : Store Env)
    (ws : ℕ → ℕ → World) where
  -- The identity is that of a message in the table which the caller named, which was pending for the
  -- recipient when its batch was read, and whose envelope the policy delivers: the recipient, or
  -- else the sender with its key, was managed at the check that followed.
  pub record IsDeliverable (a : AckIdentity) : Type 0 where
    pub row : V1Row
    pub env : Env
    pub batch : ℕ
    pub turn : ℕ
    pub same : a ≡ (row.id, row.stored_at_ns)
    pub on_record : IsIn s.db.messages row
    pub named : contains ids row.id ≡ true
    pub addressed : row.recipient ≡ recipient
    pub unread : row.read_at ≡ 0
    pub current : (row.expiry ≡ 0) ⊎ (unix ((ws batch 0).clock 0) < row.expiry)
    pub parsed : sdk.unmarshal row.payload ≡ some env
    pub managed :
        IsManaged s (unix ((ws batch turn).clock 1)) recipient none row.stored_at_ns
        ⊎ IsManaged s
            (unix ((ws batch turn).clock 3))
            (sdk.sender_urn env)
            (sdk.sender_ed25519_pubkey env)
            row.stored_at_ns

  pub is_visible_ok :
      (w : World) (env : Env) (stored_at_ns : ℕ)
      → is_visible sdk recipient s w env stored_at_ns ≡ ok true
      → IsManaged s (unix (w.clock 1)) recipient none stored_at_ns
        ⊎ IsManaged s
            (unix (w.clock 3))
            (sdk.sender_urn env)
            (sdk.sender_ed25519_pubkey env)
            stored_at_ns
  unfolding is_visible
  is_visible_ok w env stored_at_ns h =
      elim (Result-cases (
        is_managed_at_issuer (w.fault 0) (w.clock 0) (w.clock 1) s.v2_managed_issuer
          s.v2_policy_expiry recipient none stored_at_ns s.db)) [
            | inl (e, failed) ↦ cc (rw (failed, is_visible) at h)
            | inr (true, managed) ↦ inl (
                is_managed_ok s (w.fault 0) (w.clock 0) (w.clock 1) recipient none stored_at_ns
                  managed)
            | inr (false, unmanaged) ↦ inr (
                is_managed_ok s (w.fault 1) (w.clock 2) (w.clock 3) (sdk.sender_urn env)
                  (sdk.sender_ed25519_pubkey env) stored_at_ns (rw (unmanaged, is_visible) at h))
          ]
