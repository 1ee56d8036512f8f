-- ===== src/Mq/Managed.antt =====
-- Managed identities: `managedGrant`, `loadManagedGrant` and `isManagedAtIssuer` of
-- internal/mq/v2_store.go.
use agent_comm_platform.Base.{
  ℕ, ◌^◌, Bool, true, false, not, ◌&&◌, ◌||◌, Option, none, some, length, ltb, leb, eqb,
  if◌then◌else◌,
}
use agent_comm_platform.Base.Int.{ℤ, pos, ltb_ℤ, leb_ℤ, mul_int64}
use agent_comm_platform.Base.Bytes.{Bytes, ◌==◌}
use agent_comm_platform.Base.Table.{select_row}
use agent_comm_platform.Base.Action.{Result, ok, err}
use agent_comm_platform.Mq.Tables.{ManagedRow, Db, Store, Error, database, unix}

-- `found` is the constructor: a grant that was not found is `none`.
pub record ManagedGrant : Type 0 where
  pub identity_pubkey : Bytes
  pub not_before : ℤ
  pub expires_at : ℤ
  pub enrolled_at_ns : ℕ
  pub revoked : Bool

abbrev pub is_granted : Bytes → Bytes → ManagedRow → Bool
is_granted issuer urn r = r.urn == urn && r.issuer_pubkey == issuer

grant_of : Option ManagedRow → Option ManagedGrant
grant_of none = none
grant_of (some r) = some (record {
  identity_pubkey = r.identity_pubkey;
  not_before = r.not_before;
  expires_at = r.expires_at;
  enrolled_at_ns = r.enrolled_at_ns;
  revoked = r.revoked;
})

unfoldable pub load_managed_grant : Bool → Bytes → Bytes → Db → Result Error (Option ManagedGrant)
unfolding grant_of
load_managed_grant fault issuer urn db =
    if not (eqb (length issuer) 32)
    then ok none
    else if fault
    then err database
    else ok (grant_of (select_row (is_granted issuer urn) db.managed))

-- `pubkey == nil || bytes.Equal(pubkey, grant.identityPubkey)`
unfoldable pub key_matches : Option Bytes → Bytes → Bool
key_matches none identity = true
key_matches (some pubkey) identity = pubkey == identity

unfoldable pub permits : Option ManagedGrant → Option Bytes → ℕ → ℕ → ℕ → Bool
permits none pubkey stored_at_ns policy_expiry now = false
permits (some g) pubkey stored_at_ns policy_expiry now =
    not g.revoked
    && ltb now policy_expiry
    && not (eqb stored_at_ns 0)
    && leb_ℤ (mul_int64 g.not_before (10 ^ 9)) (pos stored_at_ns)
    && leb g.enrolled_at_ns stored_at_ns
    && ltb_ℤ (pos stored_at_ns) (mul_int64 g.expires_at (10 ^ 9))
    && ltb_ℤ (pos now) g.expires_at
    && key_matches pubkey g.identity_pubkey

permitted : Result Error (Option ManagedGrant) → Option Bytes → ℕ → ℕ → ℕ → Result Error Bool
permitted (err e) pubkey stored_at_ns policy_expiry now = err e
permitted (ok g) pubkey stored_at_ns policy_expiry now =
    ok (permits g pubkey stored_at_ns policy_expiry now)

-- `t` and `t'` are the two readings of the clock.
unfoldable pub is_managed_at_issuer :
    Bool → ℕ → ℕ → Bytes → ℕ → Bytes → Option Bytes → ℕ → Db → Result Error Bool
unfolding permitted
is_managed_at_issuer fault t t' issuer policy_expiry urn pubkey stored_at_ns db =
    if not (eqb (length issuer) 32) || leb policy_expiry (unix t)
    then ok false
    else permitted (load_managed_grant fault issuer urn db) pubkey stored_at_ns policy_expiry
        (unix t')

-- `IsManagedAt`
unfoldable pub is_managed_at :
    {Env : Type 0} → Bool → ℕ → ℕ → Bytes → Option Bytes → ℕ → Store Env → Result Error Bool
is_managed_at fault t t' urn pubkey stored_at_ns s =
    is_managed_at_issuer fault t t' s.v2_managed_issuer s.v2_policy_expiry urn pubkey stored_at_ns
      s.db
