-- ===== src/Mq/Policy.antt =====
-- The pinned v2 policy: `EnableV2Policy` of internal/mq/v2_store.go.
pub mod Pinning
use agent_comm_platform.Base.{
  ℕ, ◌≡◌, ◌≤◌, Bool, true, false, not, ◌&&◌, ◌||◌, Option, none, some, List, [], ◌∷◌, length, ltb,
  leb, eqb, if◌then◌else◌,
}
use agent_comm_platform.Base.Int.{ℤ, pos, pos_part, leb_ℤ}
use agent_comm_platform.Base.Bytes.{Bytes, ◌==◌}
use agent_comm_platform.Base.Action.{
  Result, ok, err, Action, require, transaction, proceed, pure, gets, ◌>>=◌, ◌>>◌,
}
use agent_comm_platform.Mq.Tables.{
  PolicyRow, Db, Store, Error, v2_policy, database, World, unix, query,
}

-- `epoch < oldEpoch || epoch == oldEpoch && hash != oldHash`
unfoldable pub is_rollback : Option PolicyRow → ℕ → Bytes → Bool
is_rollback none epoch hash = false
is_rollback (some old) epoch hash =
    ltb epoch old.epoch || eqb epoch old.epoch && not (hash == old.policy_hash)

-- The transaction: begin, query, upsert and commit may each fail.
unfoldable pub pin_policy : World → PolicyRow → Action Db Error Unit
pin_policy w row = do
  query w 0
  query w 1
  old ← gets (λ db. db.policy_state)
  require (not (is_rollback old row.epoch row.policy_hash)) v2_policy
  query w 2
  (λ db. (ok tt, record db { policy_state = some row }))
  query w 3

-- The pinned policy in memory, once the transaction is through.
adopt :
    {Env : Type 0} → PolicyRow → Store Env → Result Error Unit × Db → Result Error Unit × Store Env
adopt row s (err e, db) = (err e, record s { db = db })
adopt row s (ok u, db) = (
  ok u,
  record s {
    db = db;
    v2_required = row.require_v2;
    v2_policy_hash = row.policy_hash;
    v2_policy_expiry = row.expires_at;
    v2_managed_issuer = row.issuer_pubkey;
  },
)

unfoldable pub enable_v2_policy :
    {Env : Type 0} → World → ℕ → Bytes → ℤ → Bool → Bytes → Action (Store Env) Error Unit
unfolding adopt
enable_v2_policy w epoch hash expires_at require_v2 managed_issuer s =
    if eqb epoch 0 || not (eqb (length hash) 64) || leb_ℤ expires_at (pos (unix (w.clock 0)))
    then (err v2_policy, s)
    else let row : PolicyRow = record {
      epoch = epoch;
      policy_hash = hash;
      expires_at = pos_part expires_at;
      require_v2 = require_v2;
      issuer_pubkey = managed_issuer;
    } in
      adopt row s (transaction (pin_policy w row) s.db)
