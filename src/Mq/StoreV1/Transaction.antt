-- ===== src/Mq/StoreV1/Transaction.antt =====
-- The transaction of `StoreEnvelope`.
use agent_comm_platform.Base.{
  ℕ, ◌+◌, Bool, true, false, not, ◌&&◌, ◌||◌, Option, none, some, [], ◌∷◌, ◌++◌, leb, eqb,
  if◌then◌else◌,
}
use agent_comm_platform.Base.Int.{pos, ltb_ℤ, leb_ℤ}
use agent_comm_platform.Base.Bytes.{Bytes, ◌==◌}
use agent_comm_platform.Base.Table.{select_row, count}
use agent_comm_platform.Base.Action.{ok, err, Action, require, pure, gets, ◌>>=◌, ◌>>◌}
use agent_comm_platform.Mq.Tables.{
  V1Row, PolicyRow, ManagedRow, Db, World, Error, queue_full, v1_policy, id_conflict, database,
  unix, query, pending, has_id, has_id_v2, has_id_admission, has_id_compliance,
}

-- `identity_pubkey=?`, which no row satisfies for nil.
unfoldable pub is_key : Option Bytes → Bytes → Bool
is_key none identity = false
is_key (some key) identity = identity == key

-- The WHERE of the transaction's count of managed parties.
unfoldable pub is_party : Bytes → ℕ → ℕ → Bytes → Option Bytes → Bytes → ManagedRow → Bool
is_party issuer now now_ns sender key recipient r =
    r.issuer_pubkey == issuer
    && not r.revoked
    && leb_ℤ r.not_before (pos now)
    && leb r.enrolled_at_ns now_ns
    && ltb_ℤ (pos now) r.expires_at
    && (r.urn == sender && is_key key r.identity_pubkey || r.urn == recipient)

-- The policy that the transaction rechecks.
unfoldable pub admits :
    World → Option PolicyRow → Bytes → Option Bytes → Bytes → Action Db Error Unit
admits w none sender key recipient db = (ok tt, db)
admits w (some p) sender key recipient db =
    if leb p.expires_at (unix (w.clock 8))
    then (err v1_policy, db)
    else if not p.require_v2
    then (ok tt, db)
    else if w.fault 4
    then (err database, db)
    else if eqb
        (count (is_party p.issuer_pubkey (unix (w.clock 9)) (w.clock 10) sender key recipient)
          db.managed)
        0
    then (err v1_policy, db)
    else (ok tt, db)

-- The number of rows of other tables with this ID.
unfoldable pub collisions : Bytes → Db → ℕ
collisions id db =
    count (has_id_v2 id) db.v2_messages
    + count (has_id_admission id) db.admissions
    + count (has_id_compliance id) db.compliance

-- After the INSERT OR IGNORE has found a row with the ID: `true` stands for a row that was inserted.
unfoldable pub replay : World → Bytes → Bytes → V1Row → Action Db Error Bool
replay w recipient payload old db =
    if w.fault 7
    then (err database, db)
    else if not (old.recipient == recipient) || not (old.payload == payload)
    then (err id_conflict, db)
    else (ok false, db)

-- After it has inserted the row: the quota, and the commit.
unfoldable pub publish : World → ℕ → V1Row → Action Db Error Bool
publish w max row = do
  (λ db. (ok tt, record db { messages = db.messages ++ row ∷ [] }))
  n ← gets (pending (unix (w.clock 11)) (unix (w.clock 12)) row.recipient)
  (if eqb max 0 then pure tt else do query w 7; require (leb n max) queue_full)
  query w 8
  pure true

-- INSERT OR IGNORE and what follows it.
unfoldable pub insert_or_replay : World → ℕ → V1Row → Action Db Error Bool
insert_or_replay w max row db = elim (select_row (has_id row.id) db.messages) [
  | some old ↦ replay w row.recipient row.payload old db
  | none ↦ publish w max row db
]

-- The transaction: begin, the policy, the collisions, the insert. The result tells whether the row is
-- new.
unfoldable pub store_tx : World → ℕ → Bytes → Option Bytes → V1Row → Action Db Error Bool
store_tx w max sender key row = do
  query w 2
  query w 3
  policy ← gets (λ db. db.policy_state)
  admits w policy sender key row.recipient
  query w 5
  n ← gets (collisions row.id)
  require (eqb n 0) id_conflict
  query w 6
  insert_or_replay w max row
