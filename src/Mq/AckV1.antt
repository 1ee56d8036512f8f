-- ===== src/Mq/AckV1.antt =====
-- `Ack` of internal/mq/store.go. The mutex is held throughout; `w` is what the UPDATE meets, and
-- `ws b i` what the query of batch `b` meets, for 0, and after it the checks of its rows.
pub mod Visible
pub mod Batches
pub mod Guarantees
use agent_comm_platform.Base.{
  ℕ, zero, suc, Bool, true, false, not, ◌&&◌, ◌||◌, Option, none, some, List, [], ◌∷◌, ◌++◌, take,
  drop, length, ltb, eqb, if◌then◌else◌,
}
use agent_comm_platform.Base.Bytes.{Bytes, ◌==◌, contains}
use agent_comm_platform.Base.Table.{select, count, update}
use agent_comm_platform.Base.Action.{Result, ok, err, Action}
use agent_comm_platform.Mq.Managed.{is_managed_at_issuer}
use agent_comm_platform.Mq.Sdk.{Sdk}
use agent_comm_platform.Mq.Tables.{
  V1Row, Db, Store, World, Error, invalid_message, unauthorized, database, max_ack_ids,
  is_pending_v1, unix,
}

-- `ackIdentity`: the ID and the time of storing.
abbrev pub AckIdentity : Type 0
AckIdentity = Bytes × ℕ

-- (id,stored_at_ns) IN (…)
unfoldable pub names : List AckIdentity → V1Row → Bool
names [] r = false
names ((id, stored_at_ns) ∷ rest) r = r.id == id && eqb r.stored_at_ns stored_at_ns || names rest r

abbrev pub ack_batch_size : ℕ
ack_batch_size = 16

abbrev pub read : World → V1Row → V1Row
read w r = record r { read_at = unix (w.clock 0) }

-- What an UPDATE marks, of the rows that pass `p`.
abbrev pub is_marked : World → Bytes → (V1Row → Bool) → V1Row → Bool
is_marked w recipient p r = is_pending_v1 (unix (w.clock 1)) recipient r && p r

unfoldable pub mark : {Env : Type 0} → World → Bytes → (V1Row → Bool) → Action (Store Env) Error ℕ
mark w recipient p s = if w.fault 0 then (err database, s) else (
  ok (count (is_marked w recipient p) s.db.messages),
  record s {
    db = record s.db { messages = update (is_marked w recipient p) (read w) s.db.messages };
  },
)

module _ {Env : Type 0} (sdk : Sdk Env) (recipient : Bytes) (s : Store Env) where
  -- Would the current policy deliver this message? The sender counts if the recipient does not.
  unfoldable pub is_visible : World → Env → ℕ → Result Error Bool
  is_visible w env stored_at_ns =
      elim (is_managed_at_issuer (w.fault 0) (w.clock 0) (w.clock 1) s.v2_managed_issuer
        s.v2_policy_expiry recipient none stored_at_ns s.db) [
          | err e ↦ err e
          | ok true ↦ ok true
          | ok false ↦
              is_managed_at_issuer (w.fault 1) (w.clock 2) (w.clock 3) s.v2_managed_issuer
                s.v2_policy_expiry (sdk.sender_urn env) (sdk.sender_ed25519_pubkey env) stored_at_ns
                s.db
        ]

  -- The verdict on one row, before those on the rows after it.
  unfoldable pub with_row :
      V1Row → Result Error Bool → Result Error (List AckIdentity) → Result Error (List AckIdentity)
  with_row r (err e) more = err e
  with_row r (ok b) (err e) = err e
  with_row r (ok b) (ok rest) = ok (if b then (r.id, r.stored_at_ns) ∷ rest else rest)

  unfoldable pub check_row :
      World → V1Row → Option Env → Result Error (List AckIdentity) → Result Error (List AckIdentity)
  check_row w r none more = more
  check_row w r (some env) more = with_row r (is_visible w env r.stored_at_ns) more

  unfoldable pub check_rows : (ℕ → World) → ℕ → List V1Row → Result Error (List AckIdentity)
  check_rows ws i [] = ok []
  check_rows ws i (r ∷ rest) =
      check_row (ws i) r (sdk.unmarshal r.payload) (check_rows ws (suc i) rest)

  unfoldable pub joined :
      Result Error (List AckIdentity)
      → Result Error (List AckIdentity)
      → Result Error (List AckIdentity)
  joined (err e) more = err e
  joined (ok ids) (err e) = err e
  joined (ok ids) (ok rest) = ok (ids ++ rest)

  abbrev pub is_asked : World → List Bytes → V1Row → Bool
  is_asked w batch r = is_pending_v1 (unix (w.clock 0)) recipient r && contains batch r.id

  unfoldable pub check_batch : (ℕ → World) → List Bytes → Result Error (List AckIdentity)
  check_batch ws batch =
      if (ws 0).fault 0
      then err database
      else check_rows ws 1 (select (is_asked (ws 0) batch) s.db.messages)

  -- The loop over the batches. `fuel` bounds their number: the number of IDs is enough.
  unfoldable pub check_batches :
      ℕ → (ℕ → ℕ → World) → ℕ → List Bytes → Result Error (List AckIdentity)
  check_batches zero ws b ids = ok []
  check_batches (suc fuel) ws b [] = ok []
  check_batches (suc fuel) ws b (id ∷ ids) =
      joined (check_batch (ws b) (take ack_batch_size (id ∷ ids)))
        (check_batches fuel ws (suc b) (drop ack_batch_size (id ∷ ids)))

  unfoldable pub mark_allowed : World → Result Error (List AckIdentity) → Result Error ℕ × Store Env
  mark_allowed w (err e) = (err e, s)
  mark_allowed w (ok []) = (ok 0, s)
  mark_allowed w (ok (a ∷ allowed)) = mark w recipient (names (a ∷ allowed)) s

unfoldable pub ack :
    {Env : Type 0}
    → Sdk Env
    → (Bytes → Bool)
    → World
    → (ℕ → ℕ → World)
    → Bytes
    → List Bytes
    → Action (Store Env) Error ℕ
ack sdk authorize w ws recipient ids s =
    if not (authorize recipient)
    then (err unauthorized, s)
    else if eqb (length ids) 0
    then (ok 0, s)
    else if ltb max_ack_ids (length ids)
    then (err invalid_message, s)
    else if s.v2_required
    then mark_allowed sdk recipient s w (check_batches sdk recipient s (length ids) ws 0 ids)
    else mark w recipient (λ r. contains ids r.id) s
