-- ===== src/Mq/DeliveryV2.antt =====
-- `RetrieveV2` and `AckV2` of internal/mq/v2_store.go. The mutex is held throughout, so each is one
-- step; `authorize` is AuthorizeRecipient in the context of the caller.
pub mod Batches
pub mod Acks
use agent_comm_platform.Base.{
  ℕ, ◌+◌, ◌*◌, Bool, true, false, not, ◌&&◌, ◌||◌, List, [], ◌∷◌, map, length, take, ltb, leb, eqb,
  if◌then◌else◌,
}
use agent_comm_platform.Base.Bytes.{Bytes, ◌==◌, is_empty, less, contains}
use agent_comm_platform.Base.Table.{select, count, update}
use agent_comm_platform.Base.Sort.{sort}
use agent_comm_platform.Base.Action.{Result, ok, err, Action}
use agent_comm_platform.Mq.Tables.{
  V2Row, Db, Store, World, Error, invalid_message, v2_policy, unauthorized, database,
  max_retrieve_bytes, max_ack_ids, unix,
}

pub record V2Message : Type 0 where
  pub id : Bytes
  pub envelope : Bytes
  pub receipt : Bytes

abbrev pub message_of : V2Row → V2Message
message_of r = record { id = r.id; envelope = r.envelope; receipt = r.receipt }

-- WHERE recipient=? AND policy_hash=? AND read_at=0 AND expiry>?
abbrev pub is_deliverable : ℕ → Bytes → Bytes → V2Row → Bool
is_deliverable now recipient hash r =
    r.recipient == recipient && r.policy_hash == hash && eqb r.read_at 0 && ltb now r.expiry

-- ORDER BY stored_at,id
abbrev pub precedes : V2Row → V2Row → Bool
precedes a b = ltb a.stored_at b.stored_at || eqb a.stored_at b.stored_at && less a.id b.id

abbrev pub row_bytes : V2Row → ℕ
row_bytes r = length r.envelope + length r.receipt

-- The loop over the rows: `total` is the number of bytes so far, `started` is `len(out) > 0`.
unfoldable pub fill : ℕ → Bool → List V2Row → List V2Row
fill total started [] = []
fill total started (r ∷ rest) =
    let more = fill (total + row_bytes r) true rest in
    if ltb max_retrieve_bytes (total + row_bytes r) && started then [] else r ∷ more

abbrev pub page_limit : ℕ
page_limit = 500

unfoldable pub batch : ℕ → Bytes → Bytes → Db → List V2Row
batch now recipient hash db =
    fill 0 false
      (take page_limit (sort precedes (select (is_deliverable now recipient hash) db.v2_messages)))

-- `s.v2PolicyHash == "" || time.Now().Unix() >= s.v2PolicyExpiry`
unfoldable pub policy_lapsed : {Env : Type 0} → ℕ → Store Env → Bool
policy_lapsed now s = is_empty s.v2_policy_hash || leb s.v2_policy_expiry now

-- What one UPDATE of an acknowledgement marks.
abbrev pub is_acked : World → Bytes → List Bytes → Bytes → V2Row → Bool
is_acked w recipient ids hash r =
    is_deliverable (unix (w.clock 2)) recipient hash r && contains ids r.id

abbrev pub read : World → V2Row → V2Row
read w r = record r { read_at = unix (w.clock 1) }

module _ {Env : Type 0} (authorize : Bytes → Bool) (w : World) (recipient : Bytes) where
  unfoldable pub retrieve_v2 : Store Env → Result Error (List V2Message)
  retrieve_v2 s =
      if not (authorize recipient)
      then err unauthorized
      else if policy_lapsed (unix (w.clock 0)) s
      then err v2_policy
      else if w.fault 0
      then err database
      else ok (map message_of (batch (unix (w.clock 1)) recipient s.v2_policy_hash s.db))

  unfoldable pub ack_v2 : List Bytes → Action (Store Env) Error ℕ
  ack_v2 [] s = if authorize recipient then (ok 0, s) else (err unauthorized, s)
  ack_v2 (id ∷ ids) s =
      if not (authorize recipient)
      then (err unauthorized, s)
      else if ltb max_ack_ids (length (id ∷ ids))
      then (err invalid_message, s)
      else if policy_lapsed (unix (w.clock 0)) s
      then (err v2_policy, s)
      else if w.fault 0
      then (err database, s)
      else (
        ok (count (is_acked w recipient (id ∷ ids) s.v2_policy_hash) s.db.v2_messages),
        record s {
          db = record s.db {
            v2_messages =
                update (is_acked w recipient (id ∷ ids) s.v2_policy_hash) (read w) s.db.v2_messages;
          };
        },
      )
