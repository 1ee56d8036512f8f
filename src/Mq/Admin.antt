-- ===== src/Mq/Admin.antt =====
-- What an administrator sees of the mailboxes: `ListMessagesPage`,
-- `ListMessagesDetail`, `GetMessageDetail` and `SummarizeMessages` of
-- internal/mq/store.go, and the view `all_messages` of v2_store.go.
pub mod Deletions
pub mod Summary
pub mod Removals
use agent_comm_platform.Base.{
  ℕ, suc, ◌+◌, ◌*◌, ◌^◌, Bool, true, false, not, ◌&&◌, ◌||◌, Option, none, some, List, [], ◌∷◌,
  ◌++◌, map, take, drop, length, ltb, leb, eqb, if◌then◌else◌,
}
use agent_comm_platform.Base.Int.{ℤ, pos, pos_part, ltb_ℤ}
use agent_comm_platform.Base.Bytes.{Bytes, ◌==◌, ascii, less, contains}
use agent_comm_platform.Base.Hex.{encode_hex}
use agent_comm_platform.Base.Table.{select, select_row, count, delete}
use agent_comm_platform.Base.Sort.{sort}
use agent_comm_platform.Base.Action.{
  Result, ok, err, Action, transaction, proceed, pure, gets, ◌>>=◌, ◌>>◌,
}
use agent_comm_platform.Mq.Tables.{
  V1Row, V2Row, FrameRow, Db, World, Error, invalid_message, database, max_envelope_bytes, unix,
  query,
}

-- A row of `all_messages`.
pub record StoredRow : Type 0 where
  pub id : Bytes
  pub recipient : Bytes
  pub payload : Bytes
  pub stored_size : ℕ
  pub expiry : ℕ
  pub stored_at : ℕ
  pub read_at : ℕ

abbrev pub of_v1 : V1Row → StoredRow
of_v1 r = record {
  id = r.id;
  recipient = r.recipient;
  payload = r.payload;
  stored_size = length r.payload;
  expiry = r.expiry;
  stored_at = r.stored_at;
  read_at = r.read_at;
}

abbrev pub of_v2 : V2Row → StoredRow
of_v2 r = record {
  id = r.id;
  recipient = r.recipient;
  payload = r.envelope;
  stored_size = length r.envelope + length r.receipt;
  expiry = r.expiry;
  stored_at = r.stored_at;
  read_at = r.read_at;
}

unfoldable pub all_messages : Db → List StoredRow
all_messages db = map of_v1 db.messages ++ map of_v2 db.v2_messages

-- The three states of a row.
abbrev pub is_pending : ℕ → StoredRow → Bool
is_pending now r = eqb r.read_at 0 && (eqb r.expiry 0 || ltb now r.expiry)

abbrev pub is_history : StoredRow → Bool
is_history r = ltb 0 r.read_at

abbrev pub is_expired : ℕ → StoredRow → Bool
is_expired now r = eqb r.read_at 0 && ltb 0 r.expiry && leb r.expiry now

pub record SummaryBucket : Type 0 where
  pub messages : ℕ
  pub bytes : ℕ
  pub queues : ℕ

-- SUM(CASE WHEN p THEN stored_size ELSE 0 END)
unfoldable pub sum_size : (StoredRow → Bool) → List StoredRow → ℕ
sum_size p [] = 0
sum_size p (r ∷ rest) = (if p r then r.stored_size else 0) + sum_size p rest

-- COUNT(DISTINCT CASE WHEN p THEN recipient END): a recipient counts at its last row.
unfoldable pub count_queues : (StoredRow → Bool) → List StoredRow → ℕ
count_queues p [] = 0
count_queues p (r ∷ rest) =
    (if p r && eqb (count (λ x. p x && x.recipient == r.recipient) rest) 0 then 1 else 0)
    + count_queues p rest

unfoldable pub bucket : (StoredRow → Bool) → List StoredRow → SummaryBucket
bucket p rows = record {
  messages = count p rows;
  bytes = sum_size p rows;
  queues = count_queues p rows;
}

pub record QueueSummary : Type 0 where
  pub pending : SummaryBucket
  pub history : SummaryBucket
  pub expired : SummaryBucket

unfoldable pub summarize_messages : World → Db → Result Error QueueSummary
summarize_messages w db =
    if w.fault 0
    then err database
    else ok (record {
      pending = bucket (is_pending (unix (w.clock 0))) (all_messages db);
      history = bucket is_history (all_messages db);
      expired = bucket (is_expired (unix (w.clock 0))) (all_messages db);
    })

pub record MessageDetail : Type 0 where
  pub id : Bytes
  pub sender : Bytes
  pub size : ℕ
  pub stored_at : ℕ
  pub read_at : ℕ
  pub expiry : ℕ
  pub payload : Bytes
  pub payload_truncated : Bool

-- The parsers of both versions: the sender's URN and the ciphertext.
pub record Reader : Type 0 where
  pub parse_v1 : Bytes → Option (Bytes × Bytes)
  pub parse_v2 : Bytes → Option (Bytes × Bytes)

-- `len(payload) > 0 && payload[0] == '{'`
unfoldable pub is_json : Bytes → Bool
is_json [] = false
is_json (b ∷ bs) = eqb b b'{'

abbrev pub legacy_payload_budget : ℕ
legacy_payload_budget = 2 * 2 ^ 20

unfoldable pub described : StoredRow → Bool → Option (Bytes × Bytes) → MessageDetail
described r include_payload parsed = record {
  id = r.id;
  sender = elim parsed [ none ↦ [] | some p ↦ p.0 ];
  size = r.stored_size;
  stored_at = r.stored_at;
  read_at = r.read_at;
  expiry = r.expiry;
  payload = elim parsed [ none ↦ [] | some p ↦ (if include_payload then encode_hex p.1 else []) ];
  payload_truncated = false;
}

-- WHERE and ORDER BY for the two states.
abbrev pub is_listed : Bool → ℕ → Bytes → StoredRow → Bool
is_listed history now recipient r =
    r.recipient == recipient && (if history then is_history r else is_pending now r)

abbrev pub precedes : Bool → StoredRow → StoredRow → Bool
precedes history a b =
    if history
    then ltb b.read_at a.read_at || eqb a.read_at b.read_at && less b.id a.id
    else ltb a.stored_at b.stored_at || eqb a.stored_at b.stored_at && less a.id b.id

abbrev pub is_message : Bytes → Bytes → StoredRow → Bool
is_message recipient id r = r.recipient == recipient && r.id == id

module _ (reader : Reader) where
  unfoldable pub message_detail_from_stored : StoredRow → Bool → MessageDetail
  message_detail_from_stored r include_payload =
      described r include_payload
        (if is_json r.payload then reader.parse_v2 r.payload else reader.parse_v1 r.payload)

  -- The loop over the rows: `used` is the number of payload bytes, `started` is `len(details) > 0`.
  unfoldable pub fill_details : Bool → ℕ → Bool → List StoredRow → List MessageDetail
  fill_details include_payload used started [] = []
  fill_details include_payload used started (r ∷ rest) =
      let more =
        fill_details include_payload (if include_payload then used + length r.payload else used)
          true rest in
      let include_this = include_payload && leb (used + length r.payload) legacy_payload_budget in
      if include_payload && ltb legacy_payload_budget (used + length r.payload) && started
      then []
      else record (message_detail_from_stored r include_this) {
        payload_truncated = include_payload && not include_this;
      }
        ∷ more

  unfoldable pub messages_page :
      World → Bytes → Bool → ℕ → ℕ → Bool → Db → Result Error (List MessageDetail × ℕ)
  messages_page w recipient history limit offset include_payload db =
      if w.fault 0
      then err database
      else ok (
        fill_details include_payload 0 false (
            take limit (
              drop offset (
                sort (precedes history)
                  (select (is_listed history (unix (w.clock 0)) recipient) (all_messages db))))),
        count (is_listed history (unix (w.clock 0)) recipient) (all_messages db),
      )

  unfoldable pub list_messages_page :
      World → Bytes → Bytes → ℤ → ℤ → Bool → Db → Result Error (List MessageDetail × ℕ)
  list_messages_page w recipient status limit offset include_payload db =
      if not (status == ascii "pending") && not (status == ascii "history")
      then err invalid_message
      else if ltb_ℤ limit (pos 1) || ltb_ℤ (pos 200) limit || ltb_ℤ offset (pos 0)
      then err invalid_message
      else messages_page w recipient (status == ascii "history") (pos_part limit) (pos_part offset)
          include_payload db

  unfoldable pub detail_of : Option StoredRow → Result Error (Option MessageDetail)
  detail_of none = ok none
  detail_of (some r) =
      if ltb max_envelope_bytes (length r.payload)
      then err database
      else ok (some (message_detail_from_stored r true))

  unfoldable pub get_message_detail :
      World → Bytes → Bytes → Db → Result Error (Option MessageDetail)
  get_message_detail w recipient id db =
      if w.fault 0
      then err database
      else detail_of (select_row (is_message recipient id) (all_messages db))
