-- ===== src/Mq/Frames.antt =====
-- The handshake frames of internal/mq/v2_store.go: `StoreV2Frame`, `RetrieveV2Frames`, `AckV2Frames`.
-- As in StoreV1, the fields in memory are those of a state `before`.
mod Outcome
pub mod Guarantees
use agent_comm_platform.Base.{
  ℕ, ◌+◌, ◌*◌, ◌^◌, Bool, true, false, not, ◌&&◌, ◌||◌, Option, none, some, List, [], ◌∷◌, ◌++◌,
  map, take, length, ltb, leb, eqb, if◌then◌else◌,
}
use agent_comm_platform.Base.Int.{ℤ, pos, pos_part, ltb_ℤ, leb_ℤ}
use agent_comm_platform.Base.Bytes.{Bytes, ◌==◌, is_empty, less, contains}
use agent_comm_platform.Base.Table.{select, select_row, count, update}
use agent_comm_platform.Base.Sort.{sort}
use agent_comm_platform.Base.Action.{
  Result, ok, err, Action, require, transaction, proceed, pure, gets, ◌>>=◌, ◌>>◌,
}
use agent_comm_platform.Mq.StoreV1.{allows, forwards}
use agent_comm_platform.Mq.Tables.{
  FrameRow, PolicyRow, Db, Store, World, Error, queue_full, invalid_message, v2_policy, v2_conflict,
  unverified, unauthorized, database, unix, query,
}

pub data FrameType : Type 0 where
  frame_init frame_accept frame_other : FrameType

-- v2.Frame, as far as it is read.
pub record Frame : Type 0 where
  pub sender_urn : Bytes
  pub recipient_urn : Bytes
  pub type : FrameType
  pub payload : Bytes

-- The calls of the modules agent-comm/v2 and agent-comm/crypto. `init_expiry` and `accept_expiry` are
-- the field Expiry of a payload of the type, if it is one.
pub record FrameSdk (Policy : Type 0) : Type 0 where
  pub parse_frame : Bytes → Option Frame
  pub frame_hash : Frame → Bytes
  pub urn_matches_public_key : Bytes → Bytes → Bool
  pub verify_frame : Frame → Bytes → Bool
  pub validate_frame_for_relay : Policy → Frame → ℕ → Bool
  pub policy_hash : Policy → Bytes
  pub init_expiry : Bytes → Option ℤ
  pub accept_expiry : Bytes → Option ℤ

abbrev pub has_id_frame : Bytes → FrameRow → Bool
has_id_frame id r = r.id == id

-- recipient=? AND read_at=0 AND expiry>?
abbrev pub is_pending_frame : ℕ → Bytes → FrameRow → Bool
is_pending_frame now recipient r = r.recipient == recipient && eqb r.read_at 0 && ltb now r.expiry

-- `err != nil || expiry > payload.Expiry`, negated.
unfoldable pub within_expiry : Option ℤ → ℤ → Bool
within_expiry none expiry = false
within_expiry (some e) expiry = not (ltb_ℤ e expiry)

-- The transaction's check of the policy.
unfoldable pub current_policy : World → Bytes → Action Db Error Unit
current_policy w hash db = elim db.policy_state [
  | none ↦ (err database, db)
  | some p ↦
      if not (p.policy_hash == hash) || leb p.expires_at (unix (w.clock 3))
      then (err v2_policy, db)
      else (ok tt, db)
]

abbrev pub max_pending_frames : ℕ
max_pending_frames = 100

unfoldable pub publish : World → FrameRow → Action Db Error Unit
publish w row = do
  (λ db. (ok tt, record db { frames = db.frames ++ row ∷ [] }))
  n ← gets (λ db. count (is_pending_frame (unix (w.clock 5)) row.recipient) db.frames)
  query w 4
  require (leb n max_pending_frames) queue_full
  query w 5

-- INSERT OR IGNORE, and what follows it.
unfoldable pub insert_or_replay : World → FrameRow → Action Db Error Unit
insert_or_replay w row db = elim (select_row (has_id_frame row.id) db.frames) [
  | some old ↦
      if w.fault 3
      then (err database, db)
      else if not (old.recipient == row.recipient) || not (old.frame == row.frame)
      then (err v2_conflict, db)
      else (ok tt, db)
  | none ↦ publish w row db
]

unfoldable pub frame_tx : World → Bytes → FrameRow → Action Db Error Unit
frame_tx w hash row = do
  query w 0
  query w 1
  current_policy w hash
  query w 2
  insert_or_replay w row

unfoldable pub written :
    {Env : Type 0} → Store Env → Result Error Unit × Db → Result Error Unit × Store Env
written s (r, db) = (r, record s { db = db })

module _ {Policy : Type 0} (sdk : FrameSdk Policy) where
  open sdk use {
    parse_frame, frame_hash, urn_matches_public_key, verify_frame, validate_frame_for_relay,
    policy_hash, init_expiry, accept_expiry,
  }

  -- The switch on the type of the frame.
  unfoldable pub expires_in_time : FrameType → Bytes → ℤ → Bool
  unfolding within_expiry
  expires_in_time frame_init payload expiry = within_expiry (init_expiry payload) expiry
  expires_in_time frame_accept payload expiry = within_expiry (accept_expiry payload) expiry
  expires_in_time frame_other payload expiry = true

  module _ {Env : Type 0} (authorize : Bytes → Bool) (w : World) (before : Store Env)
      (sender recipient id frame : Bytes) (expiry : ℤ) (sender_pub : Bytes) where
    -- The checks of the frame itself.
    unfoldable pub verify : Policy → Frame → Option Error
    verify policy parsed =
        if not (parsed.sender_urn == sender)
          || not (parsed.recipient_urn == recipient)
          || not (frame_hash parsed == id)
        then some invalid_message
        else if not (urn_matches_public_key sender sender_pub)
        then some invalid_message
        else if not (verify_frame parsed sender_pub)
        then some unverified
        else if not (validate_frame_for_relay policy parsed (w.clock 0))
        then some unverified
        else if not (expires_in_time parsed.type parsed.payload expiry)
        then some invalid_message
        else none

    -- The checks of the policy, of the bounds and of the storage policy.
    unfoldable pub admit : Policy → Option Error
    admit policy =
        if is_empty before.v2_policy_hash || not (before.v2_policy_hash == policy_hash policy)
        then some v2_policy
        else if is_empty id
            || ltb 256 (length id)
            || is_empty frame
            || ltb 8192 (length frame)
            || leb_ℤ expiry (pos (unix (w.clock 1)))
            || ltb_ℤ (pos (unix (w.clock 2 + 24 * 3600 * 10 ^ 9))) expiry
        then some invalid_message
        else if not (allows before.store_allowed) || not (forwards before.forward_allowed recipient)
        then some v2_policy
        else none

    abbrev pub frame_row : FrameRow
    frame_row = record {
      id = id;
      recipient = recipient;
      frame = frame;
      expiry = pos_part expiry;
      stored_at = unix (w.clock 4);
      read_at = 0;
    }

    unfoldable pub store_parsed : Policy → Frame → Action (Store Env) Error Unit
    unfolding written
    store_parsed policy parsed s = elim (verify policy parsed) [
      | some e ↦ (err e, s)
      | none ↦ elim (admit policy) [
        | some e ↦ (err e, s)
        | none ↦ written s (transaction (frame_tx w (policy_hash policy) frame_row) s.db)
      ]
    ]

    unfoldable pub store_v2_frame : Option Policy → Action (Store Env) Error Unit
    store_v2_frame policy s =
        if not (authorize sender) then (err unauthorized, s) else elim (parse_frame frame) [
          | none ↦ (err unverified, s)
          | some parsed ↦ elim policy [
            | none ↦ (err invalid_message, s)
            | some p ↦ store_parsed p parsed s
          ]
        ]

pub record V2Frame : Type 0 where
  pub id : Bytes
  pub frame : Bytes

-- ORDER BY stored_at,id
abbrev pub precedes : FrameRow → FrameRow → Bool
precedes a b = ltb a.stored_at b.stored_at || eqb a.stored_at b.stored_at && less a.id b.id

abbrev pub frame_of : FrameRow → V2Frame
frame_of r = record { id = r.id; frame = r.frame }

module _ (authorize : Bytes → Bool) (w : World) (recipient : Bytes) where
  unfoldable pub retrieve_v2_frames : Db → Result Error (List V2Frame)
  retrieve_v2_frames db =
      if not (authorize recipient)
      then err unauthorized
      else if w.fault 0
      then err database
      else ok (
          map frame_of (
            take 100
              (sort precedes (select (is_pending_frame (unix (w.clock 0)) recipient) db.frames))))

  abbrev pub is_acked : List Bytes → FrameRow → Bool
  is_acked ids r = is_pending_frame (unix (w.clock 1)) recipient r && contains ids r.id

  abbrev pub read : FrameRow → FrameRow
  read r = record r { read_at = unix (w.clock 0) }

  unfoldable pub ack_v2_frames : List Bytes → Action Db Error ℕ
  ack_v2_frames ids db =
      if not (authorize recipient)
      then (err unauthorized, db)
      else if eqb (length ids) 0
      then (ok 0, db)
      else if ltb 100 (length ids)
      then (err invalid_message, db)
      else if w.fault 0
      then (err database, db)
      else (
        ok (count (is_acked ids) db.frames),
        record db { frames = update (is_acked ids) read db.frames },
      )
