-- ===== src/Mq/StoreV1.antt =====
-- `StoreEnvelope` and `NotifySubscribers` of internal/mq/store.go. The fields in memory are read under
-- the mutex before the transaction begins, so they are those of a state `before`, which other calls
-- may have changed by then; the transaction and the notification run on the state of the action.
pub mod Transaction
pub mod Outcome
pub mod Calls
pub mod Guarantees
pub mod Bounds
use agent_comm_platform.Mq.StoreV1.Transaction.{store_tx, admits, insert_or_replay}
use agent_comm_platform.Base.{
  ℕ, ◌+◌, Bool, true, false, not, ◌&&◌, ◌||◌, Option, none, some, List, [], ◌∷◌, ◌++◌, length, ltb,
  leb, eqb, if◌then◌else◌,
}
use agent_comm_platform.Base.Int.{ℤ, pos, negsuc, pos_part, ltb_ℤ, leb_ℤ}
use agent_comm_platform.Base.Bytes.{Bytes, ◌==◌}
use agent_comm_platform.Base.Table.{select_row, count}
use agent_comm_platform.Base.Action.{
  Result, ok, err, Action, require, transaction, proceed, pure, fail, gets, lift, ◌>>=◌, ◌>>◌,
}
use agent_comm_platform.Mq.Hub.{Hub, channels_of, send_all}
use agent_comm_platform.Mq.Managed.{is_managed_at, is_managed_at_issuer}
use agent_comm_platform.Mq.Sdk.{Sdk}
use agent_comm_platform.Mq.Tables.{
  V1Row, PolicyRow, ManagedRow, Db, Store, World, Error, queue_full, invalid_message, v1_policy,
  id_conflict, storage_disabled, recipient_blocked, database, unverified, unauthorized,
  max_envelope_bytes, unix, query, pending, has_id, has_id_v2, has_id_admission, has_id_compliance,
}

is_zero : ℤ → Bool
is_zero (pos n) = eqb n 0
is_zero (negsuc n) = false

-- `expiryUnix < 0 || (expiryUnix != 0 && expiryUnix <= now.Unix())`
unfoldable pub is_past : ℤ → ℕ → Bool
unfolding is_zero
is_past expiry now = ltb_ℤ expiry (pos 0) || not (is_zero expiry) && leb_ℤ expiry (pos now)

-- 0 asks for the longest lifetime, and a longer one is cut.
unfoldable pub clamp_expiry : ℤ → ℕ → ℕ
unfolding is_zero
clamp_expiry expiry max_expiry =
    if is_zero expiry || ltb_ℤ (pos max_expiry) expiry then max_expiry else pos_part expiry

-- `storeAllowed != nil && !storeAllowed()` and its like for forwarding, negated.
unfoldable pub allows : Option Bool → Bool
allows none = true
allows (some b) = b

unfoldable pub forwards : Option (Bytes → Bool) → Bytes → Bool
forwards none recipient = true
forwards (some f) recipient = f recipient

-- `SetStoragePolicy`
unfoldable pub set_storage_policy :
    {Env : Type 0} → Option Bool → Option (Bytes → Bool) → Store Env → Store Env
set_storage_policy store_allowed forward_allowed s = record s {
  store_allowed = store_allowed;
  forward_allowed = forward_allowed;
}

-- `senderErr != nil || recipientErr != nil || !managedSender && !managedRecipient`, negated.
unfoldable pub delivers : Result Error Bool → Result Error Bool → Bool
delivers (ok a) (ok b) = a || b
delivers _ _ = false

module _ {Env : Type 0} (sdk : Sdk Env) (authorize_recipient : Bytes → Bool) where
  open sdk use {message_id, sender_urn, sender_ed25519_pubkey, size, marshal, verify_envelope}

  -- The fast check of the policy in memory.
  unfoldable pub fast_check : World → Store Env → Env → Bytes → Result Error Unit
  fast_check w before env recipient =
      if not before.v2_required
      then ok tt
      else elim (is_managed_at (w.fault 0) (w.clock 1) (w.clock 2) (sender_urn env)
          (sender_ed25519_pubkey env) (w.clock 0) before) [
            | err e ↦ err e
            | ok managed_sender ↦
                elim (is_managed_at (w.fault 1) (w.clock 4) (w.clock 5) recipient none (w.clock 3)
                  before) [
                    | err e ↦ err e
                    | ok managed_recipient ↦
                        if not managed_sender && not managed_recipient then err v1_policy else ok tt
                  ]
          ]

  unfoldable pub fits : Env → Bool
  fits env = not (ltb 256 (length (message_id env)) || ltb max_envelope_bytes (size env))

  -- Everything before the transaction: the row to insert, or the refusal.
  unfoldable pub admit : World → Store Env → Option Env → Bytes → ℤ → Result Error V1Row
  admit w before none recipient expiry = err invalid_message
  admit w before (some env) recipient expiry =
      if not (fits env) then err invalid_message else elim (fast_check w before env recipient) [
        | err e ↦ err e
        | ok _ ↦
            if not (allows before.store_allowed)
            then err storage_disabled
            else if not (forwards before.forward_allowed recipient)
            then err recipient_blocked
            else if not (verify_envelope env recipient)
            then err unverified
            else if not (authorize_recipient (sender_urn env))
            then err unauthorized
            else if is_past expiry (unix (w.clock 6))
            then err invalid_message
            else elim (marshal env) [
              | none ↦ err unverified
              | some payload ↦ ok (record {
                id = message_id env;
                recipient = recipient;
                payload = payload;
                expiry = clamp_expiry expiry (unix (w.clock 6 + before.default_ttl_ns));
                stored_at = unix (w.clock 7);
                stored_at_ns = w.clock 7;
                read_at = 0;
              })
            ]
      ]

  -- The clock's readings 13 and on, and the failures 9 and 10, are those of this function.
  unfoldable pub notify_subscribers : World → Bytes → Env → ℕ → Store Env → Store Env
  notify_subscribers w urn env stored_at_ns s =
      if not s.v2_required
        || delivers
            (is_managed_at_issuer (w.fault 9) (w.clock 13) (w.clock 14) s.v2_managed_issuer
              s.v2_policy_expiry (sender_urn env) (sender_ed25519_pubkey env) stored_at_ns s.db)
            (is_managed_at_issuer (w.fault 10) (w.clock 15) (w.clock 16) s.v2_managed_issuer
              s.v2_policy_expiry urn none stored_at_ns s.db)
      then record s {
        hub = record s.hub {
          channel = send_all (channels_of urn s.hub.subscribers) env s.hub.channel;
        };
      }
      else s

  -- After the transaction: a new row is announced.
  unfoldable pub announce :
      World → Env → V1Row → Store Env → Result Error Bool × Db → Result Error Bytes × Store Env
  announce w env row s (err e, db) = (err e, record s { db = db })
  announce w env row s (ok false, db) = (ok row.id, record s { db = db })
  announce w env row s (ok true, db) =
      (ok row.id, notify_subscribers w row.recipient env row.stored_at_ns (record s { db = db }))

  unfoldable pub store_row : World → Env → V1Row → Action (Store Env) Error Bytes
  store_row w env row s =
      announce w env row s (
        transaction (store_tx w s.max_per_urn (sender_urn env) (sender_ed25519_pubkey env) row)
          s.db)

  unfoldable pub store_envelope :
      World → Store Env → Bytes → Option Env → ℤ → Action (Store Env) Error Bytes
  store_envelope w before recipient none expiry s = (err invalid_message, s)
  store_envelope w before recipient (some env) expiry s =
      elim (admit w before (some env) recipient expiry) [
        | err e ↦ (err e, s)
        | ok row ↦ store_row w env row s
      ]
