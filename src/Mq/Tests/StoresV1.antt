-- ===== src/Mq/Tests/StoresV1.antt =====
-- The guarantees of `StoreEnvelope` at concrete inputs.
use agent_comm_platform.Base.{◌*◌, ◌^◌, ◌<◌, ◌≡◌, refl, ap, ◌≢◌, true, some, [], ◌∷◌, arith, length}
use agent_comm_platform.Base.Int.{pos}
use agent_comm_platform.Base.Bytes.{Bytes, ◌==◌}
use agent_comm_platform.Base.Table.{select_row, count}
use agent_comm_platform.Base.Action.{Result, ok, err}
use agent_comm_platform.Mq.Tables.{
  V1Row, ManagedRow, Store, Error, invalid_message, has_id, unix, pending,
}
use agent_comm_platform.Mq.Quota.{IsWithinQuota}
use agent_comm_platform.Mq.StoreV1.Transaction.{
  store_tx, insert_or_replay, publish, admits, collisions, is_party,
}
use agent_comm_platform.Mq.StoreV1.{
  admit, fits, fast_check, allows, forwards, is_past, clamp_expiry, store_envelope, store_row,
  announce, notify_subscribers,
}
use agent_comm_platform.Mq.StoreV1.Guarantees.{stored, store_ok, store_again, store_policy}
use agent_comm_platform.Mq.StoreV1.Bounds.{store-IsWithinQuota}
use agent_comm_platform.Mq.Tests.Mailboxes.{within}
use agent_comm_platform.Mq.Tests.{alice, bob, sdk, authorize, world, policy, v1_row, store}

abbrev new : Bytes
new = b'x' ∷ []

abbrev result : Result Error Bytes × Store Bytes
result = stored sdk authorize (world 100) store bob new (pos 0) store

-- The expiry is in the past.
past : (stored sdk authorize (world 100) store bob new (pos 99) store).0 ≡ err invalid_message
unfolding store_envelope admit fits fast_check allows forwards is_past unix
past = refl

accepted : result.0 ≡ ok new
unfolding store_envelope admit fits fast_check allows forwards is_past unix store_row store_tx
    admits is_party collisions insert_or_replay publish announce pending select_row count ◌==◌
    clamp_expiry
accepted = refl

store_ok_example :
    (row : V1Row) × (new ≡ new)
    × (select_row (has_id new) result.1.db.messages ≡ some row)
    × (row.recipient ≡ bob)
    × (some new ≡ some row.payload)
store_ok_example = store_ok sdk authorize (world 100) store bob new (pos 0) store new accepted

is_stored : select_row (has_id (b'm' ∷ [])) store.db.messages ≡ some (v1_row (b'm' ∷ []) bob)
unfolding select_row ◌==◌
is_stored = refl

store_again_example :
    (stored sdk authorize (world 100) store alice (b'm' ∷ []) (pos 0) store).1 ≡ store
store_again_example =
    store_again sdk authorize (world 100) store alice (b'm' ∷ []) (pos 0) store
      (v1_row (b'm' ∷ []) bob) is_stored

two_messages : length result.1.db.messages ≡ 2
unfolding store_envelope admit fits fast_check allows forwards is_past unix store_row store_tx
    admits is_party collisions insert_or_replay publish announce pending select_row count ◌==◌
    clamp_expiry notify_subscribers
two_messages = refl

changed : result.1 ≢ store
changed e = absurd (omega (arith, two_messages, ap (λ s. length s.db.messages) e))

store_policy_example :
    (unix (100 * 10 ^ 9) < 1000)
    × (true ≡ true
        → (r : ManagedRow) × (select_row
              (is_party
                (b'i' ∷ [])
                (unix (100 * 10 ^ 9))
                (100 * 10 ^ 9)
                alice
                (some (b'k' ∷ []))
                bob)
              store.db.managed
            ≡ some r))
store_policy_example =
    store_policy sdk authorize (world 100) store bob new (pos 0) store policy refl changed

store-IsWithinQuota_example : IsWithinQuota 100 3 result.1.db
unfolding unix
store-IsWithinQuota_example =
    store-IsWithinQuota sdk authorize (world 100) store bob new (pos 0) store 0 100 (omega arith)
      within (omega arith) (omega arith) (omega arith)
