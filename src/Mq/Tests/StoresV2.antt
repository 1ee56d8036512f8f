-- ===== src/Mq/Tests/StoresV2.antt =====
-- The guarantees of `storeV2` at concrete inputs.
use agent_comm_platform.Base.{◌≡◌, refl, ◌⊎◌, Option, none, some, [], ◌∷◌, arith}
use agent_comm_platform.Base.Int.{pos}
use agent_comm_platform.Base.Bytes.{Bytes, ◌==◌}
use agent_comm_platform.Base.Table.{select_row, count}
use agent_comm_platform.Base.Action.{Result, ok}
use agent_comm_platform.Mq.Tables.{Store, Error, unix, pending}
use agent_comm_platform.Mq.Quota.{IsWithinQuota}
use agent_comm_platform.Mq.StoreV1.{allows, forwards}
use agent_comm_platform.Mq.StoreV2.Transaction.{
  store_tx, current_policy, admit_or_replay, insert_or_replay, publish, archive, retain,
}
use agent_comm_platform.Mq.StoreV2.{
  Delivery, Archive, agrees, fits, admit, mark, settled, row_of, admission_of, body_of, store_v2,
}
use agent_comm_platform.Mq.StoreV2.Guarantees.{
  stored, written, IsReceipted, by_message, store_v2_atomic,
}
use agent_comm_platform.Mq.StoreV2.Bounds.{store_v2-IsWithinQuota}
use agent_comm_platform.Mq.Tests.{alice, bob, world, v2_row, db, store}
use agent_comm_platform.Mq.Tests.Mailboxes.{within}

abbrev pub json : Bytes
json = b'J' ∷ []

abbrev pub hash : Bytes → Bytes
hash envelope = b'#' ∷ envelope

-- A new delivery to bob, in compliance mode.
abbrev delivery : Delivery
delivery = record {
  recipient = bob;
  id = b'x' ∷ [];
  policy_hash = b'h' ∷ [];
  envelope = b'e' ∷ [];
  receipt = b'r' ∷ [];
  expiry = pos 400;
}

abbrev plaintext : Option Archive
plaintext = some (record {
  id = b'x' ∷ [];
  sender = alice;
  recipient = bob;
  expiry = pos 400;
  policy_hash = b'h' ∷ [];
  policy_epoch = 3;
  content_type = json;
  plaintext = b'p' ∷ [];
})

abbrev result : Result Error Bytes × Store Bytes
result = stored json hash (world 100) store delivery plaintext store

store_v2_atomic_example :
    (result.1.db ≡ db)
    ⊎ ((result.0 ≡ ok (b'r' ∷ []))
        × (result.1.db ≡ written json hash (world 100) store delivery plaintext store))
store_v2_atomic_example = store_v2_atomic json hash (world 100) store delivery plaintext store

accepted : result.0 ≡ ok (b'r' ∷ [])
unfolding store_v2 admit agrees fits allows forwards unix mark settled row_of admission_of body_of
    store_tx current_policy admit_or_replay insert_or_replay publish archive retain pending
    select_row count ◌==◌
accepted = refl

-- The message that bob has, sent again.
abbrev again : Delivery
again = record delivery { id = b'n' ∷ [] }

on_record : IsReceipted json hash (world 100) store again none store (b'r' ∷ []) db
unfolding select_row ◌==◌
on_record = by_message (v2_row (b'n' ∷ []) bob) refl refl refl refl

store_v2-IsWithinQuota_example : IsWithinQuota 100 3 result.1.db
unfolding unix
store_v2-IsWithinQuota_example =
    store_v2-IsWithinQuota json hash (world 100) store delivery plaintext store 0 100 (omega arith)
      within (omega arith) (omega arith)
