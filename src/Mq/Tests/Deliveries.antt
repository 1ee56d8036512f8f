-- ===== src/Mq/Tests/Deliveries.antt =====
-- The theorems on `RetrieveV2` and `AckV2` at concrete inputs.
use mathlib.Core.Bool.{false≢true}
use agent_comm_platform.Base.{
  ℕ, ◌+◌, ◌*◌, ◌^◌, ◌<◌, ◌≡◌, refl, ◌≢◌, true, ◌&&◌, List, [], ◌∷◌, arith, map,
}
use agent_comm_platform.Base.Bytes.{Bytes, ◌==◌, contains, eq_iff}
use agent_comm_platform.Base.Table.{select, count}
use agent_comm_platform.Base.Sort.{sort}
use agent_comm_platform.Base.Action.{Result, ok}
use agent_comm_platform.Mq.Tables.{V2Row, Store, Error, unix}
use agent_comm_platform.Mq.DeliveryV2.{
  message_of, is_deliverable, batch, fill, policy_lapsed, retrieve_v2, ack_v2,
}
use agent_comm_platform.Mq.DeliveryV2.Batches.{IsBatch, retrieve_v2_ok}
use agent_comm_platform.Mq.DeliveryV2.Acks.{acked, ack_v2_ok}
use agent_comm_platform.Mq.Tests.{alice, bob, authorize, world, v2_row, store}

retrieved :
    retrieve_v2 authorize (world 100) bob store ≡ ok (message_of (v2_row (b'n' ∷ []) bob) ∷ [])
unfolding retrieve_v2 policy_lapsed batch fill sort select unix ◌==◌
retrieved = refl

retrieve_v2_ok_example :
    (authorize bob ≡ true)
    × (unix (100 * 10 ^ 9) < 1000)
    × ((rows : List V2Row) × (message_of (v2_row (b'n' ∷ []) bob) ∷ [] ≡ map message_of rows)
        × IsBatch (unix (100 * 10 ^ 9)) bob (b'h' ∷ []) store.db.v2_messages rows)
retrieve_v2_ok_example =
    retrieve_v2_ok authorize (world 100) bob store (message_of (v2_row (b'n' ∷ []) bob) ∷ [])
      retrieved

abbrev named : List Bytes
named = (b'n' ∷ []) ∷ (b'z' ∷ []) ∷ []

abbrev result : Result Error ℕ × Store Bytes
result = acked authorize (world 100) bob named store

one : result.0 ≡ ok 1
unfolding ack_v2 policy_lapsed unix ◌==◌ count contains
one = refl

ack_v2_ok_example :
    (count (is_deliverable (unix (100 * 10 ^ 9)) bob (b'h' ∷ [])) result.1.db.v2_messages + 1
      ≡ count (is_deliverable (unix (100 * 10 ^ 9)) bob (b'h' ∷ [])) store.db.v2_messages)
    × (count
          (λ r. is_deliverable 200 bob (b'h' ∷ []) r && contains named r.id)
          result.1.db.v2_messages
        ≡ 0)
unfolding unix
ack_v2_ok_example =
    ack_v2_ok authorize (world 100) bob named store 1 200 one (omega arith) (omega arith)

alice-ne-bob : alice ≢ bob
unfolding ◌==◌
alice-ne-bob e = false≢true ((eq_iff alice bob).1 e)
