-- ===== src/Mq/Tests/Retentions.antt =====
-- The theorems on retention at concrete inputs.
use agent_comm_platform.Base.{◌*◌, ◌^◌, ◌≡◌, refl, arith, All}
use agent_comm_platform.Base.Int.{pos}
use agent_comm_platform.Base.Bytes.{Bytes}
use agent_comm_platform.Base.Table.{select}
use agent_comm_platform.Base.Action.{Result, ok}
use agent_comm_platform.Mq.Tables.{Store, Error, unix, is_pending_v1}
use agent_comm_platform.Mq.DeliveryV2.{batch}
use agent_comm_platform.Mq.Retention.{cleanup, set_compliance_retention_days}
use agent_comm_platform.Mq.Retention.Archive.{IsRetained, changed, change_revives_nothing}
use agent_comm_platform.Mq.Retention.Mailboxes.{cleanup_keeps_mail}
use agent_comm_platform.Mq.Tests.{bob, world, store}

-- From one day to thirty, when the older of the two bodies has run out.
abbrev result : Result Error Unit × Store Bytes
result = changed (world 86450) (pos 30) store

accepted : result.0 ≡ ok tt
unfolding set_compliance_retention_days
accepted = refl

change_revives_nothing_example :
    All
      (λ m. IsRetained 1 (unix (86450 * 10 ^ 9)) m × IsRetained 30 (unix (86450 * 10 ^ 9)) m)
      result.1.db.compliance
change_revives_nothing_example = change_revives_nothing (world 86450) (pos 30) store accepted refl

cleanup_keeps_mail_example :
    (select (is_pending_v1 499 bob) (cleanup (world 0) 498 store).db.messages
      ≡ select (is_pending_v1 499 bob) store.db.messages)
    × ((hash : Bytes)
        → batch 499 bob hash (cleanup (world 0) 498 store).db ≡ batch 499 bob hash store.db)
cleanup_keeps_mail_example = cleanup_keeps_mail (world 0) 498 499 bob (omega arith) store
