-- ===== src/Mq/Tests/Mailboxes.antt =====
-- The mailboxes of the small store are within its bound.
use agent_comm_platform.Base.{◌≤◌, arith}
use agent_comm_platform.Base.Bytes.{Bytes}
use agent_comm_platform.Base.Table.{count}
use agent_comm_platform.Mq.Tables.{pending}
use agent_comm_platform.Mq.Quota.{IsWithinQuota, pending_mono}
use agent_comm_platform.Mq.Tests.{db}

two_at_most : (recipient : Bytes) → pending 0 0 recipient db ≤ 3
unfolding pending count
two_at_most recipient = ground arith

pub within : IsWithinQuota 0 3 db
within later recipient h =
    omega (arith, pending_mono 0 0 later recipient db h h, two_at_most recipient)
