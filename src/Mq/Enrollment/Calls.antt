-- ===== src/Mq/Enrollment/Calls.antt =====
-- Sequences of enrolments and revocations.
use agent_comm_platform.Base.{Bool, List, [], ◌∷◌}
use agent_comm_platform.Base.Bytes.{Bytes}
use agent_comm_platform.Mq.Tables.{Store, World}
use agent_comm_platform.Mq.Enrollment.{Issuer, enroll_managed, revoke_managed}

-- One call of either operation.
pub data Call (Env : Type 0) (Policy : Type 0) : Type 0 where
  enroll : World → Store Env → Policy → Bytes → Call Env Policy
  revoke : World → Bytes → Call Env Policy

module _ {Env : Type 0} {Policy : Type 0} (issuer : Issuer Policy) (authorize : Bytes → Bool) where
  unfoldable pub call : Call Env Policy → Store Env → Store Env
  call (enroll w before policy certificate) s =
      (enroll_managed issuer authorize w before policy certificate s).1
  call (revoke w serial) s = (revoke_managed w serial s).1

  unfoldable pub run : List (Call Env Policy) → Store Env → Store Env
  run [] s = s
  run (c ∷ cs) s = run cs (call c s)
