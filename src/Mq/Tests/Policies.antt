-- ===== src/Mq/Tests/Policies.antt =====
-- The theorems on the pinned policy at concrete inputs.
use agent_comm_platform.Base.{ℕ, zero, suc, ◌≡◌, refl, true, some, [], ◌∷◌}
use agent_comm_platform.Base.Int.{pos}
use agent_comm_platform.Base.Bytes.{Bytes}
use agent_comm_platform.Base.Action.{Result, ok}
use agent_comm_platform.Mq.Tables.{PolicyRow, Store, Error, unix}
use agent_comm_platform.Mq.Policy.{is_rollback, pin_policy, enable_v2_policy}
use agent_comm_platform.Mq.Policy.Pinning.{Follows, Call, run, run-Follows}
use agent_comm_platform.Mq.Tests.{world, policy, store}

digits : ℕ → Bytes
digits zero = []
digits (suc n) = b'0' ∷ digits n

-- A hash of 64 digits.
hash : Bytes
hash = digits 64

abbrev result : Result Error Unit × Store Bytes
result = enable_v2_policy (world 100) 4 hash (pos 2000) true [] store

accepted : result.0 ≡ ok tt
unfolding enable_v2_policy pin_policy is_rollback unix hash digits
accepted = refl

abbrev call_at : ℕ → Call
call_at epoch = record {
  world = world 100;
  epoch = epoch;
  hash = hash;
  expires_at = pos 2000;
  require_v2 = true;
  issuer = [];
}

-- The second call is a rollback.
run-Follows_example :
    (new : PolicyRow) × ((run (call_at 4 ∷ call_at 3 ∷ call_at 5 ∷ []) store).db.policy_state
      ≡ some new)
    × Follows policy new
run-Follows_example = run-Follows (call_at 4 ∷ call_at 3 ∷ call_at 5 ∷ []) store policy refl
