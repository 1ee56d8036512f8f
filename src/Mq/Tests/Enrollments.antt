-- ===== src/Mq/Tests/Enrollments.antt =====
-- The theorems on enrolments and revocations at concrete inputs.
use agent_comm_platform.Base.{◌*◌, ◌^◌, ◌≡◌, ◌≢◌, refl, true, false, none, some, List, [], ◌∷◌}
use agent_comm_platform.Base.Int.{pos}
use agent_comm_platform.Base.Bytes.{Bytes, ◌==◌}
use agent_comm_platform.Base.Table.{select_row, count, update}
use agent_comm_platform.Base.Action.{ok}
use agent_comm_platform.Mq.Tables.{Store}
use agent_comm_platform.Mq.Managed.{is_granted, is_managed_at_issuer}
use agent_comm_platform.Mq.Enrollment.{
  Issuer, enroll_managed, enroll_parsed, enroll_tx, revoke_tx, revoke_managed,
}
use agent_comm_platform.Mq.Enrollment.Calls.{Call, enroll, revoke, call, run}
use agent_comm_platform.Mq.Enrollment.Revocation.{revocation_is_final}
use agent_comm_platform.Mq.Enrollment.Keys.{HasKey, run-HasKey}
use agent_comm_platform.Mq.Tests.{bob, world, authorize, grant, store}

-- Every certificate is bob's, with its bytes as the serial.
abbrev issuer : Issuer Bytes
issuer = record {
  managed_issuer_public_key = λ policy. b'i' ∷ [];
  policy_hash = λ policy. b'h' ∷ [];
  parse_managed_certificate = λ bytes. some (record {
    urn = bob;
    identity_public_key = b'j' ∷ [];
    serial = bytes;
    not_before = pos 0;
    expires_at = pos 900;
  });
  verify_managed_certificate = λ cert policy now. true;
}

abbrev serial : Bytes
serial = b'1' ∷ []

-- bob's grant is revoked, and enrolled again under the same serial.
abbrev calls : List (Call Bytes Bytes)
calls = enroll (world 100) store [] serial ∷ []

abbrev after : Store Bytes
after = run issuer authorize calls (revoke_managed (world 100) serial store).1

revoke_done : (revoke_managed (world 100) serial store).0 ≡ ok tt
unfolding revoke_managed revoke_tx count
revoke_done = refl

still_there :
    select_row (is_granted (b'i' ∷ []) bob) after.db.managed
    ≡ some (record grant { revoked = true })
unfolding run call revoke_managed revoke_tx enroll_managed enroll_parsed enroll_tx select_row count
    update ◌==◌
still_there = refl

revocation_is_final_example :
    is_managed_at_issuer false 0 0 (b'i' ∷ []) 1000 bob none (90 * 10 ^ 9) after.db ≢ ok true
revocation_is_final_example =
    revocation_is_final issuer authorize (world 100) serial store calls revoke_done (b'i' ∷ []) bob
      (record grant { revoked = true }) still_there refl false 0 0 1000 none (90 * 10 ^ 9)

bob-HasKey : HasKey bob (b'j' ∷ []) store.db.managed
unfolding select_row ◌==◌
bob-HasKey = record { row = grant; found = refl; same_key = refl }

run-HasKey_example :
    HasKey bob
      (b'j' ∷ [])
      (run issuer authorize (revoke (world 100) serial ∷ calls) store).db.managed
run-HasKey_example =
    run-HasKey issuer authorize bob (b'j' ∷ []) (revoke (world 100) serial ∷ calls) store bob-HasKey
