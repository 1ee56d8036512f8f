-- ===== src/Mq/Tests/Acknowledgements.antt =====
-- The theorems on `Ack` at concrete inputs.
use agent_comm_platform.Base.{
  ℕ, ◌+◌, ◌*◌, ◌^◌, ◌≡◌, ◌≢◌, refl, ap, true, List, [], ◌∷◌, arith, All, eqb,
}
use agent_comm_platform.Base.Bytes.{Bytes, ◌==◌, ascii, contains}
use agent_comm_platform.Base.Int.{mul_int64, of_word64}
use agent_comm_platform.Base.Table.{select, select_row, count, update}
use agent_comm_platform.Base.Action.{Result, ok}
use agent_comm_platform.Mq.Managed.{is_managed_at_issuer, load_managed_grant, permits, key_matches}
use agent_comm_platform.Mq.Tables.{V1Row, Store, World, Error, is_pending_v1, unix}
use agent_comm_platform.Mq.AckV1.{
  AckIdentity, names, read, is_marked, mark, is_visible, with_row, check_row, check_rows, joined,
  check_batch, check_batches, mark_allowed, ack,
}
use agent_comm_platform.Mq.AckV1.Visible.{IsDeliverable}
use agent_comm_platform.Mq.AckV1.Guarantees.{acked, ack_visible, ack_ok}
use agent_comm_platform.Mq.Tests.{bob, sdk, world, authorize, grant, store}

abbrev issuer : Bytes
issuer = ascii "0123456789abcdef0123456789abcdef"

-- The policy requires v2, and bob has a grant.
abbrev strict : Store Bytes
strict = record store {
  v2_required = true;
  v2_managed_issuer = issuer;
  db = record store.db { managed = record grant { issuer_pubkey = issuer } ∷ [] };
}

abbrev named : List Bytes
named = (b'm' ∷ []) ∷ (b'z' ∷ []) ∷ []

abbrev worlds : ℕ → ℕ → World
worlds b i = world 100

abbrev result : Result Error ℕ × Store Bytes
result = acked sdk authorize (world 100) worlds bob named strict

one : result.0 ≡ ok 1
unfolding ack check_batches check_batch check_rows check_row with_row is_visible
    is_managed_at_issuer load_managed_grant permits key_matches joined mark_allowed mark names
    select count contains unix ◌==◌ mul_int64 of_word64 select_row
one = refl

marks : count (λ (r : V1Row). eqb r.read_at 0) result.1.db.messages ≡ 0
unfolding ack check_batches check_batch check_rows check_row with_row is_visible
    is_managed_at_issuer load_managed_grant permits key_matches joined mark_allowed mark names
    select count contains unix ◌==◌ mul_int64 of_word64 select_row update
marks = refl

unread : count (λ (r : V1Row). eqb r.read_at 0) strict.db.messages ≡ 1
unfolding count
unread = refl

changed : result.1 ≢ strict
changed e =
    absurd (
      omega
        (arith, marks, unread, ap (λ s. count (λ (r : V1Row). eqb r.read_at 0) s.db.messages) e))

ack_visible_example :
    (allowed : List AckIdentity) × All (IsDeliverable sdk bob named strict worlds) allowed
    × (result.1.db.messages
        ≡ update (is_marked (world 100) bob (names allowed)) (read (world 100)) strict.db.messages)
ack_visible_example = ack_visible sdk authorize (world 100) worlds bob named strict refl changed

ack_ok_example :
    (count (is_pending_v1 (unix (100 * 10 ^ 9)) bob) result.1.db.messages + 1
      ≡ count (is_pending_v1 (unix (100 * 10 ^ 9)) bob) strict.db.messages)
    × ((now : ℕ) (other : Bytes)
        → other ≢ bob
        → select (is_pending_v1 now other) result.1.db.messages
          ≡ select (is_pending_v1 now other) strict.db.messages)
unfolding unix
ack_ok_example = ack_ok sdk authorize (world 100) worlds bob named strict 1 one (omega arith)
