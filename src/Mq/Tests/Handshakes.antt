-- ===== src/Mq/Tests/Handshakes.antt =====
-- The theorems on handshake frames at concrete inputs.
use agent_comm_platform.Base.{◌≡◌, refl, true, none, some, [], ◌∷◌, arith}
use agent_comm_platform.Base.Int.{pos}
use agent_comm_platform.Base.Bytes.{Bytes, ◌==◌}
use agent_comm_platform.Base.Table.{select_row, count}
use agent_comm_platform.Base.Action.{Result, ok}
use agent_comm_platform.Mq.StoreV1.{allows, forwards}
use agent_comm_platform.Mq.Tables.{FrameRow, Store, Error, unix}
use agent_comm_platform.Mq.Frames.{
  Frame, FrameSdk, frame_init, has_id_frame, expires_in_time, current_policy, publish,
  insert_or_replay, frame_tx, verify, admit, store_parsed, store_v2_frame,
}
use agent_comm_platform.Mq.Frames.Guarantees.{
  stored, IsBounded, store_frame-IsBounded, store_frame_ok,
}
use agent_comm_platform.Mq.Tests.{alice, bob, world, authorize, store}

-- Every frame goes from alice to bob, and is its own hash.
abbrev sdk : FrameSdk Bytes
sdk = record {
  parse_frame = λ bytes.
      some (record { sender_urn = alice; recipient_urn = bob; type = frame_init; payload = bytes });
  frame_hash = λ frame. frame.payload;
  urn_matches_public_key = λ urn key. true;
  verify_frame = λ frame key. true;
  validate_frame_for_relay = λ policy frame now. true;
  policy_hash = λ policy. policy;
  init_expiry = λ payload. some (pos 600);
  accept_expiry = λ payload. none;
}

abbrev first : Bytes
first = b'1' ∷ []

abbrev second : Bytes
second = b'2' ∷ []

abbrev hash : Bytes
hash = b'h' ∷ []

abbrev one : Result Error Unit × Store Bytes
one = stored sdk authorize (world 100) store alice bob first first (pos 500) [] (some hash) store

one_accepted : one.0 ≡ ok tt
unfolding store_v2_frame store_parsed verify admit expires_in_time frame_tx current_policy
    insert_or_replay publish allows forwards unix ◌==◌ count select_row
one_accepted = refl

store_frame_ok_example :
    ((parsed : Frame) × (sdk.parse_frame first ≡ some parsed)
      × (parsed.sender_urn ≡ alice)
      × (parsed.recipient_urn ≡ bob)
      × (sdk.frame_hash parsed ≡ first)
      × (sdk.urn_matches_public_key alice [] ≡ true)
      × (sdk.verify_frame parsed [] ≡ true))
    × ((held : FrameRow) × (select_row (has_id_frame first) one.1.db.frames ≡ some held)
        × (held.recipient ≡ bob)
        × (held.frame ≡ first))
store_frame_ok_example =
    store_frame_ok sdk authorize (world 100) store alice bob first first (pos 500) [] (some hash)
      store one_accepted

none-IsBounded : IsBounded 0 store.db
unfolding count
none-IsBounded later recipient h = omega arith

store_frame-IsBounded_example : IsBounded 100 one.1.db
unfolding unix
store_frame-IsBounded_example =
    store_frame-IsBounded sdk authorize (world 100) store alice bob first first (pos 500) []
      (some hash) store 0 100 none-IsBounded (omega arith) (omega arith)

abbrev held : FrameRow
held = record {
  id = first;
  recipient = bob;
  frame = first;
  expiry = 500;
  stored_at = 100;
  read_at = 0;
}

is_held : select_row (has_id_frame first) one.1.db.frames ≡ some held
unfolding store_v2_frame store_parsed verify admit expires_in_time frame_tx current_policy
    insert_or_replay publish allows forwards unix ◌==◌ count select_row
is_held = refl

-- A second frame leaves the first one.
