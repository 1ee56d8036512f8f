-- ===== src/Mq/Tests/Gateways.antt =====
-- The gateway at concrete inputs.
use agent_comm_platform.Mq.StoreV2.{
  eqb_ℤ, existing_v2_receipt, admission_of, admit, agrees, body_of, fits, found, mark, row_of,
  settled, store_v2,
}
use agent_comm_platform.Base.Table.{select_row, count}
use agent_comm_platform.Mq.StoreV1.{allows, forwards}
use agent_comm_platform.Mq.StoreV2.Transaction.{
  admit_or_replay, archive, current_policy, insert_or_replay, publish, receipt_of_admission,
  receipt_of_message, retain, store_tx,
}
use agent_comm_platform.Mq.Tables.{pending, unix}
use agent_comm_platform.Base.{◌≡◌, refl, true, false, none, some, [], ◌∷◌, if◌then◌else◌}
use agent_comm_platform.Base.Int.{pos}
use agent_comm_platform.Base.Bytes.{Bytes, ascii, ◌==◌}
use agent_comm_platform.Base.Action.{ok}
use agent_comm_platform.Mq.Gateway.{
  Header, GatewaySdk, V2Gateway, is_owner, is_addressed, admit_v2, admit_authenticated,
  authenticate, from_option, admit_or_return, admit_new, prepare, check_current, inspect,
  open_envelope, sign_receipt, answered, archive_of, content_key, delivery_of, is_inspected,
}
use agent_comm_platform.Mq.Gateway.Loading.{LoadSdk, load_v2_gateway}
use agent_comm_platform.Mq.Gateway.Loaded.{IsLoaded, load_v2_gateway_ok}
use agent_comm_platform.Mq.Gateway.Guarantees.{OnRecord, admit_v2_ok}
use agent_comm_platform.Mq.Tests.{alice, bob, world, store}
use agent_comm_platform.Mq.Tests.StoresV2.{json, hash}

-- An envelope is its bytes, and every one has this header.
abbrev header : Header
header = record {
  message_id = b'x' ∷ [];
  sender_urn = alice;
  recipient_urn = bob;
  expiry = pos 400;
  policy_hash = b'h' ∷ [];
  policy_epoch = 3;
  content_type = json;
}

abbrev sdk : GatewaySdk Bytes Bytes
sdk = record {
  verify_envelope_signature = λ sender raw. if sender == b'k' ∷ [] then some raw else none;
  header = λ env. header;
  urn_matches_public_key = λ urn key. true;
  authorize_recipient = λ urn. true;
  verify_policy = λ policy root now. true;
  verify_envelope = λ policy sender raw now. some raw;
  is_compliance = λ policy. true;
  gateway_open = λ policy env key. some (b'c' ∷ [], b'p' ∷ []);
  validate_body = λ body. true;
  make_receipt = λ policy raw cek key now inspected. some (b'r' ∷ []);
  policy_hash = λ policy. b'h' ∷ [];
  envelope_hash = hash;
  content_type_agent_json = json;
}

abbrev gateway : V2Gateway Bytes
gateway = record {
  policy = [];
  raw_policy = [];
  root = [];
  gateway_private = [];
  receipt_private = [];
}

admits :
    (admit_v2 sdk
      (world 100)
      (world 100)
      store
      gateway
      (b'k' ∷ [])
      bob
      (b'e' ∷ [])
      (pos 400)
      store).0
    ≡ ok (b'x' ∷ [], b'r' ∷ [])
unfolding admit_v2 admit_authenticated authenticate from_option ◌==◌ is_owner is_addressed eqb_ℤ
    admit_or_return existing_v2_receipt select_row admit_new prepare check_current inspect
    open_envelope sign_receipt answered count archive_of content_key delivery_of is_inspected allows
    forwards admit_or_replay archive current_policy insert_or_replay publish receipt_of_admission
    receipt_of_message retain store_tx admission_of admit agrees body_of fits found mark row_of
    settled store_v2 pending unix
admits = refl

admit_v2_ok_example :
    ((env : Bytes) × (sdk.verify_envelope_signature (b'k' ∷ []) (b'e' ∷ []) ≡ some env)
      × ((sdk.urn_matches_public_key (sdk.header env).sender_urn (b'k' ∷ []) ≡ true)
          × (sdk.authorize_recipient (sdk.header env).sender_urn ≡ true)
          × ((sdk.header env).recipient_urn ≡ bob)
          × ((sdk.header env).expiry ≡ pos 400)))
    × OnRecord hash bob
        (b'x' ∷ [])
        (b'e' ∷ [])
        (b'r' ∷ [])
        (admit_v2 sdk
          (world 100)
          (world 100)
          store
          gateway
          (b'k' ∷ [])
          bob
          (b'e' ∷ [])
          (pos 400)
          store).1.db
admit_v2_ok_example =
    admit_v2_ok sdk (world 100) (world 100) store gateway (b'k' ∷ []) bob (b'e' ∷ []) (pos 400)
      store (b'x' ∷ []) (b'r' ∷ []) admits

abbrev key_text : Bytes
key_text = ascii "0123456789abcdef0123456789abcdef"

-- Every file holds 32 bytes, but for the receipt key, whose file has 64.
abbrev load_sdk : LoadSdk Bytes
load_sdk = record {
  read_file = λ path.
      if path == b'r' ∷ []
      then some (ascii "0123456789abcdef0123456789abcdef0123456789abcdef0123456789abcdef")
      else some key_text;
  trim_space = λ raw. raw;
  parse_policy = λ raw. some raw;
  verify_policy = λ policy root now. root == key_text;
  platform_id = λ policy. b'p' ∷ [];
  is_compliance = λ policy. true;
  allow_v1 = λ policy. false;
  receipt_public_key = λ policy. b'R' ∷ [];
  gateway_public_key = λ policy. b'G' ∷ [];
  ed25519_public = λ key. b'R' ∷ [];
  x25519_public = λ key. some (b'G' ∷ []);
}

abbrev loaded : V2Gateway Bytes
loaded = record {
  policy = key_text;
  raw_policy = key_text;
  root = key_text;
  gateway_private = key_text;
  receipt_private = ascii "0123456789abcdef0123456789abcdef0123456789abcdef0123456789abcdef";
}

loads :
    load_v2_gateway load_sdk (b'a' ∷ []) (b'b' ∷ []) (b'g' ∷ []) (b'r' ∷ []) (b'p' ∷ []) 7
    ≡ ok loaded
unfolding load_v2_gateway ◌==◌ agent_comm_platform.Mq.Gateway.Loading.with_policy
    agent_comm_platform.Mq.Gateway.Loading.read_v2_key agent_comm_platform.Mq.Gateway.Loading.key_of
    agent_comm_platform.Mq.Gateway.Loading.with_root
    agent_comm_platform.Mq.Gateway.Loading.with_receipt_key
    agent_comm_platform.Mq.Gateway.Loading.with_gateway_key
loads = refl

load_v2_gateway_ok_example : IsLoaded load_sdk (b'p' ∷ []) 7 loaded
load_v2_gateway_ok_example =
    load_v2_gateway_ok load_sdk (b'g' ∷ []) (b'a' ∷ []) (b'b' ∷ []) (b'r' ∷ []) (b'p' ∷ []) 7 loaded
      loads
