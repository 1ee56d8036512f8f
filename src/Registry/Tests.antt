-- ===== src/Registry/Tests.antt =====
-- The theorems of the registry at concrete inputs.
use mathlib.Core.Bool.{false≢true}
use agent_comm_platform.Base.{
  ℕ, ◌≡◌, refl, ◌≢◌, ◌↔◌, Bool, true, false, some, List, [], ◌∷◌, arith, All,
}
use agent_comm_platform.Base.Int.{pos}
use agent_comm_platform.Base.Bytes.{Bytes, ◌==◌, contains, eq_iff}
use agent_comm_platform.Base.Hex.{IsBytes}
use agent_comm_platform.Base.Table.{select, select_row}
use agent_comm_platform.Base.Action.{ok, err}
use agent_comm_platform.Registry.Codec.{encode_string_slice, decode_string_slice}
use agent_comm_platform.Registry.Codec.RoundTrip.{decode_string_slice-encode_string_slice}
use agent_comm_platform.Registry.Store.{
  Proof, Row, Entry, Store, Sdk, database, new_row, entry_of_row, serve, serve_all, urns_of,
  list_check, authenticated_entry, is_rollback, register_with_signature, resolve_entry,
  list_entries, list_urns,
}
use agent_comm_platform.Registry.Rows.{UniqueUrns}
use agent_comm_platform.Registry.Writes.{
  ValidatedVerifies, attempt, register_err, resolve-register_self,
}
use agent_comm_platform.Registry.History.{Call, IsRecorded, run, run-IsRecorded}
use agent_comm_platform.Registry.Reads.{list_urns_iff}

-- A registration is in order when its signature is "s".
abbrev pub sdk : Sdk
sdk = record {
  validate_registration = λ now p. p.signature == b's' ∷ [];
  verify_registration = λ p. p.signature == b's' ∷ [];
}

validated : ValidatedVerifies sdk
validated now p h = h

abbrev up : ℕ → Bool
up i = false

abbrev down : ℕ → Bool
down i = true

abbrev pub alice : Bytes
alice = b'a' ∷ []

abbrev pub bob : Bytes
bob = b'b' ∷ []

alice-ne-bob : alice ≢ bob
unfolding ◌==◌
alice-ne-bob e = false≢true ((eq_iff alice bob).1 e)

abbrev pub proof_at : Bytes → ℕ → Proof
proof_at urn t = record {
  urn = urn;
  peer_id = b'p' ∷ [];
  x25519_pubkey = b'x' ∷ [];
  ed25519_pubkey = b'k' ∷ [];
  signature = b's' ∷ [];
  stores_user_data = false;
  timestamp = pos t;
}

abbrev addresses : List Bytes
addresses = (b'm' ∷ []) ∷ (b'n' ∷ b'o' ∷ []) ∷ []

addresses-IsBytes : All IsBytes addresses
addresses-IsBytes = ((omega arith, tt), ((omega arith, (omega arith, tt)), tt))

addresses-many : addresses ≢ [] ∷ []
addresses-many e = cc e

none-ne-single : ◌≢◌ {A = List Bytes} [] ([] ∷ [])
none-ne-single e = cc e

abbrev pub blank : Store
blank = record { rows = []; ttl = 100 }

abbrev pub row_at : Bytes → ℕ → Row
row_at urn t = new_row blank t (proof_at urn t) [] []

abbrev pub two : Store
two = record { rows = row_at alice 10 ∷ row_at bob 20 ∷ []; ttl = 100 }

two-UniqueUrns : UniqueUrns two.rows
unfolding select_row new_row ◌==◌
two-UniqueUrns = (refl, (refl, tt))

decode_string_slice-encode_string_slice_example :
    (decode_string_slice (encode_string_slice addresses) ≡ addresses) ↔ (addresses ≢ [] ∷ [])
decode_string_slice-encode_string_slice_example =
    decode_string_slice-encode_string_slice addresses addresses-IsBytes

fails_when_down : (attempt sdk down 30 (proof_at alice 30) addresses [] two).0 ≡ err database
unfolding register_with_signature list_check ◌==◌
fails_when_down = refl

register_err_example : (attempt sdk down 30 (proof_at alice 30) addresses [] two).1 ≡ two
register_err_example =
    register_err sdk down 30 (proof_at alice 30) addresses [] two database fails_when_down

accepted : (attempt sdk up 30 (proof_at alice 30) addresses [] two).0 ≡ ok tt
unfolding register_with_signature list_check is_rollback authenticated_entry select_row ◌==◌ new_row
accepted = refl

resolve-register_self_example :
    resolve_entry sdk false 129 alice (attempt sdk up 30 (proof_at alice 30) addresses [] two).1
    ≡ ok (
        some (record {
          proof = proof_at alice 30;
          addrs = addresses;
          relay_addrs = [];
          expires_at = 130;
        }))
resolve-register_self_example =
    resolve-register_self sdk up 30 (proof_at alice 30) addresses [] two 129 validated
      addresses-IsBytes tt addresses-many none-ne-single accepted (omega arith)

abbrev calls : List Call
calls =
    record { fault = up; now = 30; proof = proof_at alice 9; addrs = addresses; relay_addrs = [] }
    ∷ record {
      fault = up;
      now = 31;
      proof = proof_at alice 31;
      addrs = addresses;
      relay_addrs = [];
    }
    ∷ record { fault = down; now = 32; proof = proof_at bob 32; addrs = []; relay_addrs = [] }
    ∷ []

two-IsRecorded : IsRecorded sdk alice (pos 10) two
unfolding select_row new_row ◌==◌
two-IsRecorded = record { row = row_at alice 10; found = refl; authentic = refl; newer = refl }

run-IsRecorded_example : IsRecorded sdk alice (pos 10) (run sdk calls two)
run-IsRecorded_example = run-IsRecorded sdk validated alice (pos 10) calls two two-IsRecorded

serves_bob : resolve_entry sdk false 60 bob two ≡ ok (some (entry_of_row (row_at bob 20)))
unfolding resolve_entry serve authenticated_entry select_row new_row ◌==◌
serves_bob = refl

lists_bob : list_urns sdk false 115 two ≡ ok (bob ∷ [])
unfolding list_urns list_entries serve_all urns_of authenticated_entry select entry_of_row new_row
    ◌==◌
lists_bob = refl

list_urns_iff_example :
    (contains (bob ∷ []) alice ≡ true)
    ↔ ((e : Entry) × (resolve_entry sdk false 115 alice two ≡ ok (some e)))
list_urns_iff_example = list_urns_iff sdk 115 alice two (bob ∷ []) two-UniqueUrns lists_bob
