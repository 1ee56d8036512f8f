-- ===== src/Registry/Store.antt =====
-- The registry store: internal/registry/store.go. The mutexes make each operation one step, so an
-- operation is a function on the table; `fault` tells which statements the database fails.
use agent_comm_platform.Base.{
  ℕ, ◌+◌, Bool, false, not, ◌&&◌, Option, none, some, List, [], ◌∷◌, length, ltb, if◌then◌else◌,
}
use agent_comm_platform.Base.Int.{ℤ, ltb_ℤ}
use agent_comm_platform.Base.Bytes.{Bytes, ◌==◌}
use agent_comm_platform.Base.Table.{select, select_row, delete}
use agent_comm_platform.Base.Action.{Result, ok, err, Action}
use agent_comm_platform.Registry.Codec.{encode_string_slice, decode_string_slice}

-- What the owner of a URN signs, with the signature.
pub record Proof : Type 0 where
  pub urn : Bytes
  pub peer_id : Bytes
  pub x25519_pubkey : Bytes
  pub ed25519_pubkey : Bytes
  pub signature : Bytes
  pub stores_user_data : Bool
  pub timestamp : ℤ

-- A row of the table `registry`; the key is the URN.
pub record Row : Type 0 where
  pub proof : Proof
  pub open proof use *
  pub addrs : Bytes
  pub relay_addrs : Bytes
  pub expires_at : ℕ
  pub updated_at : ℕ

pub record Entry : Type 0 where
  pub proof : Proof
  pub open proof use *
  pub addrs : List Bytes
  pub relay_addrs : List Bytes
  pub expires_at : ℕ

pub record Store : Type 0 where
  pub rows : List Row
  pub ttl : ℕ

-- The functions of the module agent-comm/registry, which the store calls: a proof of ownership is
-- checked against the time of the call on writes, and without it on reads.
pub record Sdk : Type 0 where
  pub validate_registration : ℕ → Proof → Bool
  pub verify_registration : Proof → Bool

pub data Error : Type 0 where
  unsigned_registration invalid_registration too_many_addresses address_too_long : Error
  older_than_current database : Error

-- The loop over the addresses of one list.
address_check : List Bytes → Option Error
address_check [] = none
address_check (a ∷ rest) =
    let others = address_check rest in if ltb 2048 (length a) then some address_too_long else others

-- The loop over the two lists.
unfoldable pub list_check : List (List Bytes) → Option Error
unfolding address_check
list_check [] = none
list_check (l ∷ rest) =
    let others = list_check rest in
    if ltb 64 (length l)
    then some too_many_addresses
    else elim (address_check l) [ none ↦ others | some e ↦ some e ]

abbrev pub has_urn : Bytes → Row → Bool
has_urn urn r = r.urn == urn

-- INSERT … ON CONFLICT(urn) DO UPDATE
unfoldable pub upsert : Row → List Row → List Row
upsert row [] = row ∷ []
upsert row (r ∷ rest) =
    let others = upsert row rest in if has_urn row.urn r then row ∷ rest else r ∷ others

-- The columns of a row, decoded.
unfoldable pub entry_of_row : Row → Entry
entry_of_row r = record {
  proof = r.proof;
  addrs = decode_string_slice r.addrs;
  relay_addrs = decode_string_slice r.relay_addrs;
  expires_at = r.expires_at;
}

unfoldable pub urns_of : List Entry → List Bytes
urns_of [] = []
urns_of (e ∷ rest) = e.urn ∷ urns_of rest

served : Result Error (Option Entry) → Option Entry
served (ok e) = e
served (err e) = none

-- `Register`: unsigned registration is disabled.
unfoldable pub register : Bytes → Bytes → List Bytes → Bytes → Action Store Error Unit
register urn peer_id addrs x25519_pubkey s = (err unsigned_registration, s)

-- WHERE urn=? AND expires_at > ?
abbrev pub is_current : ℕ → Bytes → Row → Bool
is_current now urn r = r.urn == urn && ltb now r.expires_at

unfoldable pub new_row : Store → ℕ → Proof → List Bytes → List Bytes → Row
new_row s now p addrs relay_addrs = record {
  proof = p;
  addrs = encode_string_slice addrs;
  relay_addrs = encode_string_slice relay_addrs;
  expires_at = now + s.ttl;
  updated_at = now;
}

module _ (sdk : Sdk) where
  unfoldable pub authenticated_entry : Proof → Bool
  authenticated_entry p = sdk.verify_registration p

  -- `err == nil && timestamp < old.Timestamp && authenticatedEntry(&old)`
  unfoldable pub is_rollback : Option Row → ℤ → Bool
  unfolding authenticated_entry
  is_rollback none timestamp = false
  is_rollback (some old) timestamp = ltb_ℤ timestamp old.timestamp && authenticated_entry old.proof

  -- `now` is the time of the call, in seconds.
  unfoldable pub register_with_signature :
      (ℕ → Bool) → ℕ → Proof → List Bytes → List Bytes → Action Store Error Unit
  register_with_signature fault now p addrs relay_addrs s =
      if not (sdk.validate_registration now p)
      then (err invalid_registration, s)
      else elim (list_check (addrs ∷ relay_addrs ∷ [])) [
        | some e ↦ (err e, s)
        | none ↦
            if fault 0
            then (err database, s)
            else if is_rollback (select_row (has_urn p.urn) s.rows) p.timestamp
            then (err older_than_current, s)
            else if fault 1
            then (err database, s)
            else (ok tt, record s { rows = upsert (new_row s now p addrs relay_addrs) s.rows })
      ]

  unfoldable pub serve : Option Row → Option Entry
  serve none = none
  serve (some r) = if authenticated_entry r.proof then some (entry_of_row r) else none

  -- `fault` is a failure of the query. The entry is one that is neither expired nor unauthenticated.
  unfoldable pub resolve_entry : Bool → ℕ → Bytes → Store → Result Error (Option Entry)
  resolve_entry fault now urn s =
      if fault then err database else ok (serve (select_row (is_current now urn) s.rows))

  -- `Resolve` and `ResolveExtended` of the interface of agent-comm/registry: a failure reads as
  -- "not found".
  unfoldable pub resolve : Bool → ℕ → Bytes → Store → Option (Bytes × List Bytes × Bytes)
  unfolding served
  resolve fault now urn s = elim (served (resolve_entry fault now urn s)) [
    | none ↦ none
    | some e ↦ some (e.peer_id, e.addrs, e.x25519_pubkey)
  ]

  unfoldable pub resolve_extended : Bool → ℕ → Bytes → Store → Option Entry
  unfolding served
  resolve_extended fault now urn s = served (resolve_entry fault now urn s)

  unfoldable pub serve_all : List Row → List Entry
  serve_all [] = []
  serve_all (r ∷ rest) =
      let others = serve_all rest in
      if authenticated_entry r.proof then entry_of_row r ∷ others else others

  unfoldable pub list_entries : Bool → ℕ → Store → Result Error (List Entry)
  list_entries fault now s =
      if fault then err database else ok (serve_all (select (λ r. ltb now r.expires_at) s.rows))

  unfoldable pub list_urns : Bool → ℕ → Store → Result Error (List Bytes)
  list_urns fault now s = elim (list_entries fault now s) [
    | ok entries ↦ ok (urns_of entries)
    | err e ↦ err e
  ]

unfoldable pub evict_entry : Bool → Bytes → Action Store Error Unit
evict_entry fault urn s =
    if fault then (err database, s) else (ok tt, record s { rows = delete (has_urn urn) s.rows })

unfoldable pub clear_all_entries : Bool → Action Store Error Unit
clear_all_entries fault s = if fault then (err database, s) else (ok tt, record s { rows = [] })

-- One turn of cleanupLoop.
unfoldable pub cleanup : ℕ → Store → Store
cleanup now s = record s { rows = delete (λ r. ltb 0 r.expires_at && ltb r.expires_at now) s.rows }
