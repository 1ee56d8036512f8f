-- ===== src/Mq/Enrollment/Keys.antt =====
-- The identity key of an enrolled URN.
use agent_comm_platform.Base.{
  ◌≡◌, inl, inr, Bool-cases, Bool, true, some, List, [], ◌∷◌, arith, if◌then◌else◌,
}
use agent_comm_platform.Base.Bytes.{Bytes, eq_iff}
use agent_comm_platform.Base.Table.{select_row, update}
use agent_comm_platform.Mq.Tables.{ManagedRow, Store}
use agent_comm_platform.Mq.Enrollment.{Issuer, has_serial_grant, is_enrolled, upsert}
use agent_comm_platform.Mq.Enrollment.Outcome.{enroll_cases, revoke_cases}
use agent_comm_platform.Mq.Enrollment.Calls.{Call, enroll, revoke, call, run}

-- The URN is enrolled under this key.
pub record HasKey (urn key : Bytes) (rows : List ManagedRow) : Type 0 where
  pub row : ManagedRow
  pub found : select_row (is_enrolled urn) rows ≡ some row
  pub same_key : row.identity_pubkey ≡ key

upsert-HasKey :
    (urn key : Bytes) (row : ManagedRow) (rows : List ManagedRow)
    → HasKey urn key rows
    → HasKey urn key (upsert row rows)
unfolding upsert select_row
upsert-HasKey urn key row [] h = cc h.found
upsert-HasKey urn key row (r ∷ rows) h = elim (Bool-cases (is_enrolled row.urn r)) [
  | inl replaced ↦ elim (Bool-cases (is_enrolled urn r)) [
    | inl here ↦
        rw (replaced, upsert)
          (record {
            row = record row { identity_pubkey = r.identity_pubkey };
            found = ground (arith, eq_iff r.urn urn, eq_iff r.urn row.urn, eq_iff row.urn urn);
            same_key = ground (arith, h.found, h.same_key);
          })
    | inr later ↦
        rw (replaced, upsert)
          (record {
            row = h.row;
            found =
                ground (arith, h.found, eq_iff r.urn urn, eq_iff r.urn row.urn, eq_iff row.urn urn);
            same_key = h.same_key;
          })
  ]
  | inr kept ↦ elim (Bool-cases (is_enrolled urn r)) [
    | inl here ↦
        rw (kept, upsert)
          (record { row = r; found = ground arith; same_key = ground (arith, h.found, h.same_key) })
    | inr later ↦
        let below =
          upsert-HasKey urn key row rows
            (record { row = h.row; found = ground (arith, h.found); same_key = h.same_key }) in
        rw (kept, upsert)
          (record {
            row = below.row;
            found = ground (arith, below.found);
            same_key = below.same_key;
          })
  ]
]

update-HasKey :
    (urn key serial : Bytes) (rows : List ManagedRow)
    → HasKey urn key rows
    → HasKey urn key (update (has_serial_grant serial) (λ r. record r { revoked = true }) rows)
unfolding update select_row
update-HasKey urn key serial [] h = cc h.found
update-HasKey urn key serial (r ∷ rows) h = elim (Bool-cases (is_enrolled urn r)) [
  | inl here ↦ record {
    row = if has_serial_grant serial r then record r { revoked = true } else r;
    found = ground arith;
    same_key = ground (arith, h.found, h.same_key);
  }
  | inr later ↦
      let below =
        update-HasKey urn key serial rows
          (record { row = h.row; found = ground (arith, h.found); same_key = h.same_key }) in
      record { row = below.row; found = ground (arith, below.found); same_key = below.same_key }
]

module _ {Env : Type 0} {Policy : Type 0} (issuer : Issuer Policy) (authorize : Bytes → Bool)
    (urn key : Bytes) where
  call-HasKey :
      (c : Call Env Policy) (s : Store Env)
      → HasKey urn key s.db.managed
      → HasKey urn key (call issuer authorize c s).db.managed
  unfolding call
  call-HasKey (enroll w before policy certificate) s h =
      elim (enroll_cases issuer authorize w before policy certificate s) [
        | inl same ↦ rw same h
        | inr (cert, g, same) ↦ rw (same, g.result) (upsert-HasKey urn key _ s.db.managed h)
      ]
  call-HasKey (revoke w serial) s h = elim (revoke_cases w serial s) [
    | inl same ↦ rw same h
    | inr (same, r) ↦ rw (same, r.marked) (update-HasKey urn key serial s.db.managed h)
  ]

  -- Over any sequence of enrolments and revocations, with any failures of the database, an enrolled
  -- URN keeps its identity key.
  pub run-HasKey :
      (cs : List (Call Env Policy)) (s : Store Env)
      → HasKey urn key s.db.managed
      → HasKey urn key (run issuer authorize cs s).db.managed
  unfolding run
  run-HasKey [] s h = h
  run-HasKey (c ∷ cs) s h = run-HasKey cs (call issuer authorize c s) (call-HasKey c s h)
