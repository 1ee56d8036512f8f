-- ===== src/Mq/Enrollment/Revocation.antt =====
-- A revocation is final.
use agent_comm_platform.Base.{
  ℕ, ◌≡◌, ◌≢◌, ◌<◌, refl, inl, inr, Bool-cases, Bool, true, false, not, ◌&&◌, Option, some, List,
  [], ◌∷◌, ◌++◌, arith, eqb, if◌then◌else◌,
}
use agent_comm_platform.Base.Bytes.{Bytes, ◌==◌, eq_iff, eq_refl}
use agent_comm_platform.Base.Table.{select_row, count, update, count-append}
use agent_comm_platform.Base.Action.{ok}
use agent_comm_platform.Mq.Tables.{ManagedRow, RevocationRow, Db, Store, World, unix}
use agent_comm_platform.Mq.Managed.{is_granted, load_managed_grant, permits, is_managed_at_issuer}
use agent_comm_platform.Mq.Enrollment.{
  Certificate, Issuer, has_serial, has_serial_grant, upsert, grant_row, revoke_managed,
}
use agent_comm_platform.Mq.Enrollment.Calls.{Call, enroll, revoke, call, run}
use agent_comm_platform.Mq.Enrollment.Outcome.{
  enrolled, granted, Granted, revoked, Revoked, enroll_cases, revoke_cases, revoke_ok,
}

-- The serial is on the list of revocations, and no grant under it is in force.
abbrev is_live : Bytes → ManagedRow → Bool
is_live serial r = has_serial_grant serial r && not r.revoked

pub record IsRevoked (serial : Bytes) (db : Db) : Type 0 where
  pub listed : 0 < count (has_serial serial) db.revocations
  pub none_live : count (is_live serial) db.managed ≡ 0

upsert_live :
    (serial : Bytes) (row : ManagedRow) (rows : List ManagedRow)
    → has_serial_grant serial row ≡ false
    → count (is_live serial) rows ≡ 0
    → count (is_live serial) (upsert row rows) ≡ 0
unfolding upsert count
upsert_live serial row [] h k = ground arith
upsert_live serial row (r ∷ rows) h k = ground (arith, upsert_live serial row rows)

marked_live :
    (serial other : Bytes) (rows : List ManagedRow)
    → count (is_live serial) rows ≡ 0
    → count
        (is_live serial)
        (update (has_serial_grant other) (λ r. record r { revoked = true }) rows)
      ≡ 0
unfolding update count
marked_live serial other [] k = refl
marked_live serial other (r ∷ rows) k = ground (arith, marked_live serial other rows)

marked_self :
    (serial : Bytes) (rows : List ManagedRow)
    → count
        (is_live serial)
        (update (has_serial_grant serial) (λ r. record r { revoked = true }) rows)
      ≡ 0
unfolding update count
marked_self serial [] = refl
marked_self serial (r ∷ rows) = ground (arith, marked_self serial rows)

other_serial :
    (a b : Bytes) (rs : List RevocationRow)
    → 0 < count (has_serial a) rs
    → count (has_serial b) rs ≡ 0
    → (b == a) ≡ false
other_serial a b rs h k = elim (Bool-cases (b == a)) [
  | inl same ↦ let e : b ≡ a = (eq_iff b a).0 same in absurd (omega (arith, h, rw e at k))
  | inr other ↦ other
]

enroll-IsRevoked :
    (serial : Bytes) (w : World) (hash key : Bytes) (cert : Certificate) (certificate : Bytes)
    (db : Db)
    → IsRevoked serial db
    → Granted w hash key cert certificate db
    → IsRevoked serial (enrolled w hash key cert certificate db).1
unfolding grant_row
enroll-IsRevoked serial w hash key cert certificate db h g = rw g.result (record {
  listed = h.listed;
  none_live =
      upsert_live serial (granted w hash key cert certificate db) db.managed
        (other_serial serial cert.serial db.revocations h.listed g.free) h.none_live;
})

-- A further revocation leaves the list as long as it was, or longer.
still_listed :
    (serial other : Bytes) (row : RevocationRow) (rs : List RevocationRow)
    → 0 < count (has_serial serial) rs
    → 0
      < count
          (has_serial serial)
          (if eqb (count (has_serial other) rs) 0 then rs ++ row ∷ [] else rs)
still_listed serial other row rs h = ground (arith, count-append (has_serial serial) rs row)

now_listed :
    (row : RevocationRow) (rs : List RevocationRow)
    → 0
      < count
          (has_serial row.serial)
          (if eqb (count (has_serial row.serial) rs) 0 then rs ++ row ∷ [] else rs)
now_listed row rs = ground (arith, count-append (has_serial row.serial) rs row, eq_refl row.serial)

revoke-IsRevoked :
    (serial : Bytes) (w : World) (other : Bytes) (db : Db)
    → IsRevoked serial db
    → Revoked w other db
    → IsRevoked serial (revoked w other db).1
revoke-IsRevoked serial w other db h r = record {
  listed = rw r.listed (still_listed serial other _ db.revocations h.listed);
  none_live = rw r.marked (marked_live serial other db.managed h.none_live);
}

module _ {Env : Type 0} {Policy : Type 0} (issuer : Issuer Policy) (authorize : Bytes → Bool) where
  call-IsRevoked :
      (serial : Bytes) (c : Call Env Policy) (s : Store Env)
      → IsRevoked serial s.db
      → IsRevoked serial (call issuer authorize c s).db
  unfolding call
  call-IsRevoked serial (enroll w before policy certificate) s h =
      elim (enroll_cases issuer authorize w before policy certificate s) [
        | inl same ↦ rw same h
        | inr (cert, g, same) ↦ rw same (enroll-IsRevoked serial w _ _ cert certificate s.db h g)
      ]
  call-IsRevoked serial (revoke w other) s h = elim (revoke_cases w other s) [
    | inl same ↦ rw same h
    | inr (same, r) ↦ rw same (revoke-IsRevoked serial w other s.db h r)
  ]

  run-IsRevoked :
      (serial : Bytes) (cs : List (Call Env Policy)) (s : Store Env)
      → IsRevoked serial s.db
      → IsRevoked serial (run issuer authorize cs s).db
  unfolding run
  run-IsRevoked serial [] s h = h
  run-IsRevoked serial (c ∷ cs) s h =
      run-IsRevoked serial cs (call issuer authorize c s) (call-IsRevoked serial c s h)

revoke_first :
    {Env : Type 0} (w : World) (serial : Bytes) (s : Store Env)
    → (revoke_managed w serial s).0 ≡ ok tt
    → IsRevoked serial (revoke_managed w serial s).1.db
revoke_first w serial s h =
    let (same, r) = revoke_ok w serial s h in
    rw same (record {
      listed =
          rw r.listed (
            now_listed (record { serial = serial; revoked_at = unix (w.clock 0) })
              s.db.revocations);
      none_live = rw r.marked (marked_self serial s.db.managed);
    })

found_revoked :
    (serial : Bytes) (p : ManagedRow → Bool) (rows : List ManagedRow) (r : ManagedRow)
    → count (is_live serial) rows ≡ 0
    → select_row p rows ≡ some r
    → r.serial ≡ serial
    → r.revoked ≡ true
unfolding count select_row
found_revoked serial p [] r k found e = cc found
found_revoked serial p (x ∷ rows) r k found e = elim (Bool-cases (p x)) [
  | inl here ↦ let same : x ≡ r = ground arith in ground (arith, eq_iff x.serial serial)
  | inr later ↦ found_revoked serial p rows r (ground arith) (rw later at found) e
]

denied :
    (fault : Bool) (t t' : ℕ) (key urn : Bytes) (r : ManagedRow) (policy_expiry : ℕ)
    (pubkey : Option Bytes) (stored_at_ns : ℕ) (db : Db)
    → select_row (is_granted key urn) db.managed ≡ some r
    → r.revoked ≡ true
    → is_managed_at_issuer fault t t' key policy_expiry urn pubkey stored_at_ns db ≢ ok true
unfolding is_managed_at_issuer load_managed_grant permits
denied fault t t' key urn r policy_expiry pubkey stored_at_ns db found marked h = ground arith

module _ {Env : Type 0} {Policy : Type 0} (issuer : Issuer Policy) (authorize : Bytes → Bool) where
  -- After a successful revocation of a serial, whatever enrolments and revocations follow, with any
  -- failures of the database, no grant under that serial makes its URN managed, with any key, at
  -- any time and for a message of any age.
  pub revocation_is_final :
      (w : World) (serial : Bytes) (s : Store Env) (cs : List (Call Env Policy))
      → (revoke_managed w serial s).0 ≡ ok tt
      → (key urn : Bytes) (r : ManagedRow)
      → select_row
          (is_granted key urn)
          (run issuer authorize cs (revoke_managed w serial s).1).db.managed
        ≡ some r
      → r.serial ≡ serial
      → (fault : Bool) (t t' policy_expiry : ℕ) (pubkey : Option Bytes) (stored_at_ns : ℕ)
      → is_managed_at_issuer fault t t' key policy_expiry urn pubkey stored_at_ns
          (run issuer authorize cs (revoke_managed w serial s).1).db
        ≢ ok true
  revocation_is_final w serial s cs done key urn r found e fault t t' policy_expiry pubkey
        stored_at_ns =
      let after = (run issuer authorize cs (revoke_managed w serial s).1).db in
      let kept =
        run-IsRevoked issuer authorize serial cs (revoke_managed w serial s).1
          (revoke_first w serial s done) in
      let marked : r.revoked ≡ true =
        found_revoked serial (is_granted key urn) after.managed r kept.none_live found e in
      denied fault t t' key urn r policy_expiry pubkey stored_at_ns after found marked
