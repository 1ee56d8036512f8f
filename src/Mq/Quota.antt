-- ===== src/Mq/Quota.antt =====
-- The bound on a mailbox: at no time are more than `maxPerURN` messages pending for one recipient.
use agent_comm_platform.Base.{ℕ, ◌≤◌, ◌≡◌, inl, inr, false, Bool-cases, [], ◌∷◌, ◌++◌, arith}
use agent_comm_platform.Base.Bytes.{Bytes, ◌==◌, eq→≡}
use agent_comm_platform.Base.Table.{count-append, count_mono}
use agent_comm_platform.Mq.Tables.{V1Row, V2Row, Db, pending, is_pending_v1, is_pending_v2}

-- From time `t` on, no mailbox exceeds `max`.
abbrev pub IsWithinQuota : ℕ → ℕ → Db → Type 0
IsWithinQuota t max db =
    (later : ℕ) (recipient : Bytes) → t ≤ later → pending later later recipient db ≤ max

-- What is pending later was pending before.
pub pending_mono :
    (a b later : ℕ) (recipient : Bytes) (db : Db)
    → a ≤ later
    → b ≤ later
    → pending later later recipient db ≤ pending a b recipient db
unfolding pending
pending_mono a b later recipient db la lb = omega (
  arith,
  count_mono (is_pending_v1 later recipient) (is_pending_v1 a recipient) db.messages
      (λ r h. ground arith),
  count_mono (is_pending_v2 later recipient) (is_pending_v2 b recipient) db.v2_messages
      (λ r h. ground arith),
)

-- A new v1 message counts for its own recipient only.
pub pending-insert_v1 :
    (a b : ℕ) (recipient : Bytes) (row : V1Row) (db : Db)
    → (row.recipient == recipient) ≡ false
    → pending a b recipient (record db { messages = db.messages ++ row ∷ [] })
      ≡ pending a b recipient db
unfolding pending
pending-insert_v1 a b recipient row db h =
    ground (arith, count-append (is_pending_v1 a recipient) db.messages row)

pub pending-insert_v2 :
    (a b : ℕ) (recipient : Bytes) (row : V2Row) (db : Db)
    → (row.recipient == recipient) ≡ false
    → pending a b recipient (record db { v2_messages = db.v2_messages ++ row ∷ [] })
      ≡ pending a b recipient db
unfolding pending
pending-insert_v2 a b recipient row db h =
    ground (arith, count-append (is_pending_v2 b recipient) db.v2_messages row)

-- A write that adds pending messages for one recipient at most, and was checked against the bound for
-- that recipient, keeps the bound for all.
pub IsWithinQuota-write :
    (t later a b max : ℕ) (recipient : Bytes) (old new : Db)
    → IsWithinQuota t max old
    → t ≤ later
    → a ≤ later
    → b ≤ later
    → pending a b recipient new ≤ max
    → ((other : Bytes)
        → (recipient == other) ≡ false
        → (u : ℕ) → pending u u other new ≡ pending u u other old)
    → IsWithinQuota later max new
IsWithinQuota-write t later a b max recipient old new within tl al bl checked same u other lu =
    elim (Bool-cases (recipient == other)) [
      | inl here ↦
          let e : recipient ≡ other = eq→≡ recipient other here in
          let checked' : pending a b other new ≤ max = rw e at checked in
          omega (arith, checked', pending_mono a b u other new (omega arith) (omega arith))
      | inr there ↦ rw (same other there u) (within u other (omega arith))
    ]
