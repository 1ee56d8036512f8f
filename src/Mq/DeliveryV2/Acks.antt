-- ===== src/Mq/DeliveryV2/Acks.antt =====
-- What an acknowledgement by `AckV2` changes.
use agent_comm_platform.Base.{
  ℕ, ◌+◌, ◌≤◌, ◌<◌, ◌≢◌, ◌≡◌, refl, ◌⊎◌, inl, inr, Bool, false, ◌&&◌, List, [], ◌∷◌, arith,
}
use agent_comm_platform.Base.Bytes.{Bytes, eq_iff, contains}
use agent_comm_platform.Base.Table.{
  select, count, update, count-update, count-update_zero, count_never, select-update,
}
use agent_comm_platform.Base.Action.{Result, ok, err, Result-cases}
use agent_comm_platform.Mq.Tables.{V2Row, Store, World, Error, unix}
use agent_comm_platform.Mq.DeliveryV2.{is_deliverable, is_acked, read, ack_v2}

module _ {Env : Type 0} (authorize : Bytes → Bool) (w : World) (recipient : Bytes)
    (ids : List Bytes) (s : Store Env) where
  abbrev pub acked : Result Error ℕ × Store Env
  acked = ack_v2 authorize w recipient ids s

  pub ack_err : (e : Error) → acked.0 ≡ err e → acked.1 ≡ s
  unfolding ack_v2
  ack_err e h = go ids h
    where
      go :
          (l : List Bytes)
          → (ack_v2 authorize w recipient l s).0 ≡ err e
          → (ack_v2 authorize w recipient l s).1 ≡ s
      go [] h = ground arith
      go (id ∷ l) h = ground arith

  -- The rows that are still to be delivered after the acknowledgement.
  abbrev left : ℕ → Bytes → Bytes → Store Env → ℕ
  left now urn hash t = count (is_deliverable now urn hash) t.db.v2_messages

  abbrev updated : Store Env
  updated = record s {
    db = record s.db {
      v2_messages = update (is_acked w recipient ids s.v2_policy_hash) (read w) s.db.v2_messages;
    };
  }

  -- An accepted acknowledgement is one UPDATE, and its result the number of rows.
  ack_ok :
      (n : ℕ)
      → acked.0 ≡ ok n
      → ((ids ≡ []) × (n ≡ 0) × (acked.1 ≡ s))
        ⊎ ((n ≡ count (is_acked w recipient ids s.v2_policy_hash) s.db.v2_messages)
            × (acked.1 ≡ updated))
  unfolding ack_v2
  ack_ok n h = go ids h
    where
      go :
          (l : List Bytes)
          → (ack_v2 authorize w recipient l s).0 ≡ ok n
          → ((l ≡ []) × (n ≡ 0) × ((ack_v2 authorize w recipient l s).1 ≡ s))
            ⊎ ((n ≡ count (is_acked w recipient l s.v2_policy_hash) s.db.v2_messages)
                × ((ack_v2 authorize w recipient l s).1 ≡ record s {
                  db = record s.db {
                    v2_messages =
                        update (is_acked w recipient l s.v2_policy_hash) (read w) s.db.v2_messages;
                  };
                }))
      go [] h = inl (refl, ground arith, ground arith)
      go (id ∷ l) h = inr (ground arith, ground arith)

  not_named : (id : Bytes) → ids ≡ [] → contains ids id ≡ false
  unfolding contains
  not_named id e = rw e

  -- The result of an accepted acknowledgement, at a time after the epoch, is the number of messages
  -- that it takes out of delivery, and right after the call the table holds no message that it
  -- names which would be delivered to the recipient under that policy, then or at any later time.
  pub ack_v2_ok :
      (n later : ℕ)
      → acked.0 ≡ ok n
      → 0 < unix (w.clock 1)
      → unix (w.clock 2) ≤ later
      → (left (unix (w.clock 2)) recipient s.v2_policy_hash acked.1 + n
          ≡ left (unix (w.clock 2)) recipient s.v2_policy_hash s)
        × (count
              (λ r. is_deliverable later recipient s.v2_policy_hash r && contains ids r.id)
              acked.1.db.v2_messages
            ≡ 0)
  ack_v2_ok n later h epoch le = elim (ack_ok n h) [
    | inl (none_named, zero, same) ↦ (
      rw (same, zero) (omega arith),
      rw same (count_never _ s.db.v2_messages (λ r. ground (arith, not_named r.id none_named))),
    )
    | inr (counted, same) ↦ (
      rw (same, counted)
          (count-update (is_deliverable (unix (w.clock 2)) recipient s.v2_policy_hash)
            (is_acked w recipient ids s.v2_policy_hash) (read w) s.db.v2_messages
            (λ r k. ground arith) (λ r. ground arith)),
      rw same (
          count-update_zero
            (λ (r : V2Row). is_deliverable later recipient s.v2_policy_hash r && contains ids r.id)
            (is_acked w recipient ids s.v2_policy_hash) (read w) s.db.v2_messages
            (λ r k. ground arith) (λ r. ground arith)),
    )
  ]

  -- An acknowledgement, accepted or not, changes nothing of what others are to receive.
  pub ack_v2_isolated :
      (now : ℕ) (other hash : Bytes)
      → other ≢ recipient
      → select (is_deliverable now other hash) acked.1.db.v2_messages
        ≡ select (is_deliverable now other hash) s.db.v2_messages
  ack_v2_isolated now other hash differs = elim (Result-cases acked.0) [
    | inl (e, h) ↦ rw (ack_err e h)
    | inr (n, h) ↦ elim (ack_ok n h) [
      | inl (none_named, zero, same) ↦ rw same
      | inr (counted, same) ↦ rw same (
          select-update (is_deliverable now other hash) (is_acked w recipient ids s.v2_policy_hash)
            (read w) s.db.v2_messages
            (λ r k. ground (arith, eq_iff r.recipient recipient, eq_iff r.recipient other))
            (λ r k. ground (arith, eq_iff r.recipient recipient, eq_iff r.recipient other)))
    ]
  ]
