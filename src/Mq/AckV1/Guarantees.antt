-- ===== src/Mq/AckV1/Guarantees.antt =====
-- What an acknowledgement by `Ack` marks.
use agent_comm_platform.Base.{
  ℕ, ◌+◌, ◌≤◌, ◌<◌, ◌≡◌, ◌≢◌, refl, ap, ◌⊎◌, inl, inr, Bool-cases, Bool, true, false, List, [], ◌∷◌,
  length, arith, All, ltb, eqb,
}
use agent_comm_platform.Base.Bytes.{Bytes, eq_iff, contains}
use agent_comm_platform.Base.Table.{select, count, update, count-update, select-update}
use agent_comm_platform.Base.Action.{Result, ok, err}
use agent_comm_platform.Mq.Sdk.{Sdk}
use agent_comm_platform.Mq.Tables.{V1Row, Store, World, Error, is_pending_v1, unix}
use agent_comm_platform.Mq.AckV1.{
  AckIdentity, names, read, is_marked, mark, check_batches, mark_allowed, ack,
}
use agent_comm_platform.Mq.AckV1.Visible.{IsDeliverable}
use agent_comm_platform.Mq.AckV1.Batches.{batches_ok}

module _ {Env : Type 0} (sdk : Sdk Env) (authorize : Bytes → Bool) (w : World) (ws : ℕ → ℕ → World)
    (recipient : Bytes) (ids : List Bytes) (s : Store Env) where
  abbrev pub acked : Result Error ℕ × Store Env
  acked = ack sdk authorize w ws recipient ids s

  -- An acknowledgement leaves the store as it was, or marks the rows that pass some test.
  pub data Marked : Type 0 where
    kept : acked.1 ≡ s → ((n : ℕ) → acked.0 ≡ ok n → n ≡ 0) → Marked
    marked_named :
        s.v2_required ≡ false → acked ≡ mark w recipient (λ r. contains ids r.id) s → Marked
    marked_allowed :
        (allowed : List AckIdentity)
        → All (IsDeliverable sdk recipient ids s ws) allowed
        → acked ≡ mark w recipient (names allowed) s
        → Marked

  allowed_cases :
      (r : Result Error (List AckIdentity))
      → check_batches sdk recipient s (length ids) ws 0 ids ≡ r
      → acked ≡ mark_allowed sdk recipient s w r
      → Marked
  unfolding mark_allowed
  allowed_cases (err e) h k = kept (ap (λ x. x.1) k) (λ n o. cc (k, o))
  allowed_cases (ok []) h k = kept (ap (λ x. x.1) k) (λ n o. ground arith)
  allowed_cases (ok (a ∷ allowed)) h k =
      marked_allowed (a ∷ allowed)
        (batches_ok sdk recipient ids s ws (length ids) 0 ids (a ∷ allowed) (λ x m. m) h) k

  refused :
      (authorize recipient ≡ false) ⊎ ((length ids ≡ 0) ⊎ (1000 < length ids))
      → (acked.1 ≡ s) × ((n : ℕ) → acked.0 ≡ ok n → n ≡ 0)
  unfolding ack
  refused h = (ground arith, λ n o. ground arith)

  accepted :
      authorize recipient ≡ true
      → 0 < length ids
      → length ids ≤ 1000
      → s.v2_required ≡ true
      → acked ≡ mark_allowed sdk recipient s w (check_batches sdk recipient s (length ids) ws 0 ids)
  unfolding ack
  accepted h k l required = ground arith

  accepted_unrestricted :
      authorize recipient ≡ true
      → 0 < length ids
      → length ids ≤ 1000
      → s.v2_required ≡ false
      → acked ≡ mark w recipient (λ r. contains ids r.id) s
  unfolding ack
  accepted_unrestricted h k l free = ground arith

  pub ack_cases : Marked
  ack_cases = elim (Bool-cases (authorize recipient)) [
    | inr stranger ↦ kept (refused (inl stranger)).0 (refused (inl stranger)).1
    | inl owner ↦ elim (Bool-cases (eqb (length ids) 0)) [
      | inl nothing ↦ let facts = refused (inr (inl (ground arith))) in kept facts.0 facts.1
      | inr some_ids ↦ elim (Bool-cases (ltb 1000 (length ids))) [
        | inl many ↦ let facts = refused (inr (inr (ground arith))) in kept facts.0 facts.1
        | inr few ↦ elim (Bool-cases s.v2_required) [
          | inl required ↦
              allowed_cases _ refl (accepted owner (ground arith) (ground arith) required)
          | inr free ↦
              marked_named free (accepted_unrestricted owner (ground arith) (ground arith) free)
        ]
      ]
    ]
  ]

  -- Where the policy requires v2, a call of Ack that changes the store marks rows by a list of
  -- identities, ID and time of storing. Each is that of a message in the table which the caller
  -- named and which was pending for the recipient when its batch was read, and for which the table
  -- has a grant of the issuer in force that held at the time of storing and holds at the check: of
  -- the recipient, or of the sender of its envelope with that key.
  pub ack_visible :
      s.v2_required ≡ true
      → acked.1 ≢ s
      → (allowed : List AckIdentity) × All (IsDeliverable sdk recipient ids s ws) allowed
        × (acked.1.db.messages
            ≡ update (is_marked w recipient (names allowed)) (read w) s.db.messages)
  unfolding mark
  ack_visible required changed = elim ack_cases [
    | kept same none_marked ↦ absurd (changed same)
    | marked_named free same ↦ cc (required, free)
    | marked_allowed allowed deliverable same ↦ elim (Bool-cases (w.fault 0)) [
      | inl fails ↦ absurd (changed (rw same (ground arith)))
      | inr works ↦ (allowed, deliverable, rw same (ground arith))
    ]
  ]

  abbrev left : ℕ → Bytes → Store Env → ℕ
  left now urn t = count (is_pending_v1 now urn) t.db.messages

  mark_ok :
      (p : V1Row → Bool) (n : ℕ)
      → (mark w recipient p s).0 ≡ ok n
      → 0 < unix (w.clock 0)
      → left (unix (w.clock 1)) recipient (mark w recipient p s).1 + n
        ≡ left (unix (w.clock 1)) recipient s
  unfolding mark
  mark_ok p n h epoch = ground (
    arith,
    count-update (is_pending_v1 (unix (w.clock 1)) recipient) (is_marked w recipient p) (read w)
        s.db.messages (λ r k. ground arith) (λ r. ground arith),
  )

  mark_isolated :
      (p : V1Row → Bool) (now : ℕ) (other : Bytes)
      → other ≢ recipient
      → select (is_pending_v1 now other) (mark w recipient p s).1.db.messages
        ≡ select (is_pending_v1 now other) s.db.messages
  unfolding mark
  mark_isolated p now other differs = elim (Bool-cases (w.fault 0)) [
    | inl fails ↦ rw fails
    | inr works ↦ rw works (
        select-update (is_pending_v1 now other) (is_marked w recipient p) (read w) s.db.messages
          (λ r k. ground (arith, eq_iff r.recipient recipient, eq_iff r.recipient other))
          (λ r k. ground (arith, eq_iff r.recipient recipient, eq_iff r.recipient other)))
  ]

  -- The result of an accepted call of Ack, at a time after the epoch, is the number of messages
  -- that it takes out of the mailbox of the recipient, and it changes nothing of what others are to
  -- receive.
  pub ack_ok :
      (n : ℕ)
      → acked.0 ≡ ok n
      → 0 < unix (w.clock 0)
      → (left (unix (w.clock 1)) recipient acked.1 + n ≡ left (unix (w.clock 1)) recipient s)
        × ((now : ℕ) (other : Bytes)
            → other ≢ recipient
            → select (is_pending_v1 now other) acked.1.db.messages
              ≡ select (is_pending_v1 now other) s.db.messages)
  ack_ok n h epoch = elim ack_cases [
    | kept same none_marked ↦ (rw (same, none_marked n h) (omega arith), λ now other d. rw same)
    | marked_named free same ↦ (
      rw same (mark_ok _ n (rw same at h) epoch),
      λ now other d. rw same (mark_isolated _ now other d),
    )
    | marked_allowed allowed deliverable same ↦ (
      rw same (mark_ok _ n (rw same at h) epoch),
      λ now other d. rw same (mark_isolated _ now other d),
    )
  ]
