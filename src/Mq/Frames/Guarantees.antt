-- ===== src/Mq/Frames/Guarantees.antt =====
-- What callers of `StoreV2Frame` may rely on.
use agent_comm_platform.Base.{
  ℕ, ◌≤◌, ◌≡◌, refl, subst, ◌⊎◌, inl, inr, Bool-cases, Option-cases, Bool, true, Option, some, List,
  [], ◌∷◌, ◌++◌, arith,
}
use agent_comm_platform.Base.Int.{ℤ}
use agent_comm_platform.Base.Bytes.{Bytes, ◌==◌, eq_iff, eq_refl}
use agent_comm_platform.Base.Table.{select_row, count, select_row-append, count-append, count_mono}
use agent_comm_platform.Base.Action.{Result, ok}
use agent_comm_platform.Mq.Tables.{FrameRow, Db, Store, World, Error, unix}
use agent_comm_platform.Mq.Frames.{
  Frame, FrameSdk, has_id_frame, is_pending_frame, max_pending_frames, verify, frame_row,
  store_parsed, store_v2_frame,
}
use agent_comm_platform.Mq.Frames.Outcome
use agent_comm_platform.Mq.Frames.Outcome.{tx, tx_err, tx_ok}

-- From time `t` on, no recipient has more than the bound of frames pending.
abbrev pub IsBounded : ℕ → Db → Type 0
IsBounded t db =
    (later : ℕ) (recipient : Bytes)
    → t ≤ later
    → count (is_pending_frame later recipient) db.frames ≤ max_pending_frames

inserted-IsBounded :
    (t later now : ℕ) (row : FrameRow) (db : Db)
    → IsBounded t db
    → t ≤ later
    → now ≤ later
    → count (is_pending_frame now row.recipient) (db.frames ++ row ∷ []) ≤ max_pending_frames
    → IsBounded later (record db { frames = db.frames ++ row ∷ [] })
inserted-IsBounded t later now row db within tl nl few u other lu =
    elim (Bool-cases (row.recipient == other)) [
      | inl same ↦
          let e : row.recipient ≡ other = (eq_iff row.recipient other).0 same in
          subst (λ v. count (is_pending_frame u v) (db.frames ++ row ∷ []) ≤ max_pending_frames) e
            (omega (
              arith,
              few,
              count_mono (is_pending_frame u row.recipient) (is_pending_frame now row.recipient)
                  (db.frames ++ row ∷ []) (λ r h. ground arith),
            ))
      | inr differs ↦
          ground (arith, within u other, count-append (is_pending_frame u other) db.frames row)
    ]

module _ {Policy : Type 0} (sdk : FrameSdk Policy) {Env : Type 0} (authorize : Bytes → Bool)
    (w : World) (before : Store Env) (sender recipient id frame : Bytes) (expiry : ℤ)
    (sender_pub : Bytes) (policy : Option Policy) (s : Store Env) where
  open sdk use {parse_frame, frame_hash, verify_frame, urn_matches_public_key, policy_hash}

  abbrev pub stored : Result Error Unit × Store Env
  stored =
      store_v2_frame sdk authorize w before sender recipient id frame expiry sender_pub policy s

  abbrev row : FrameRow
  row = frame_row sdk authorize w before sender recipient id frame expiry sender_pub

  -- A call is refused before its transaction, or it is its transaction, on a frame that was verified.
  record Verified : Type 0 where
    pinned : Policy
    parsed : Frame
    is_parsed : parse_frame frame ≡ some parsed
    from_sender : parsed.sender_urn ≡ sender
    to_recipient : parsed.recipient_urn ≡ recipient
    is_id : frame_hash parsed ≡ id
    owned : urn_matches_public_key sender sender_pub ≡ true
    verified : verify_frame parsed sender_pub ≡ true
    result : (tx w (policy_hash pinned) row s.db).0 ≡ ok tt
    written_db : stored.1.db ≡ (tx w (policy_hash pinned) row s.db).1

  module _ (p : Policy) (parsed : Frame) where
    abbrev call : Result Error Unit × Store Env
    call =
        store_parsed sdk authorize w before sender recipient id frame expiry sender_pub p parsed s

    parsed_cases : (call.1.db ≡ s.db) ⊎ (call.0 ≡ ok tt)
    unfolding store_parsed
    parsed_cases = elim (tx_err w (policy_hash p) row s.db) [
      | inl kept ↦ inl (ground arith)
      | inr done ↦ ground arith
    ]

    parsed_ok :
        call.0 ≡ ok tt
        → ((parsed.sender_urn ≡ sender)
            × (parsed.recipient_urn ≡ recipient)
            × (frame_hash parsed ≡ id))
          × ((urn_matches_public_key sender sender_pub ≡ true)
              × (verify_frame parsed sender_pub ≡ true))
          × ((tx w (policy_hash p) row s.db).0 ≡ ok tt)
          × (call.1.db ≡ (tx w (policy_hash p) row s.db).1)
    unfolding store_parsed verify
    parsed_ok h = (
      (
        ground (arith, eq_iff parsed.sender_urn sender),
        ground (arith, eq_iff parsed.recipient_urn recipient),
        ground (arith, eq_iff (frame_hash parsed) id),
      ),
      (ground arith, ground arith),
      ground arith,
      ground arith,
    )

  stored_ok : stored.0 ≡ ok tt → Verified
  unfolding store_v2_frame
  stored_ok h = elim (Option-cases (parse_frame frame)) [
    | inl unparsed ↦ ground arith
    | inr (parsed, e) ↦ elim (Option-cases policy) [
      | inl missing ↦ ground arith
      | inr (p, k) ↦
          let facts = parsed_ok p parsed (ground arith) in
          record {
            pinned = p;
            parsed = parsed;
            is_parsed = e;
            from_sender = facts.0.0;
            to_recipient = facts.0.1;
            is_id = facts.0.2;
            owned = facts.1.0;
            verified = facts.1.1;
            result = facts.2;
            written_db = ground arith;
          }
    ]
  ]

  stored_cases : (stored.1.db ≡ s.db) ⊎ (stored.0 ≡ ok tt)
  unfolding store_v2_frame
  stored_cases = elim (Option-cases (parse_frame frame)) [
    | inl unparsed ↦ inl (ground arith)
    | inr (parsed, e) ↦ elim (Option-cases policy) [
      | inl missing ↦ inl (ground arith)
      | inr (p, k) ↦ ground (arith, parsed_cases p parsed)
    ]
  ]

  later-IsBounded : (t later : ℕ) (db : Db) → t ≤ later → IsBounded t db → IsBounded later db
  later-IsBounded t later db le within u other lu = within u other (omega arith)

  -- If from time `t` on no recipient has more than 100 frames pending, then none has after the
  -- call, from any time on that is before neither `t` nor the reading of the check.
  pub store_frame-IsBounded :
      (t later : ℕ)
      → IsBounded t s.db
      → t ≤ later
      → unix (w.clock 5) ≤ later
      → IsBounded later stored.1.db
  store_frame-IsBounded t later within tl nl = elim stored_cases [
    | inl same ↦ rw same (later-IsBounded t later s.db tl within)
    | inr done ↦
        let v = stored_ok done in
        rw v.written_db (elim (tx_ok w (policy_hash v.pinned) row s.db v.result) [
          | Outcome.replayed old found er ef same ↦ rw same (later-IsBounded t later s.db tl within)
          | Outcome.fresh missing new few ↦
              rw new (inserted-IsBounded t later (unix (w.clock 5)) row s.db within tl nl few)
        ])
  ]

  -- A frame that a call accepts was parsed, names this sender and this recipient, has this ID as
  -- its hash and was verified with a key of the sender; after the call, the ID holds these very
  -- bytes for this recipient.
  pub store_frame_ok :
      stored.0 ≡ ok tt
      → ((parsed : Frame) × (parse_frame frame ≡ some parsed)
          × (parsed.sender_urn ≡ sender)
          × (parsed.recipient_urn ≡ recipient)
          × (frame_hash parsed ≡ id)
          × (urn_matches_public_key sender sender_pub ≡ true)
          × (verify_frame parsed sender_pub ≡ true))
        × ((held : FrameRow) × (select_row (has_id_frame id) stored.1.db.frames ≡ some held)
            × (held.recipient ≡ recipient)
            × (held.frame ≡ frame))
  store_frame_ok done =
      let v = stored_ok done in
      (
        (v.parsed, v.is_parsed, v.from_sender, v.to_recipient, v.is_id, v.owned, v.verified),
        rw v.written_db (elim (tx_ok w (policy_hash v.pinned) row s.db v.result) [
          | Outcome.replayed old found er ef same ↦ (old, rw same found, er, ef)
          | Outcome.fresh missing new few ↦ (
            row,
            rw new (select_row-append (has_id_frame id) s.db.frames row missing (eq_refl id)),
            refl,
            refl,
          )
        ]),
      )

  kept_append :
      (p : FrameRow → Bool) (rows : List FrameRow) (new old : FrameRow)
      → select_row p rows ≡ some old
      → select_row p (rows ++ new ∷ []) ≡ some old
  unfolding select_row
  kept_append p [] new old h = cc h
  kept_append p (r ∷ rows) new old h = ground (arith, kept_append p rows new old)

  -- A call never replaces or removes a frame that is on record, under its own or any other ID.
  pub store_frame_keeps :
      (other : Bytes) (old : FrameRow)
      → select_row (has_id_frame other) s.db.frames ≡ some old
      → select_row (has_id_frame other) stored.1.db.frames ≡ some old
  store_frame_keeps other old h = elim stored_cases [
    | inl same ↦ rw same h
    | inr done ↦
        let v = stored_ok done in
        rw v.written_db (elim (tx_ok w (policy_hash v.pinned) row s.db v.result) [
          | Outcome.replayed x found er ef same ↦ rw same h
          | Outcome.fresh missing new few ↦
              rw new (kept_append (has_id_frame other) s.db.frames row old h)
        ])
  ]
