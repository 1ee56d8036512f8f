-- ===== src/Mq/Gateway/Guarantees.antt =====
-- What a receipt of the gateway tells: who sent the envelope, and that it is on record.
use agent_comm_platform.Base.{
  ◌≡◌, refl, sym, ap, subst, ◌∙◌, Bool, true, false, Option, none, some, arith, ◌⊎◌, inl, inr,
  Option-cases,
}
use agent_comm_platform.Base.Int.{ℤ, pos, negsuc}
use agent_comm_platform.Base.Bytes.{Bytes, eq_iff, eq→≡}
use agent_comm_platform.Base.Table.{select_row}
use agent_comm_platform.Base.Action.{Result, ok, err, and_then, and_then_ok, try_ok, ok_injective}
use agent_comm_platform.Mq.Tables.{
  V2Row, AdmissionRow, Db, Store, World, Error, unix, has_id_v2, has_id_admission,
}
use agent_comm_platform.Mq.StoreV2.{Delivery, Archive, store_v2, existing_v2_receipt, found, eqb_ℤ}
use agent_comm_platform.Mq.StoreV2.Transaction.{receipt_of_message, receipt_of_admission}
use agent_comm_platform.Mq.StoreV2.Guarantees.{IsReceipted, by_message, by_admission, store_v2_ok}
use agent_comm_platform.Mq.Gateway.{
  Header, GatewaySdk, V2Gateway, GatewayError, ensure, from_option, bad_signature, wrong_sender,
  wrong_header, is_owner, is_addressed, authenticate, prepare, delivery_of, open_envelope,
  check_current, inspect, sign_receipt, content_key, is_inspected, policy_lapsed, bad_envelope,
  no_receipt, answered, admit_new, admit_or_return, admit_authenticated, admit_v2,
}

eqb_ℤ→≡ : (i j : ℤ) → eqb_ℤ i j ≡ true → i ≡ j
unfolding eqb_ℤ
eqb_ℤ→≡ (pos m) (pos n) h = ap pos (ground arith)
eqb_ℤ→≡ (pos m) (negsuc n) h = ground arith
eqb_ℤ→≡ (negsuc m) (pos n) h = ground arith
eqb_ℤ→≡ (negsuc m) (negsuc n) h = ap negsuc (ground arith)

-- The receipt `r` is on record for this recipient, this ID and these bytes: with the message, or with
-- the hash of its admission.
abbrev pub OnRecord : (Bytes → Bytes) → Bytes → Bytes → Bytes → Bytes → Db → Type 0
OnRecord envelope_hash recipient id raw r db =
    ((row : V2Row) × (select_row (has_id_v2 id) db.v2_messages ≡ some row)
      × (row.recipient ≡ recipient)
      × (row.envelope ≡ raw)
      × (row.receipt ≡ r))
    ⊎ ((adm : AdmissionRow) × (select_row (has_id_admission id) db.admissions ≡ some adm)
        × (adm.recipient ≡ recipient)
        × (adm.envelope_hash ≡ envelope_hash raw)
        × (adm.receipt ≡ r))

found_ok : (x : Result Error Bytes) (r : Bytes) → found x ≡ ok (some r) → x ≡ ok r
unfolding found
found_ok (ok a) r h = cc
found_ok (err e) r h = cc

receipt_of_message_record :
    (recipient raw : Bytes) (old : V2Row) (r : Bytes)
    → receipt_of_message recipient raw old ≡ ok r
    → (old.recipient ≡ recipient) × (old.envelope ≡ raw) × (old.receipt ≡ r)
unfolding receipt_of_message
receipt_of_message_record recipient raw old r h =
    ground (arith, eq_iff old.recipient recipient, eq_iff old.envelope raw)

receipt_of_admission_record :
    (recipient hash : Bytes) (old : AdmissionRow) (r : Bytes)
    → receipt_of_admission recipient hash old ≡ ok r
    → (old.recipient ≡ recipient) × (old.envelope_hash ≡ hash) × (old.receipt ≡ r)
unfolding receipt_of_admission
receipt_of_admission_record recipient hash old r h =
    ground (arith, eq_iff old.recipient recipient, eq_iff old.envelope_hash hash)

existing_v2_receipt_ok :
    (envelope_hash : Bytes → Bytes) (w : World) (recipient id raw : Bytes) (db : Db) (r : Bytes)
    → existing_v2_receipt envelope_hash w recipient id raw db ≡ ok (some r)
    → OnRecord envelope_hash recipient id raw r db
unfolding existing_v2_receipt
existing_v2_receipt_ok envelope_hash w recipient id raw db r h =
    elim (Option-cases (select_row (has_id_v2 id) db.v2_messages)) [
      | inr (old, e) ↦
          let a =
            receipt_of_message_record recipient raw old r
              (found_ok (receipt_of_message recipient raw old) r (ground arith)) in
          inl (old, e, a.0, a.1, a.2)
      | inl none_v2 ↦ elim (Option-cases (select_row (has_id_admission id) db.admissions)) [
        | inr (old, e) ↦
            let a = receipt_of_admission_record recipient (envelope_hash raw) old r (
              found_ok (receipt_of_admission recipient (envelope_hash raw) old) r (ground arith)) in
            inr (old, e, a.0, a.1, a.2)
        | inl missing ↦ ground arith
      ]
    ]

ensured : (b : Bool) (e : GatewayError) → ensure b e ≡ ok tt → b ≡ true
ensured true e h = refl
ensured false e h = cc

module _ {Policy Envelope Env : Type 0} (sdk : GatewaySdk Policy Envelope) (w w_store : World)
    (before : Store Env) (g : V2Gateway Policy) (sender recipient raw : Bytes) where
  open sdk use {
    urn_matches_public_key, authorize_recipient, verify_envelope_signature, header, envelope_hash,
    content_type_agent_json,
  }

  -- What follows the signature.
  abbrev addressed : ℤ → Envelope → Result GatewayError Envelope
  addressed expiry env =
      and_then (ensure (is_owner sdk sender env) wrong_sender)
        (and_then (ensure (is_addressed sdk recipient expiry env) wrong_header) (ok env))

  signed :
      (o : Option Envelope) (env : Envelope) → from_option bad_signature o ≡ ok env → o ≡ some env
  unfolding from_option
  signed none env h = cc
  signed (some x) env h = ap some (ok_injective h)

  abbrev IsFrom : ℤ → Header → Type 0
  IsFrom expiry h =
      (urn_matches_public_key h.sender_urn sender ≡ true)
      × (authorize_recipient h.sender_urn ≡ true)
      × (h.recipient_urn ≡ recipient)
      × (h.expiry ≡ expiry)

  owner-IsFrom :
      (expiry : ℤ) (env : Envelope)
      → is_owner sdk sender env ≡ true
      → is_addressed sdk recipient expiry env ≡ true
      → IsFrom expiry (header env)
  unfolding is_owner is_addressed
  owner-IsFrom expiry env h k = (
    ground arith,
    ground arith,
    eq→≡ _ _ (ground arith),
    eqb_ℤ→≡ (header env).expiry expiry (ground arith),
  )

  authenticate_ok :
      (expiry : ℤ) (env : Envelope)
      → authenticate sdk sender recipient raw expiry ≡ ok env
      → (verify_envelope_signature sender raw ≡ some env)
        × (is_owner sdk sender env ≡ true)
        × (is_addressed sdk recipient expiry env ≡ true)
  unfolding authenticate from_option
  authenticate_ok expiry env h =
      let a = and_then_ok _ _ env h in
      let b =
        try_ok (from_option bad_signature (verify_envelope_signature sender raw)) (addressed expiry)
          env a.1 in
      let c = and_then_ok _ _ env b.2 in
      let d = and_then_ok _ _ env c.1 in
      let same = ok_injective d.1 in
      (
        signed _ _ b.1 ∙ ap some same,
        subst (λ x. is_owner sdk sender x ≡ true) same (ensured _ _ c.0),
        subst (λ x. is_addressed sdk recipient expiry x ≡ true) same (ensured _ _ d.0),
      )

  -- What the store guarantees of a receipt.
  on_record :
      (d : Delivery) (body : Option Archive) (s : Store Env) (to bytes id r : Bytes) (db : Db)
      → d.recipient ≡ to
      → d.envelope ≡ bytes
      → d.id ≡ id
      → IsReceipted content_type_agent_json envelope_hash w_store before d body s r db
      → OnRecord envelope_hash to id bytes r db
  on_record d body s to bytes id r db x y z (by_message row f a b c) =
      inl
        (row, subst (λ i. select_row (has_id_v2 i) db.v2_messages ≡ some row) z f, a ∙ x, b ∙ y, c)
  on_record d body s to bytes id r db x y z (by_admission adm f a b c) = inr (
    adm,
    subst (λ i. select_row (has_id_admission i) db.admissions ≡ some adm) z f,
    a ∙ x,
    b ∙ ap envelope_hash y,
    c,
  )

  -- What is handed to the store is for this recipient and these bytes.
  prepare_ok :
      (d : Delivery × Option Archive)
      → prepare sdk w g sender recipient raw ≡ ok d
      → (d.0.recipient ≡ recipient) × (d.0.envelope ≡ raw)
  unfolding prepare inspect sign_receipt delivery_of
  prepare_ok d h =
      let a = and_then_ok (ensure (check_current sdk (some g) (w.clock 0)) policy_lapsed) _ d h in
      let b =
        try_ok (from_option bad_envelope (sdk.verify_envelope g.policy sender raw (w.clock 1)))
          (inspect sdk w g recipient raw) d a.1 in
      let c =
        try_ok (open_envelope sdk g b.0) (sign_receipt sdk (unix (w.clock 2)) g recipient raw b.0) d
          b.2 in
      let made =
        sdk.make_receipt g.policy raw (content_key sdk c.0) g.receipt_private (unix (w.clock 2))
          (is_inspected sdk c.0) in
      let e =
        try_ok (from_option no_receipt made)
          (λ receipt. ok (delivery_of sdk g recipient raw b.0 c.0 receipt)) d c.2 in
      let same = ok_injective e.2 in
      (ap (λ x. x.0.recipient) (sym same), ap (λ x. x.0.envelope) (sym same))

  answered_ok :
      (d_id : Bytes) (x : Result Error Bytes × Store Env) (id r : Bytes)
      → (answered sdk d_id x).0 ≡ ok (id, r)
      → (d_id ≡ id) × (x.0 ≡ ok r) × ((answered sdk d_id x).1 ≡ x.1)
  unfolding answered
  answered_ok d_id (ok receipt, s) id r h = (cc h, cc h, refl)
  answered_ok d_id (err e, s) id r h = cc

  admit_new_ok :
      (prepared : Result GatewayError (Delivery × Option Archive)) (s : Store Env) (id r : Bytes)
      → prepare sdk w g sender recipient raw ≡ prepared
      → (admit_new sdk w w_store before prepared s).0 ≡ ok (id, r)
      → OnRecord envelope_hash recipient id raw r (admit_new sdk w w_store before prepared s).1.db
  unfolding admit_new
  admit_new_ok (err x) s id r e h = cc
  admit_new_ok (ok d) s id r e h =
      let whole = store_v2 content_type_agent_json envelope_hash w_store before d.0 d.1 s in
      let a = answered_ok d.0.id whole id r h in
      let b = prepare_ok d e in
      let receipted =
        store_v2_ok content_type_agent_json envelope_hash w_store before d.0 d.1 s r a.1 in
      subst (λ x. OnRecord envelope_hash recipient id raw r x.db) (sym a.2)
        (on_record d.0 d.1 s recipient raw id r whole.1.db b.0 b.1 a.0 receipted)

  admit_or_return_ok :
      (env : Envelope) (existing : Result Error (Option Bytes)) (s : Store Env) (id r : Bytes)
      → existing_v2_receipt envelope_hash w recipient (header env).message_id raw s.db ≡ existing
      → (admit_or_return sdk w w_store before g sender recipient raw env existing s).0 ≡ ok (id, r)
      → OnRecord envelope_hash recipient id raw r
          (admit_or_return sdk w w_store before g sender recipient raw env existing s).1.db
  unfolding admit_or_return
  admit_or_return_ok env (err e) s id r f h = cc
  admit_or_return_ok env (ok none) s id r f h =
      admit_new_ok (prepare sdk w g sender recipient raw) s id r refl h
  admit_or_return_ok env (ok (some receipt)) s id r f h =
      let same : (header env).message_id ≡ id = cc h in
      let same_receipt : receipt ≡ r = cc h in
      subst (λ i. OnRecord envelope_hash recipient i raw r s.db) same
        (existing_v2_receipt_ok envelope_hash w recipient (header env).message_id raw s.db r
          (f ∙ ap (λ x. ok (some x)) same_receipt))

  -- An envelope for which the gateway returns a receipt carries the signature of the sender, who
  -- owns the URN in its header, and names this recipient and this expiry; and after the call the
  -- receipt is on record for this recipient and these very bytes, with the message or with the hash
  -- of its admission.
  pub admit_v2_ok :
      (expiry : ℤ) (s : Store Env) (id r : Bytes)
      → (admit_v2 sdk w w_store before g sender recipient raw expiry s).0 ≡ ok (id, r)
      → ((env : Envelope) × (verify_envelope_signature sender raw ≡ some env)
          × IsFrom expiry (header env))
        × OnRecord envelope_hash recipient id raw r
            (admit_v2 sdk w w_store before g sender recipient raw expiry s).1.db
  unfolding admit_v2 admit_authenticated
  admit_v2_ok expiry s id r = by_cases (authenticate sdk sender recipient raw expiry) refl
    where
      by_cases :
          (a : Result GatewayError Envelope)
          → authenticate sdk sender recipient raw expiry ≡ a
          → (admit_authenticated sdk w w_store before g sender recipient raw a s).0 ≡ ok (id, r)
          → ((env : Envelope) × (verify_envelope_signature sender raw ≡ some env)
              × IsFrom expiry (header env))
            × OnRecord envelope_hash recipient id raw r
                (admit_authenticated sdk w w_store before g sender recipient raw a s).1.db
      by_cases (err e) f h = cc
      by_cases (ok env) f h =
          let authentic = authenticate_ok expiry env f in
          (
            (env, authentic.0, owner-IsFrom expiry env authentic.1 authentic.2),
            admit_or_return_ok env
                (existing_v2_receipt envelope_hash w recipient (header env).message_id raw s.db) s
                id r refl h,
          )
