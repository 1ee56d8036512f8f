-- ===== src/Mq/AckV1/Batches.antt =====
-- What the batches of `Ack` let through.
use agent_comm_platform.Base.{
  ◌⊎◌, ◌||◌, ◌<◌, ltb, eqb, ℕ, zero, suc, ◌≤◌, ◌≡◌, refl, ap, subst, inl, inr, Bool-cases, Bool,
  true, false, Option, none, some, List, [], ◌∷◌, ◌++◌, take, drop, length, arith, All, All-append,
}
use agent_comm_platform.Base.Bytes.{Bytes, eq→≡, contains}
use agent_comm_platform.Base.Table.{IsIn, select, select-IsIn, select-All}
use agent_comm_platform.Base.Action.{Result, ok, err}
use agent_comm_platform.Mq.Sdk.{Sdk}
use agent_comm_platform.Mq.Tables.{V1Row, Store, World, Error, is_pending_v1, unix}
use agent_comm_platform.Mq.AckV1.{
  AckIdentity, is_asked, is_visible, with_row, check_row, check_rows, joined, check_batch,
  check_batches,
}
use agent_comm_platform.Mq.AckV1.Visible.{IsDeliverable, is_visible_ok}

current_of :
    (now expiry : ℕ) → (eqb expiry 0 || ltb now expiry) ≡ true → (expiry ≡ 0) ⊎ (now < expiry)
current_of now expiry h = elim (Bool-cases (eqb expiry 0)) [
  | inl never ↦ inl (ground arith)
  | inr some_time ↦ inr (ground arith)
]

contains-take :
    (n : ℕ) (ids : List Bytes) (x : Bytes) → contains (take n ids) x ≡ true → contains ids x ≡ true
unfolding contains
contains-take zero ids x h = cc
contains-take (suc n) [] x h = h
contains-take (suc n) (id ∷ ids) x h = ground (arith, contains-take n ids x)

contains-drop :
    (n : ℕ) (ids : List Bytes) (x : Bytes) → contains (drop n ids) x ≡ true → contains ids x ≡ true
unfolding contains
contains-drop zero ids x h = h
contains-drop (suc n) [] x h = h
contains-drop (suc n) (id ∷ ids) x h = ground (arith, contains-drop n ids x h)

module _ {Env : Type 0} (sdk : Sdk Env) (recipient : Bytes) (asked : List Bytes) (s : Store Env)
    (ws : ℕ → ℕ → World) where
  abbrev Deliverable : AckIdentity → Type 0
  Deliverable = IsDeliverable sdk recipient asked s ws

  -- What the query of a batch selects.
  abbrev IsSelected : ℕ → V1Row → Type 0
  IsSelected b r =
      IsIn s.db.messages r
      × (is_pending_v1 (unix ((ws b 0).clock 0)) recipient r ≡ true)
      × (contains asked r.id ≡ true)

  with_row_ok :
      (b i : ℕ) (r : V1Row) (env : Env) (v : Result Error Bool)
      (more : Result Error (List AckIdentity)) (l : List AckIdentity)
      → sdk.unmarshal r.payload ≡ some env
      → IsSelected b r
      → is_visible sdk recipient s (ws b i) env r.stored_at_ns ≡ v
      → ((rest : List AckIdentity) → more ≡ ok rest → All Deliverable rest)
      → with_row sdk recipient s r v more ≡ ok l
      → All Deliverable l
  unfolding with_row
  with_row_ok b i r env (err e) more l parsed selected seen below h = cc h
  with_row_ok b i r env (ok v) (err e) l parsed selected seen below h = cc h
  with_row_ok b i r env (ok false) (ok rest) l parsed selected seen below h =
      let same : rest ≡ l = ground arith in subst (All Deliverable) same (below rest refl)
  with_row_ok b i r env (ok true) (ok rest) l parsed selected seen below h =
      let same : (r.id, r.stored_at_ns) ∷ rest ≡ l = ground arith in
      let pending = selected.1 in
      subst (All Deliverable) same (
        record {
          row = r;
          env = env;
          batch = b;
          turn = i;
          same = refl;
          on_record = selected.0;
          named = selected.2;
          addressed = eq→≡ r.recipient recipient (ground arith);
          unread = ground arith;
          current = current_of (unix ((ws b 0).clock 0)) r.expiry (ground arith);
          parsed = parsed;
          managed = is_visible_ok sdk recipient asked s ws (ws b i) env r.stored_at_ns seen;
        },
        below rest refl,
      )

  row_ok :
      (b i : ℕ) (r : V1Row) (o : Option Env) (more : Result Error (List AckIdentity))
      (l : List AckIdentity)
      → sdk.unmarshal r.payload ≡ o
      → IsSelected b r
      → ((rest : List AckIdentity) → more ≡ ok rest → All Deliverable rest)
      → check_row sdk recipient s (ws b i) r o more ≡ ok l
      → All Deliverable l
  unfolding check_row
  row_ok b i r none more l parsed selected below h = below l h
  row_ok b i r (some env) more l parsed selected below h =
      with_row_ok b i r env (is_visible sdk recipient s (ws b i) env r.stored_at_ns) more l parsed
        selected refl below h

  rows_ok :
      (b i : ℕ) (rows : List V1Row) (l : List AckIdentity)
      → All (IsSelected b) rows
      → check_rows sdk recipient s (ws b) i rows ≡ ok l
      → All Deliverable l
  unfolding check_rows
  rows_ok b i [] l selected h = let same : [] ≡ l = ground arith in subst (All Deliverable) same tt
  rows_ok b i (r ∷ rows) l selected h =
      row_ok b i r (sdk.unmarshal r.payload) (check_rows sdk recipient s (ws b) (suc i) rows) l refl
        selected.0 (λ rest k. rows_ok b (suc i) rows rest selected.1 k) h

  joined_ok :
      (a b : Result Error (List AckIdentity)) (l : List AckIdentity)
      → ((x : List AckIdentity) → a ≡ ok x → All Deliverable x)
      → ((x : List AckIdentity) → b ≡ ok x → All Deliverable x)
      → joined sdk recipient s a b ≡ ok l
      → All Deliverable l
  unfolding joined
  joined_ok (err e) b l f g h = cc h
  joined_ok (ok x) (err e) l f g h = cc h
  joined_ok (ok x) (ok y) l f g h =
      let same : x ++ y ≡ l = ground arith in
      subst (All Deliverable) same (All-append Deliverable x y (f x refl) (g y refl))

  IsSelected-All :
      (b : ℕ) (batch : List Bytes) (rows : List V1Row)
      → ((x : Bytes) → contains batch x ≡ true → contains asked x ≡ true)
      → All (IsIn s.db.messages) rows
      → All (λ r. is_asked sdk recipient s (ws b 0) batch r ≡ true) rows
      → All (IsSelected b) rows
  IsSelected-All b batch [] sub h k = tt
  IsSelected-All b batch (r ∷ rows) sub h k = (
    (h.0, ground (arith, k.0), sub r.id (ground (arith, k.0))),
    IsSelected-All b batch rows sub h.1 k.1,
  )

  batch_ok :
      (b : ℕ) (batch : List Bytes) (l : List AckIdentity)
      → ((x : Bytes) → contains batch x ≡ true → contains asked x ≡ true)
      → check_batch sdk recipient s (ws b) batch ≡ ok l
      → All Deliverable l
  unfolding check_batch
  batch_ok b batch l sub h = elim (Bool-cases ((ws b 0).fault 0)) [
    | inl fails ↦ cc (rw fails at h)
    | inr works ↦
        let asks = is_asked sdk recipient s (ws b 0) batch in
        rows_ok b 1 (select asks s.db.messages) l
          (IsSelected-All b batch (select asks s.db.messages) sub (select-IsIn asks s.db.messages)
            (select-All asks s.db.messages))
          (rw works at h)
  ]

  pub batches_ok :
      (fuel b : ℕ) (ids : List Bytes) (l : List AckIdentity)
      → ((x : Bytes) → contains ids x ≡ true → contains asked x ≡ true)
      → check_batches sdk recipient s fuel ws b ids ≡ ok l
      → All Deliverable l
  unfolding check_batches
  batches_ok zero b ids l sub h =
      let same : [] ≡ l = ground arith in subst (All Deliverable) same tt
  batches_ok (suc fuel) b [] l sub h =
      let same : [] ≡ l = ground arith in subst (All Deliverable) same tt
  batches_ok (suc fuel) b (id ∷ ids) l sub h =
      joined_ok (check_batch sdk recipient s (ws b) (take 16 (id ∷ ids)))
        (check_batches sdk recipient s fuel ws (suc b) (drop 16 (id ∷ ids))) l
        (λ x k.
          batch_ok b (take 16 (id ∷ ids)) x (λ y m. sub y (contains-take 16 (id ∷ ids) y m)) k)
        (λ x k.
          batches_ok fuel (suc b) (drop 16 (id ∷ ids)) x
            (λ y m. sub y (contains-drop 16 (id ∷ ids) y m)) k)
        h

length-drop : {A : Type 0} (n : ℕ) (xs : List A) → length (drop n xs) ≤ length xs
length-drop zero xs = omega arith
length-drop (suc n) [] = omega arith
length-drop (suc n) (x ∷ xs) = omega (arith, length-drop n xs)

-- The number of IDs is enough fuel: more of it changes nothing.
pub check_batches_fuel :
    {Env : Type 0} (sdk : Sdk Env) (recipient : Bytes) (s : Store Env) (fuel : ℕ)
    (ws : ℕ → ℕ → World) (b : ℕ) (ids : List Bytes)
    → length ids ≤ fuel
    → check_batches sdk recipient s (suc fuel) ws b ids
      ≡ check_batches sdk recipient s fuel ws b ids
unfolding check_batches
check_batches_fuel sdk recipient s zero ws b [] h = refl
check_batches_fuel sdk recipient s zero ws b (id ∷ ids) h = absurd (omega arith)
check_batches_fuel sdk recipient s (suc fuel) ws b [] h = refl
check_batches_fuel sdk recipient s (suc fuel) ws b (id ∷ ids) h =
    ap (joined sdk recipient s (check_batch sdk recipient s (ws b) (take 16 (id ∷ ids)))) (
      check_batches_fuel sdk recipient s fuel ws (suc b) (drop 16 (id ∷ ids))
        (omega (arith, length-drop 15 ids)))
