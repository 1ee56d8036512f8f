-- ===== src/Mq/DeliveryV2/Batches.antt =====
-- What a batch of `RetrieveV2` holds.
use mathlib.Core.Bool.{false≢true}
use agent_comm_platform.Base.{
  ℕ, zero, suc, ◌+◌, ◌≤◌, ◌<◌, ◌≡◌, refl, ◌⊎◌, inl, inr, Bool, true, false, ◌&&◌, List, [], ◌∷◌,
  arith, map, length, take, length-take, length-append, All, ltb, Bool-cases, ◌++◌, drop, ap, sym,
  subst, ◌∙◌,
}
use agent_comm_platform.Base.Bytes.{Bytes, less, eq→≡, eq_iff, less_asym, less_chain}
use agent_comm_platform.Base.Table.{select, select-All, count}
use agent_comm_platform.Base.Sort.{sort, sort-All, count-sort, IsSorted, sort-IsSorted}
use agent_comm_platform.Base.Action.{ok}
use agent_comm_platform.Mq.Tables.{V2Row, Db, Store, World, unix, max_retrieve_bytes}
use agent_comm_platform.Mq.DeliveryV2.{
  is_deliverable, precedes, row_bytes, fill, batch, page_limit, V2Message, message_of,
  policy_lapsed, retrieve_v2,
}

precedes_asym : (a b : V2Row) → precedes a b ≡ true → precedes b a ≡ false
precedes_asym a b h = ground (arith, less_asym a.id b.id)

precedes_chain :
    (a b c : V2Row) → precedes a b ≡ false → precedes b c ≡ false → precedes a c ≡ false
precedes_chain a b c h k = ground (arith, less_chain a.id b.id c.id)

length-fill : (t : ℕ) (b : Bool) (rs : List V2Row) → length (fill t b rs) ≤ length rs
unfolding fill
length-fill t b [] = omega arith
length-fill t b (r ∷ rs) = ground (arith, length-fill (t + row_bytes r) true rs)

pub total_bytes : List V2Row → ℕ
total_bytes [] = 0
total_bytes (r ∷ rs) = row_bytes r + total_bytes rs

fill_bytes :
    (t : ℕ) (rs : List V2Row)
    → t ≤ max_retrieve_bytes
    → t + total_bytes (fill t true rs) ≤ max_retrieve_bytes
unfolding fill total_bytes
fill_bytes t [] h = omega arith
fill_bytes t (r ∷ rs) h = ground (arith, fill_bytes (t + row_bytes r) rs)

fill_oversized : (t : ℕ) (rs : List V2Row) → max_retrieve_bytes < t → fill t true rs ≡ []
unfolding fill
fill_oversized t [] h = refl
fill_oversized t (r ∷ rs) h = ground arith

-- Either the bytes fit the limit, or there is one message only.
fill_small :
    (rs : List V2Row)
    → (total_bytes (fill 0 false rs) ≤ max_retrieve_bytes) ⊎ (length (fill 0 false rs) ≡ 1)
unfolding fill total_bytes
fill_small [] = inl (omega arith)
fill_small (r ∷ rs) = elim (Bool-cases (ltb max_retrieve_bytes (row_bytes r))) [
  | inl large ↦ inr (ground (arith, fill_oversized (0 + row_bytes r) rs))
  | inr fits ↦ inl (ground (arith, fill_bytes (0 + row_bytes r) rs))
]

-- What is still to be delivered to the recipient under the policy.
abbrev pub IsDue : ℕ → Bytes → Bytes → V2Row → Type 0
IsDue now recipient hash r =
    (r.recipient ≡ recipient) × (r.policy_hash ≡ hash) × (r.read_at ≡ 0) × (now < r.expiry)

-- By the time of storing, and then by the ID.
abbrev pub IsOldestFirst : List V2Row → Type 0
IsOldestFirst [] = Unit {0}
IsOldestFirst (r ∷ rs) =
    All (λ y. (r.stored_at ≤ y.stored_at) × (r.stored_at ≡ y.stored_at → less y.id r.id ≡ false)) rs
    × IsOldestFirst rs

-- The next row is left out for the limit on messages, or for that on bytes.
abbrev pub IsFull : List V2Row → List V2Row → Type 0
IsFull rows [] = Unit {0}
IsFull rows (r ∷ rest) =
    (length rows ≡ page_limit)
    ⊎ (max_retrieve_bytes < total_bytes rows + row_bytes r) × (0 < length rows)

-- `rows` are the first of what the table has due, and `rest` are the others.
pub record IsBatch (now : ℕ) (recipient hash : Bytes) (table rows : List V2Row) : Type 0 where
  pub rest : List V2Row
  pub due : All (IsDue now recipient hash) (rows ++ rest)
  pub complete :
      (p : V2Row → Bool)
      → ((r : V2Row) → p r ≡ true → IsDue now recipient hash r)
      → count p (rows ++ rest) ≡ count p table
  pub ordered : IsOldestFirst (rows ++ rest)
  pub full : IsFull rows rest
  pub few : length rows ≤ page_limit
  pub small : (total_bytes rows ≤ max_retrieve_bytes) ⊎ (length rows ≡ 1)

-- Where the loop ends before the rows do.
abbrev Ends : ℕ → Bool → List V2Row → List V2Row → Type 0
Ends t b rows [] = Unit {0}
Ends t b rows (r ∷ rest) =
    (max_retrieve_bytes < t + total_bytes rows + row_bytes r) × ((b ≡ true) ⊎ (0 < length rows))

Ends-cons :
    (t : ℕ) (b : Bool) (r : V2Row) (rows rest : List V2Row)
    → Ends (t + row_bytes r) true rows rest
    → Ends t b (r ∷ rows) rest
unfolding total_bytes
Ends-cons t b r rows [] h = tt
Ends-cons t b r rows (x ∷ rest) h = (omega arith, inr (omega arith))

fill_split :
    (t : ℕ) (b : Bool) (rs : List V2Row)
    → (rest : List V2Row) × (fill t b rs ++ rest ≡ rs) × Ends t b (fill t b rs) rest
unfolding fill total_bytes
fill_split t b [] = ([], refl, tt)
fill_split t b (r ∷ rs) = elim (Bool-cases (ltb max_retrieve_bytes (t + row_bytes r) && b)) [
  | inl full ↦ (r ∷ rs, rw (full, fill), rw (full, fill) (ground arith, inl (ground arith)))
  | inr room ↦
      let below = fill_split (t + row_bytes r) true rs in
      (
        below.0,
        rw (room, fill) (ap (λ l. r ∷ l) below.1),
        rw (room, fill) (Ends-cons t b r (fill (t + row_bytes r) true rs) below.0 below.2),
      )
]

take-drop : (n : ℕ) (rs : List V2Row) → take n rs ++ drop n rs ≡ rs
take-drop zero rs = refl
take-drop (suc n) [] = refl
take-drop (suc n) (r ∷ rs) = ap (λ l. r ∷ l) (take-drop n rs)

append_append : (a b c : List V2Row) → a ++ (b ++ c) ≡ a ++ b ++ c
append_append [] b c = refl
append_append (x ∷ a) b c = ap (λ l. x ∷ l) (append_append a b c)

length-take-drop :
    (n : ℕ) (rs : List V2Row) (y : V2Row) (ys : List V2Row)
    → drop n rs ≡ y ∷ ys
    → length (take n rs) ≡ n
length-take-drop zero rs y ys h = refl
length-take-drop (suc n) [] y ys h = cc
length-take-drop (suc n) (r ∷ rs) y ys h = ap suc (length-take-drop n rs y ys h)

IsFull-append :
    (rows rest others : List V2Row)
    → Ends 0 false rows rest
    → (rest ≡ [] → (y : V2Row) (ys : List V2Row) → others ≡ y ∷ ys → length rows ≡ page_limit)
    → IsFull rows (rest ++ others)
IsFull-append rows [] [] h k = tt
IsFull-append rows [] (y ∷ ys) h k = inl (k refl y ys refl)
IsFull-append rows (r ∷ rest) others h k =
    inr
      (omega arith, elim h.1 [ inl never ↦ absurd (false≢true never) | inr some_rows ↦ some_rows ])

IsSorted-IsOldestFirst : (rs : List V2Row) → IsSorted precedes rs → IsOldestFirst rs
IsSorted-IsOldestFirst [] h = tt
IsSorted-IsOldestFirst (r ∷ rs) h = (in_order rs h.0, IsSorted-IsOldestFirst rs h.1)
  where
    in_order :
        (l : List V2Row)
        → All (λ y. precedes y r ≡ false) l
        → All
            (λ y.
              (r.stored_at ≤ y.stored_at) × (r.stored_at ≡ y.stored_at → less y.id r.id ≡ false))
            l
    in_order [] k = tt
    in_order (y ∷ l) k = ((ground (arith, k.0), λ e. ground (arith, k.0, e)), in_order l k.1)

count-select :
    (p q : V2Row → Bool) (rs : List V2Row)
    → ((r : V2Row) → p r ≡ true → q r ≡ true)
    → count p (select q rs) ≡ count p rs
unfolding count select
count-select p q [] k = refl
count-select p q (r ∷ rs) k = ground (arith, k r, count-select p q rs k)

module _ (now : ℕ) (recipient hash : Bytes) where
  IsDue-iff :
      (r : V2Row)
      → (is_deliverable now recipient hash r ≡ true → IsDue now recipient hash r)
        × (IsDue now recipient hash r → is_deliverable now recipient hash r ≡ true)
  IsDue-iff r = (
    λ h. (
      eq→≡ r.recipient recipient (ground arith),
      eq→≡ r.policy_hash hash (ground arith),
      ground arith,
      ground arith,
    ),
    λ d.
        ground (arith, d.0, d.1, d.2, d.3, eq_iff r.recipient recipient, eq_iff r.policy_hash hash),
  )

  IsDue-All :
      (rs : List V2Row)
      → All (λ r. is_deliverable now recipient hash r ≡ true) rs
      → All (IsDue now recipient hash) rs
  IsDue-All [] h = tt
  IsDue-All (r ∷ rs) h = ((IsDue-iff r).0 h.0, IsDue-All rs h.1)

module _ (now : ℕ) (recipient hash : Bytes) (db : Db) where
  abbrev candidates : List V2Row
  candidates = sort precedes (select (is_deliverable now recipient hash) db.v2_messages)

  batch-IsBatch : IsBatch now recipient hash db.v2_messages (batch now recipient hash db)
  unfolding batch
  batch-IsBatch =
      let front = take page_limit candidates in
      let split = fill_split 0 false front in
      let rows = fill 0 false front in
      let rest = split.0 ++ drop page_limit candidates in
      let all : rows ++ rest ≡ candidates =
        append_append rows split.0 (drop page_limit candidates)
        ∙ ap (λ l. l ++ drop page_limit candidates) split.1
        ∙ take-drop page_limit candidates in
      record {
        rest = rest;
        due = subst (All (IsDue now recipient hash)) (sym all) (
            IsDue-All now recipient hash candidates (
              sort-All precedes _ _
                (select-All (is_deliverable now recipient hash) db.v2_messages)));
        complete = λ p k.
            ap (count p) all
            ∙ count-sort precedes p (select (is_deliverable now recipient hash) db.v2_messages)
            ∙ count-select p (is_deliverable now recipient hash) db.v2_messages
                (λ r h. (IsDue-iff now recipient hash r).1 (k r h));
        ordered = subst IsOldestFirst (sym all) (
            IsSorted-IsOldestFirst candidates
              (sort-IsSorted precedes precedes_asym precedes_chain _));
        full = IsFull-append rows split.0 (drop page_limit candidates) split.2 (λ none_left y ys e.
            omega (
              arith,
              length-append rows split.0,
              ap length split.1,
              ap length none_left,
              length-take-drop page_limit candidates y ys e,
            ));
        few = omega (
          arith,
          length-fill 0 false (take page_limit candidates),
          length-take page_limit candidates,
        );
        small = fill_small (take page_limit candidates);
      }

-- A retrieval returns the first of the messages in the table that are for the recipient, under the
-- current policy, unread and not expired, oldest first: at most 500, at most 4 MiB unless it is a
-- single message, and all of them unless one of these limits stops it.
pub retrieve_v2_ok :
    {Env : Type 0} (authorize : Bytes → Bool) (w : World) (recipient : Bytes) (s : Store Env)
    (msgs : List V2Message)
    → retrieve_v2 authorize w recipient s ≡ ok msgs
    → (authorize recipient ≡ true)
      × (unix (w.clock 0) < s.v2_policy_expiry)
      × ((rows : List V2Row) × (msgs ≡ map message_of rows)
          × IsBatch (unix (w.clock 1)) recipient s.v2_policy_hash s.db.v2_messages rows)
unfolding retrieve_v2 policy_lapsed
retrieve_v2_ok authorize w recipient s msgs h = (
  ground arith,
  ground arith,
  (batch (unix (w.clock 1)) recipient s.v2_policy_hash s.db, ground arith, batch-IsBatch _ _ _ _),
)
