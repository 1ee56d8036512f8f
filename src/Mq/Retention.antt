-- ===== src/Mq/Retention.antt =====
-- How long rows are kept: `cleanup`, `deleteExpiredCompliance`, `SetComplianceRetentionDays`,
-- `SetHistoryRetentionDays`, and the reads and removals of the archive and of mailboxes that the
-- administrator makes (internal/mq/store.go and compliance_store.go).
pub mod Archive
pub mod Mailboxes
use agent_comm_platform.Base.{
  ℕ, ◌+◌, ◌-◌, ◌*◌, ◌≡◌, Bool, true, false, not, ◌&&◌, ◌||◌, Option, none, some, List, [], ◌∷◌, map,
  length, take, drop, ltb, leb, eqb, if◌then◌else◌,
}
use agent_comm_platform.Base.Int.{ℤ, pos, negsuc, pos_part, neg_part, sub_ℕ, to_int32, leb_ℤ, ltb_ℤ}
use agent_comm_platform.Base.Bytes.{Bytes, ◌==◌, is_empty, less}
use agent_comm_platform.Base.Table.{select, select_row, count, delete}
use agent_comm_platform.Base.Sort.{sort}
use agent_comm_platform.Base.Action.{Result, ok, err, Action, transaction, settle}
use agent_comm_platform.Mq.Tables.{
  V1Row, V2Row, FrameRow, AdmissionRow, ComplianceMessage, Db, Store, World, Error, invalid_message,
  database, max_envelope_bytes, unix, query,
}

-- `now - days*24*3600`, as the signed number that it is.
unfoldable pub cutoff : ℕ → ℕ → ℤ
cutoff days now = sub_ℕ now (days * 24 * 3600)

-- stored_at<=?
abbrev pub is_out_of_retention : ℕ → ℕ → ComplianceMessage → Bool
is_out_of_retention days now m = leb_ℤ (pos m.stored_at) (cutoff days now)

unfoldable pub delete_expired_compliance : ℕ → ℕ → List ComplianceMessage → List ComplianceMessage
delete_expired_compliance days now ms =
    if eqb days 0 then [] else delete (is_out_of_retention days now) ms

-- Deletes by age in the history tables: read_at>0 AND read_at<=?
abbrev pub is_old_history : ℕ → ℕ → ℕ → Bool
is_old_history days now read_at = ltb 0 read_at && leb_ℤ (pos read_at) (cutoff days now)

-- A failing statement is passed over, and the others are made.
abbrev pub unless : {A : Type 0} → Bool → (A → A) → A → A
unless fault f a = if fault then a else f a

unfoldable pub drop_expired : World → ℕ → Db → Db
drop_expired w now db = record db {
  messages = unless (w.fault 0) (delete (λ r. ltb 0 r.expiry && leb r.expiry now)) db.messages;
  v2_messages = unless (w.fault 1) (delete (λ r. leb r.expiry now)) db.v2_messages;
  frames = unless (w.fault 2) (delete (λ r. leb r.expiry now)) db.frames;
  admissions = unless (w.fault 3) (delete (λ r. leb r.expiry now)) db.admissions;
}

-- `if days >= 0`
unfoldable pub drop_history : World → ℤ → ℕ → Db → Db
drop_history w (negsuc n) now db = db
drop_history w (pos days) now db = record db {
  messages = unless (w.fault 4) (delete (λ r. is_old_history days now r.read_at)) db.messages;
  v2_messages = unless (w.fault 5) (delete (λ r. is_old_history days now r.read_at)) db.v2_messages;
  frames = unless (w.fault 6) (delete (λ r. is_old_history days now r.read_at)) db.frames;
}

-- One turn of cleanupLoop at the time `now`; the errors that it joins are logged by the loop.
unfoldable pub cleanup : {Env : Type 0} → World → ℕ → Store Env → Store Env
cleanup w now s =
    let db = drop_history w s.history_retention_days now (drop_expired w now s.db) in
    record s {
      compliance_retention_initialized = true;
      db = record db {
        compliance =
            unless (w.fault 7) (delete_expired_compliance s.compliance_retention_days now)
              db.compliance;
      };
    }

unfoldable pub set_history_retention_days : {Env : Type 0} → ℤ → Store Env → Store Env
set_history_retention_days days s = record s { history_retention_days = to_int32 days }

-- `purgeDays`: a longer period does not revive what the shorter one has let go.
unfoldable pub purge_days : {Env : Type 0} → ℕ → Store Env → ℕ
purge_days days s =
    if s.compliance_retention_initialized && ltb s.compliance_retention_days days
    then s.compliance_retention_days
    else days

-- The transaction: begin, delete and commit may each fail.
unfoldable pub set_compliance_retention_days :
    {Env : Type 0} → World → ℤ → Action (Store Env) Error Unit
set_compliance_retention_days w days s =
    if ltb_ℤ days (pos 0) || ltb_ℤ (pos 36500) days
    then (err invalid_message, s)
    else if w.fault 0 || w.fault 1 || w.fault 2
    then (err database, s)
    else (
      ok tt,
      record s {
        db = record s.db {
          compliance =
              delete_expired_compliance (purge_days (pos_part days) s) (unix (w.clock 0))
                s.db.compliance;
        };
        compliance_retention_days = pos_part days;
        compliance_retention_initialized = true;
      },
    )

-- stored_at>? and the filters that are not empty.
unfoldable pub matches : ℕ → ℕ → Bytes → Bytes → ComplianceMessage → Bool
matches days now sender recipient m =
    ltb_ℤ (cutoff days now) (pos m.stored_at)
    && (is_empty sender || m.sender == sender)
    && (is_empty recipient || m.recipient == recipient)

-- ORDER BY stored_at DESC,id DESC
abbrev pub newer_first : ComplianceMessage → ComplianceMessage → Bool
newer_first a b = ltb b.stored_at a.stored_at || eqb a.stored_at b.stored_at && less b.id a.id

-- The rows of the archive that a list may show, in its order.
unfoldable pub visible : {Env : Type 0} → ℕ → Bytes → Bytes → Store Env → List ComplianceMessage
visible now sender recipient s =
    if eqb s.compliance_retention_days 0
    then []
    else sort newer_first
        (select (matches s.compliance_retention_days now sender recipient) s.db.compliance)

abbrev pub mark_initialized : {Env : Type 0} → Store Env → Store Env
mark_initialized s = record s { compliance_retention_initialized = true }

-- A list selects every column but the plaintext.
abbrev pub without_plaintext : ComplianceMessage → ComplianceMessage
without_plaintext m = record m { plaintext = [] }

-- `ListComplianceMessagesPage`: the page under LIMIT and OFFSET, and the total.
unfoldable pub list_compliance_messages_page :
    {Env : Type 0}
    → World
    → Bytes
    → Bytes
    → ℤ
    → ℤ
    → Action (Store Env) Error (List ComplianceMessage × ℕ)
list_compliance_messages_page w sender recipient limit offset s =
    if ltb_ℤ limit (pos 1) || ltb_ℤ (pos 200) limit || ltb_ℤ offset (pos 0)
    then (err invalid_message, s)
    else if eqb s.compliance_retention_days 0
    then (ok ([], 0), mark_initialized s)
    else if w.fault 0
    then (err database, mark_initialized s)
    else (
      ok (
        map without_plaintext (
            take (pos_part limit)
              (drop (pos_part offset) (visible (unix (w.clock 0)) sender recipient s))),
        count (matches s.compliance_retention_days (unix (w.clock 0)) sender recipient)
            s.db.compliance,
      ),
      mark_initialized s,
    )

-- A plaintext over the limit reads as NULL, which does not scan into a string.
scan_detail : Option ComplianceMessage → Result Error (Option ComplianceMessage)
scan_detail none = ok none
scan_detail (some m) =
    if leb (length m.plaintext) max_envelope_bytes then ok (some m) else err database

unfoldable pub get_compliance_message :
    {Env : Type 0} → World → Bytes → Action (Store Env) Error (Option ComplianceMessage)
unfolding scan_detail
get_compliance_message w id s =
    if eqb s.compliance_retention_days 0
    then (ok none, mark_initialized s)
    else if w.fault 0
    then (err database, mark_initialized s)
    else (
      scan_detail (
          select_row
            (λ m.
              m.id == id
              && ltb_ℤ (cutoff s.compliance_retention_days (unix (w.clock 0))) (pos m.stored_at))
            s.db.compliance),
      mark_initialized s,
    )
