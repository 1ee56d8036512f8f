-- ===== src/Config/Files.antt =====
-- The file of the admin policies in the data directory, and its replacement by way of a temporary
-- file (saveAdminPolicies of internal/config/config.go). The directory is the same for all calls.
use agent_comm_platform.Base.{
  ℕ, ◌≡◌, refl, sym, ap, ◌∙◌, Bool, true, Bool-cases, Option, none, some, List, [], ◌∷◌, take,
  if◌then◌else◌, arith, ◌⊎◌, inl, inr,
}
use agent_comm_platform.Base.Bytes.{Bytes}
use agent_comm_platform.Base.Action.{ok, err, Action, ◌>>◌}
use agent_comm_platform.Config.Settings.{
  Step, Error, create, chmod, write, sync, close, rename, failed,
}

-- admin-policies.yaml, the temporary file of the call, and those that earlier calls have left.
pub record Disk : Type 0 where
  pub policies : Option Bytes
  pub temp : Option Bytes
  pub left_over : List Bytes

-- What fails: the read, the steps of a write, the removal of the temporary file; and the number of
-- bytes that a failing write leaves.
pub record Io : Type 0 where
  pub read_fault : Bool
  pub fault : Step → Bool
  pub remove_fault : Bool
  pub written : ℕ

unfoldable pub perform : Io → Step → Action Disk Error Unit
perform io step d = if io.fault step then (err (failed step), d) else (ok tt, d)

unfoldable pub write_temp : Io → Bytes → Action Disk Error Unit
write_temp io content d =
    if io.fault write
    then (err (failed write), record d { temp = some (take io.written content) })
    else (ok tt, record d { temp = some content })

unfoldable pub rename_temp : Io → Action Disk Error Unit
rename_temp io d =
    if io.fault rename
    then (err (failed rename), d)
    else (ok tt, record d { policies = d.temp; temp = none })

-- What follows the creation of the temporary file.
unfoldable pub fill_and_rename : Io → Bytes → Action Disk Error Unit
unfolding perform write_temp rename_temp
fill_and_rename io content =
    perform io chmod
    >> write_temp io content
    >> perform io sync
    >> perform io close
    >> rename_temp io

-- `defer os.Remove(tmp.Name())`: there is nothing to remove after the renaming, and an error is
-- ignored.
unfoldable pub remove_temp : Io → Option Bytes → Disk → Disk
remove_temp io none d = d
remove_temp io (some content) d =
    if io.remove_fault
    then record d { temp = none; left_over = content ∷ d.left_over }
    else record d { temp = none }

unfoldable pub replace_file : Io → Bytes → Action Disk Error Unit
unfolding fill_and_rename
replace_file io content d =
    if io.fault create
    then (err (failed create), d)
    else let r = fill_and_rename io content (record d { temp = some [] }) in
      (r.0, remove_temp io r.1.temp r.1)

-- Nothing has changed, but for a temporary file whose removal has failed.
abbrev pub IsLeft : Io → Disk → Disk → Type 0
IsLeft io d d' =
    (d' ≡ d)
    ⊎ (io.remove_fault ≡ true)
      × ((content : Bytes) × (d' ≡ record d { left_over = content ∷ d.left_over }))

disk_ext :
    (a b : Disk) → a.policies ≡ b.policies → a.temp ≡ b.temp → a.left_over ≡ b.left_over → a ≡ b
disk_ext a b h k l = λ i. record { policies = h i; temp = k i; left_over = l i }

module _ (io : Io) (content : Bytes) (d : Disk) where
  fill_err :
      (e : Error)
      → (fill_and_rename io content (record d { temp = some [] })).0 ≡ err e
      → ((fill_and_rename io content (record d { temp = some [] })).1.policies ≡ d.policies)
        × ((fill_and_rename io content (record d { temp = some [] })).1.left_over ≡ d.left_over)
  unfolding fill_and_rename perform write_temp rename_temp
  fill_err e h = (ground arith, ground arith)

  fill_ok :
      (fill_and_rename io content (record d { temp = some [] })).0 ≡ ok tt
      → (fill_and_rename io content (record d { temp = some [] })).1
        ≡ record { policies = some content; temp = none; left_over = d.left_over }
  unfolding fill_and_rename perform write_temp rename_temp
  fill_ok h = ground arith

  remove-IsLeft :
      (t : Option Bytes) (x : Disk)
      → d.temp ≡ none
      → x.temp ≡ t
      → x.policies ≡ d.policies
      → x.left_over ≡ d.left_over
      → IsLeft io d (remove_temp io t x)
  unfolding remove_temp
  remove-IsLeft none x e f g h = inl (disk_ext x d g (f ∙ sym e) h)
  remove-IsLeft (some c) x e f g h = elim (Bool-cases io.remove_fault) [
    | inl fails ↦
        rw (fails, remove_temp) (inr (refl, (c, disk_ext _ _ g (sym e) (ap (λ l. c ∷ l) h))))
    | inr works ↦ rw (works, remove_temp) (inl (disk_ext _ _ g (sym e) h))
  ]

  pub replace_file_err :
      (e : Error)
      → d.temp ≡ none
      → (replace_file io content d).0 ≡ err e
      → IsLeft io d (replace_file io content d).1
  unfolding replace_file
  replace_file_err e t h = elim (Bool-cases (io.fault create)) [
    | inl fails ↦ rw fails (inl refl)
    | inr works ↦
        let kept = fill_err e (rw works at h) in
        rw works (
          remove-IsLeft _ (fill_and_rename io content (record d { temp = some [] })).1 t refl kept.0
            kept.1)
  ]

  pub replace_file_ok :
      (replace_file io content d).0 ≡ ok tt
      → (replace_file io content d).1
        ≡ record { policies = some content; temp = none; left_over = d.left_over }
  unfolding replace_file remove_temp
  replace_file_ok h = elim (Bool-cases (io.fault create)) [
    | inl fails ↦ cc (rw fails at h)
    | inr works ↦ let filled = fill_ok (rw works at h) in rw (works, filled)
  ]
