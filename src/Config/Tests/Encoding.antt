-- ===== src/Config/Tests/Encoding.antt =====
-- A flat encoding of the overrides, in the place of YAML.
use agent_comm_platform.Base.{
  ℕ, zero, suc, sym, ap, ◌∙◌, ◌≡◌, refl, Bool, true, false, Option, none, some, [], ◌∷◌,
  if◌then◌else◌,
}
use agent_comm_platform.Base.Int.{ℤ, pos, negsuc}
use agent_comm_platform.Base.Bytes.{Bytes, ascii, ◌==◌}
use agent_comm_platform.Base.Action.{Result, ok, err}
use agent_comm_platform.Config.Settings.{Scalar, Error}
use agent_comm_platform.Config.Overrides.{Overrides, Env}
use agent_comm_platform.Config.Writes.{int_node, RoundTrips}

abbrev bool_code : Option Bool → ℕ
bool_code none = 0
bool_code (some true) = 1
bool_code (some false) = 2

abbrev code_bool : ℕ → Option Bool
code_bool zero = none
code_bool (suc zero) = some true
code_bool (suc (suc n)) = some false

abbrev sign : Option ℤ → ℕ
sign none = 0
sign (some (pos n)) = 1
sign (some (negsuc n)) = 2

abbrev size : Option ℤ → ℕ
size none = 0
size (some (pos n)) = n
size (some (negsuc n)) = n

abbrev code_int : ℕ → ℕ → Option ℤ
code_int zero n = none
code_int (suc zero) n = some (pos n)
code_int (suc (suc s)) n = some (negsuc n)

abbrev text_code : Option Bytes → Bytes
text_code none = []
text_code (some t) = 1 ∷ t

abbrev code_text : Bytes → Option Bytes
code_text [] = none
code_text (x ∷ t) = some t

code_bool-bool_code : (o : Option Bool) → code_bool (bool_code o) ≡ o
code_bool-bool_code none = refl
code_bool-bool_code (some true) = refl
code_bool-bool_code (some false) = refl

code_int-sign : (o : Option ℤ) → code_int (sign o) (size o) ≡ o
code_int-sign none = refl
code_int-sign (some (pos n)) = refl
code_int-sign (some (negsuc n)) = refl

code_text-text_code : (o : Option Bytes) → code_text (text_code o) ≡ o
code_text-text_code none = refl
code_text-text_code (some t) = refl

abbrev pub flat : Overrides → Bytes
flat o =
    bool_code o.store_user_data
    ∷ bool_code o.forward_to_storage_platforms
    ∷ sign o.history_retention_days
    ∷ size o.history_retention_days
    ∷ sign o.compliance_retention_days
    ∷ size o.compliance_retention_days
    ∷ (if o.registry_reset_pending then 1 else 0)
    ∷ sign o.registry_ttl_hours
    ∷ size o.registry_ttl_hours
    ∷ sign o.mq_default_ttl_days
    ∷ size o.mq_default_ttl_days
    ∷ sign o.mq_max_msgs_per_urn
    ∷ size o.mq_max_msgs_per_urn
    ∷ bool_code o.relay_enabled
    ∷ sign o.relay_max_reservations
    ∷ size o.relay_max_reservations
    ∷ text_code o.relay_max_circuit_duration

abbrev marker : ℕ → Bool
marker zero = false
marker (suc n) = true

abbrev follow_days : Result Error ℤ → Option (Option ℤ)
follow_days (ok v) = some (some v)
follow_days (err e) = none

abbrev called : (Scalar → Result Error ℤ) → Option ℤ → Option (Option ℤ)
called callback none = some none
called callback (some days) = follow_days (callback (int_node days))

called_lem :
    (callback : Scalar → Result Error ℤ) (o : Option ℤ) (days : ℤ)
    → o ≡ some days
    → callback (int_node days) ≡ ok days
    → called callback (code_int (sign o) (size o)) ≡ some o
called_lem callback o days h k =
    ap (called callback) (code_int-sign o ∙ h) ∙ ap follow_days k ∙ ap some (sym h)

-- The overrides that the numbers of all other fields stand for.
abbrev unflat_with : Bytes → Option ℤ → Option Overrides
unflat_with (a ∷ b ∷ c ∷ c' ∷ d ∷ d' ∷ e ∷ f ∷ f' ∷ g ∷ g' ∷ h ∷ h' ∷ i ∷ j ∷ j' ∷ t) days =
    some record {
      store_user_data = code_bool a;
      forward_to_storage_platforms = code_bool b;
      history_retention_days = code_int c c';
      compliance_retention_days = days;
      registry_reset_pending = marker e;
      registry_ttl_hours = code_int f f';
      mq_default_ttl_days = code_int g g';
      mq_max_msgs_per_urn = code_int h h';
      relay_enabled = code_bool i;
      relay_max_reservations = code_int j j';
      relay_max_circuit_duration = code_text t;
    }
unflat_with _ days = none

abbrev days_of : Bytes → Option ℤ
days_of (a ∷ b ∷ c ∷ c' ∷ d ∷ d' ∷ rest) = code_int d d'
days_of _ = none

abbrev follow : Bytes → Option (Option ℤ) → Option Overrides
follow content none = none
follow content (some days) = unflat_with content days

abbrev unflat : (Scalar → Result Error ℤ) → Bytes → Option Overrides
unflat callback content = follow content (called callback (days_of content))

-- Durations of whole minutes, such as "2m".
abbrev pub env : Env
env = record {
  marshal_overrides = flat;
  decode_overrides = unflat;
  parse_duration = λ t. if t == ascii "2m" then some (pos 120000000000) else none;
}

marker_lem : (b : Bool) → marker (if b then 1 else 0) ≡ b
marker_lem true = refl
marker_lem false = refl

pub env-RoundTrips : RoundTrips env
env-RoundTrips callback o days h k =
    ap (follow (flat o)) (called_lem callback o.compliance_retention_days days h k)
    ∙ rw (
      code_bool-bool_code o.store_user_data,
      code_bool-bool_code o.forward_to_storage_platforms,
      code_int-sign o.history_retention_days,
      marker_lem o.registry_reset_pending,
      code_int-sign o.registry_ttl_hours,
      code_int-sign o.mq_default_ttl_days,
      code_int-sign o.mq_max_msgs_per_urn,
      code_bool-bool_code o.relay_enabled,
      code_int-sign o.relay_max_reservations,
      code_text-text_code o.relay_max_circuit_duration,
    )
