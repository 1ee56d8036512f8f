-- ===== src/Auth/Middleware.antt =====
-- `VerifySignatureMiddleware`. Ed25519 is Go's standard library; its test is a parameter.
use agent_comm_platform.Base.{ℕ, ◌*◌, ◌^◌, Bool, Option, none, some, length, ltb, if◌then◌else◌}
use agent_comm_platform.Base.Bytes.{Bytes, is_empty}
use agent_comm_platform.Auth.Header.{bearer, token_parts, key_of}

-- The status of a refusal, or the body that the next handler reads.
pub data Verdict : Type 0 where
  rejected : ℕ → Verdict
  forwarded : Bytes → Verdict

abbrev pub max_body : ℕ
max_body = 20 * 2 ^ 20

-- MaxBytesReader and ReadAll: `none` is a body that could not be read.
unfoldable pub read_all : Option Bytes → Option Bytes
read_all none = none
read_all (some body) = if ltb max_body (length body) then none else some body

module _ (verify : Bytes → Bytes → Bytes → Bool) where
  unfoldable pub checked : Bytes → Bytes → Option Bytes → Verdict
  checked sig key none = rejected 400
  checked sig key (some body) = if verify key body sig then forwarded body else rejected 401

  unfoldable pub with_keys : Option Bytes → Option Bytes → Option Bytes → Verdict
  unfolding checked read_all
  with_keys none key body = rejected 401
  with_keys (some sig) none body = rejected 401
  with_keys (some sig) (some key) body = checked sig key (read_all body)

  unfoldable pub with_parts : Option (Bytes × Bytes) → Option Bytes → Verdict
  unfolding with_keys
  with_parts none body = rejected 401
  with_parts (some (sig, key)) body = with_keys (key_of 64 sig) (key_of 32 key) body

  unfoldable pub with_token : Option Bytes → Option Bytes → Verdict
  unfolding with_parts
  with_token none body = rejected 401
  with_token (some token) body = with_parts (token_parts token) body

  unfoldable pub verify_signature_middleware : Bytes → Option Bytes → Verdict
  unfolding with_token
  verify_signature_middleware auth body =
      if is_empty auth then rejected 401 else with_token (bearer auth) body
