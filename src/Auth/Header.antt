-- ===== src/Auth/Header.antt =====
-- Reading the header: the same steps stand in `VerifySignatureMiddleware` and in
-- `ExtractPubkeyFromAuth`.
use agent_comm_platform.Base.{ℕ, Option, none, some, List, [], ◌∷◌, length, eqb, if◌then◌else◌}
use agent_comm_platform.Base.Bytes.{Bytes, is_empty}
use agent_comm_platform.Base.Hex.{decode_hex}
use agent_comm_platform.Base.Text.{split}
use agent_comm_platform.Base.Action.{Result, ok, err}

pub data Error : Type 0 where
  empty_header invalid_format invalid_pubkey : Error

-- The token by the parts of the header: one part is the token itself, of two it is the second.
unfoldable pub token_of : Bytes → List Bytes → Option Bytes
token_of auth (a ∷ b ∷ []) = some b
token_of auth (a ∷ b ∷ c ∷ rest) = none
token_of auth _ = some auth

unfoldable pub bearer : Bytes → Option Bytes
unfolding token_of
bearer auth = token_of auth (split b' ' auth)

-- `len(tokenParts) == 2`
unfoldable pub pair_of : List Bytes → Option (Bytes × Bytes)
pair_of (a ∷ b ∷ []) = some (a, b)
pair_of _ = none

-- Signature and key, at a colon, or else at a dot, or else at a space.
unfoldable pub token_parts : Bytes → Option (Bytes × Bytes)
unfolding pair_of
token_parts token = elim (pair_of (split b':' token)) [
  | some p ↦ some p
  | none ↦ elim (pair_of (split b'.' token)) [ some p ↦ some p | none ↦ pair_of (split b' ' token) ]
]

-- `err != nil || len(b) != n`
unfoldable pub sized : ℕ → Option Bytes → Option Bytes
sized n none = none
sized n (some b) = if eqb (length b) n then some b else none

unfoldable pub key_of : ℕ → Bytes → Option Bytes
unfolding sized
key_of n text = sized n (decode_hex text)

unfoldable pub pubkey_of : Option Bytes → Result Error Bytes
pubkey_of none = err invalid_pubkey
pubkey_of (some k) = ok k

unfoldable pub parts_pubkey : Option (Bytes × Bytes) → Result Error Bytes
unfolding pubkey_of
parts_pubkey none = err invalid_format
parts_pubkey (some (sig, key)) = pubkey_of (key_of 32 key)

unfoldable pub token_pubkey : Option Bytes → Result Error Bytes
unfolding parts_pubkey
token_pubkey none = err invalid_format
token_pubkey (some token) = parts_pubkey (token_parts token)

unfoldable pub extract_pubkey_from_auth : Bytes → Result Error Bytes
unfolding token_pubkey
extract_pubkey_from_auth auth =
    if is_empty auth then err empty_header else token_pubkey (bearer auth)
