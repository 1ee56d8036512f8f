-- ===== src/Api/Tokens.antt =====
-- The confirmation token: a preview's token confirms the save that it previewed, in its time.
use agent_comm_platform.Base.{
  ℕ, ◌^◌, ◌<◌, ◌≡◌, refl, ap, ◌∙◌, ◌&&◌, some, List, [], ◌∷◌, ◌++◌, length, arith, All,
}
use agent_comm_platform.Base.Bytes.{Bytes, eq_refl}
use agent_comm_platform.Config.Settings.{Key}
use agent_comm_platform.Api.Decimal.{atoi, IsDigit, atoi-itoa}
use agent_comm_platform.Api.Editable.{Json, Settings}
use agent_comm_platform.Api.Editor.{
  Crypto, cut, signed_part, editable_confirmation_token, matches_token, editable_request_keys,
  is_timely, valid_at, valid_editable_confirmation_token,
}

-- The cut of a text behind digits and a dot.
cut-digits : (ds rest : Bytes) → All IsDigit ds → cut (ds ++ b'.' ∷ rest) ≡ some (ds, rest)
unfolding cut
cut-digits [] rest h = refl
cut-digits (d ∷ ds) rest h = ground (arith, cut-digits ds rest h.1, h.0)

-- Documented of HMAC-SHA-256: a mac has 64 hexadecimal digits.
abbrev pub HasMacs : Crypto → Type 0
HasMacs crypto =
    (key revision : Bytes) (settings : Settings) (names : List Bytes) (expiry : Bytes)
    → length (crypto.mac key revision settings names expiry) ≡ 64

module _ (crypto : Crypto) (macs : HasMacs crypto) (key revision : Bytes) (settings : Settings)
    (changes : List (Key × Json)) where
  length-signed_part :
      (expiry : Bytes) → length (signed_part crypto key revision settings changes expiry) ≡ 64
  unfolding signed_part
  length-signed_part expiry = macs key revision settings (editable_request_keys changes) expiry

  -- A confirmation token that a preview makes for a time after the epoch confirms the same settings
  -- and changes exactly while that time has not passed and is at most five minutes ahead, if a mac
  -- has 64 digits.
  pub valid-token :
      (expiry now : ℕ)
      → expiry < 2 ^ 63
      → (token : Bytes) × (editable_confirmation_token crypto key revision settings changes expiry
          ≡ some token)
        × (valid_editable_confirmation_token crypto key revision settings changes token now
            ≡ is_timely now expiry)
  unfolding editable_confirmation_token valid_editable_confirmation_token valid_at matches_token
  valid-token expiry now h =
      let printed = atoi-itoa expiry h in
      let signature = signed_part crypto key revision settings changes printed.0 in
      let token = printed.0 ++ b'.' ∷ signature in
      let made : editable_confirmation_token crypto key revision settings changes expiry
          ≡ some token =
        rw (printed.1, editable_confirmation_token) in
      let parted : valid_editable_confirmation_token crypto key revision settings changes token now
          ≡ valid_at crypto key revision settings changes token now signature (atoi printed.0) =
        rw (cut-digits printed.0 signature printed.3, valid_editable_confirmation_token) in
      (
        token,
        made,
        parted
            ∙ ap (valid_at crypto key revision settings changes token now signature) printed.2
            ∙ ap (λ o. is_timely now expiry && matches_token token signature o) made
            ∙ ground (arith, eq_refl token, length-signed_part printed.0),
      )
