-- ===== src/Auth/Tests.antt =====
-- The theorems on the signature header at concrete inputs.
use agent_comm_platform.Base.{ℕ, suc, zero, ◌≡◌, refl, ◌⊎◌, Bool, some, [], ◌∷◌, arith, length}
use agent_comm_platform.Base.Bytes.{Bytes, ◌==◌, ascii}
use agent_comm_platform.Base.Hex.{IsBytes}
use agent_comm_platform.Base.Text.{split}
use agent_comm_platform.Auth.Header.{
  bearer, token_parts, token_of, pair_of, extract_pubkey_from_auth,
}
use agent_comm_platform.Auth.Middleware.{forwarded, verify_signature_middleware}
use agent_comm_platform.Auth.Agreement.{
  Signed, header, middleware_sound, middleware_complete, token_parts_joined,
}

zeros : ℕ → Bytes
zeros zero = []
zeros (suc n) = 0 ∷ zeros n

zeros-IsBytes : (n : ℕ) → IsBytes (zeros n)
unfolding zeros
zeros-IsBytes zero = tt
zeros-IsBytes (suc n) = (omega arith, zeros-IsBytes n)

length-zeros : (n : ℕ) → length (zeros n) ≡ n
unfolding zeros
length-zeros zero = refl
length-zeros (suc n) = ground (arith, length-zeros n)

-- Signed is what begins with "{".
abbrev verify : Bytes → Bytes → Bytes → Bool
verify key body sig = body == ascii "{}"

middleware_complete_example :
    verify_signature_middleware verify (header (zeros 64) (zeros 32)) (some (ascii "{}"))
    ≡ forwarded (ascii "{}")
unfolding ◌==◌
middleware_complete_example =
    middleware_complete verify (zeros 64) (zeros 32) (ascii "{}") (zeros-IsBytes 64)
      (zeros-IsBytes 32) (length-zeros 64) (length-zeros 32) (omega arith) refl

middleware_sound_example :
    Signed verify
      (extract_pubkey_from_auth (header (zeros 64) (zeros 32)))
      (some (ascii "{}"))
      (ascii "{}")
middleware_sound_example =
    middleware_sound verify (some (ascii "{}")) (ascii "{}") (header (zeros 64) (zeros 32))
      middleware_complete_example

dotted : bearer (ascii "Ed25519 00.11") ≡ some (ascii "00.11")
unfolding bearer token_of split
dotted = refl

dotted_parts : token_parts (ascii "00.11") ≡ some (ascii "00", ascii "11")
unfolding token_parts pair_of split
dotted_parts = refl

token_parts_joined_example :
    (pair_of (split b':' (ascii "00.11")) ≡ some (ascii "00", ascii "11"))
    ⊎ (pair_of (split b'.' (ascii "00.11")) ≡ some (ascii "00", ascii "11"))
token_parts_joined_example =
    token_parts_joined (ascii "Ed25519 00.11") (ascii "00.11") (ascii "00", ascii "11") dotted
      dotted_parts
