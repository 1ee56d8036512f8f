-- ===== src/Auth/Agreement.antt =====
-- The two readers of the header agree.
use agent_comm_platform.Base.{
  ℕ, ◌≤◌, ◌≡◌, refl, ◌≢◌, ◌⊎◌, Bool, true, Option, none, some, List, [], ◌∷◌, ◌++◌, arith, length,
  All, All-append,
}
use agent_comm_platform.Base.Bytes.{Bytes, ascii}
use agent_comm_platform.Base.Hex.{encode_hex, IsBytes, decode_hex-encode_hex, encode_hex-All}
use agent_comm_platform.Base.Text.{
  split, split-append, split-ne-nil, split_free, split-All, split_single, IsFreeOf,
}
use agent_comm_platform.Base.Action.{Result, ok}
use agent_comm_platform.Auth.Header.{
  Error, bearer, token_of, pair_of, token_parts, key_of, pubkey_of, parts_pubkey, token_pubkey,
  extract_pubkey_from_auth,
}
use agent_comm_platform.Auth.Middleware.{
  forwarded, max_body, with_keys, with_parts, with_token, verify_signature_middleware,
}

key_of-length : (n : ℕ) (text key : Bytes) → key_of n text ≡ some key → length key ≡ n
unfolding key_of
key_of-length n text key h = ground arith

-- The whole of what a forwarded request tells.
pub record Signed (verify : Bytes → Bytes → Bytes → Bool) (pubkey : Result Error Bytes)
    (input : Option Bytes) (body : Bytes) : Type 0 where
  pub sig : Bytes
  pub key : Bytes
  pub extracted : pubkey ≡ ok key
  pub verified : verify key body sig ≡ true
  pub key_length : length key ≡ 32
  pub sig_length : length sig ≡ 64
  pub read : input ≡ some body
  pub bounded : length body ≤ max_body

module _ (verify : Bytes → Bytes → Bytes → Bool) (input : Option Bytes) (body : Bytes) where
  with_keys-Signed :
      (s k : Option Bytes)
      → ((sig : Bytes) → s ≡ some sig → length sig ≡ 64)
      → ((key : Bytes) → k ≡ some key → length key ≡ 32)
      → with_keys verify s k input ≡ forwarded body
      → Signed verify (pubkey_of k) input body
  unfolding with_keys pubkey_of
  with_keys-Signed none k ls lk h = cc
  with_keys-Signed (some sig) none ls lk h = cc
  with_keys-Signed (some sig) (some key) ls lk h = record {
    sig = sig;
    key = key;
    extracted = refl;
    verified = ground arith;
    key_length = lk key refl;
    sig_length = ls sig refl;
    read = ground arith;
    bounded = ground arith;
  }

  with_parts-Signed :
      (parts : Option (Bytes × Bytes))
      → with_parts verify parts input ≡ forwarded body
      → Signed verify (parts_pubkey parts) input body
  unfolding with_parts parts_pubkey
  with_parts-Signed none h = cc
  with_parts-Signed (some (sig, key)) h =
      with_keys-Signed (key_of 64 sig) (key_of 32 key) (key_of-length 64 sig) (key_of-length 32 key)
        h

  with_token-Signed :
      (token : Option Bytes)
      → with_token verify token input ≡ forwarded body
      → Signed verify (token_pubkey token) input body
  unfolding with_token token_pubkey
  with_token-Signed none h = cc
  with_token-Signed (some token) h = with_parts-Signed (token_parts token) h

  -- What reaches the next handler was signed by the very key that the handler then reads from the
  -- same header, and the body is at most 20 MiB long.
  pub middleware_sound :
      (auth : Bytes)
      → verify_signature_middleware verify auth input ≡ forwarded body
      → Signed verify (extract_pubkey_from_auth auth) input body
  unfolding verify_signature_middleware extract_pubkey_from_auth
  middleware_sound [] h = cc
  middleware_sound (b ∷ bs) h = with_token-Signed (bearer (b ∷ bs)) h

-- The header that a client writes: "Ed25519 <signature-hex>:<pubkey-hex>".
abbrev pub header : Bytes → Bytes → Bytes
header sig key = ascii "Ed25519" ++ b' ' ∷ (encode_hex sig ++ b':' ∷ encode_hex key)

All-weaken {ℓ κ} :
    {P : ℕ → Type ℓ} {Q : ℕ → Type κ} (k : (c : ℕ) → P c → Q c) (bs : Bytes) → All P bs → All Q bs
All-weaken k [] h = tt
All-weaken k (b ∷ bs) h = (k b h.0, All-weaken k bs h.1)

token_free : (sig key : Bytes) → IsFreeOf b' ' (encode_hex sig ++ b':' ∷ encode_hex key)
token_free sig key =
    All-append (λ b. b ≢ b' ') (encode_hex sig) (b':' ∷ encode_hex key)
      (All-weaken (λ c h. omega arith) (encode_hex sig) (encode_hex-All sig))
      ((λ e. omega arith), All-weaken (λ c h. omega arith) (encode_hex key) (encode_hex-All key))

bearer-header :
    (sig key : Bytes) → bearer (header sig key) ≡ some (encode_hex sig ++ b':' ∷ encode_hex key)
unfolding bearer
bearer-header sig key = rw (
  split-append b' ' (ascii "Ed25519") (encode_hex sig ++ b':' ∷ encode_hex key) (omega arith),
  split_free b' ' _ (token_free sig key),
)

token_parts-hex :
    (sig key : Bytes)
    → token_parts (encode_hex sig ++ b':' ∷ encode_hex key) ≡ some (encode_hex sig, encode_hex key)
unfolding token_parts
token_parts-hex sig key = rw (
  split-append b':' (encode_hex sig) (encode_hex key)
      (All-weaken (λ c h. h.1) (encode_hex sig) (encode_hex-All sig)),
  split_free b':' (encode_hex key) (All-weaken (λ c h. h.1) (encode_hex key) (encode_hex-All key)),
  token_parts,
)

key_of-hex :
    (n : ℕ) (key : Bytes) → IsBytes key → length key ≡ n → key_of n (encode_hex key) ≡ some key
unfolding key_of
key_of-hex n key h e = rw (decode_hex-encode_hex key h) (ground arith)

-- A body that the client signs, with the header in the documented form, is forwarded unchanged, if
-- signature and key have their lengths and the body is at most 20 MiB long.
pub middleware_complete :
    (verify : Bytes → Bytes → Bytes → Bool) (sig key body : Bytes)
    → IsBytes sig
    → IsBytes key
    → length sig ≡ 64
    → length key ≡ 32
    → length body ≤ max_body
    → verify key body sig ≡ true
    → verify_signature_middleware verify (header sig key) (some body) ≡ forwarded body
unfolding verify_signature_middleware
middleware_complete verify sig key body bs bk ls lk lb v =
    rw
      (
        bearer-header sig key,
        token_parts-hex sig key,
        key_of-hex 64 sig bs ls,
        key_of-hex 32 key bk lk,
      )
      (ground arith)

-- The token of a header has no space in it.
bearer_free : (auth token : Bytes) → bearer auth ≡ some token → split b' ' token ≡ token ∷ []
unfolding bearer
bearer_free auth token h = go (split b' ' auth) refl (split-All b' ' auth) h
  where
    go :
        (parts : List Bytes)
        → split b' ' auth ≡ parts
        → All (IsFreeOf b' ') parts
        → token_of auth parts ≡ some token
        → split b' ' token ≡ token ∷ []
    go [] same free e = absurd (split-ne-nil b' ' auth same)
    go (a ∷ []) same free e =
        let whole : a ≡ token = ground (arith, split_single b' ' auth a) in
        rw whole at (split_free b' ' a free.0)
    go (a ∷ b ∷ []) same free e =
        let second : b ≡ token = ground arith in rw second at (split_free b' ' b free.1.0)
    go (a ∷ b ∷ c ∷ rest) same free e = cc

-- The last fallback, a signature and a key that a space joins, never applies: what a header yields
-- was joined by a colon or by a dot.
pub token_parts_joined :
    (auth token : Bytes) (p : Bytes × Bytes)
    → bearer auth ≡ some token
    → token_parts token ≡ some p
    → (pair_of (split b':' token) ≡ some p) ⊎ (pair_of (split b'.' token) ≡ some p)
unfolding token_parts pair_of
token_parts_joined auth token p h k = ground (arith, bearer_free auth token)
