-- ===== src/Registry/Codec/RoundTrip.antt =====
-- Decoding an encoded address list.
use agent_comm_platform.Base.{
  ℕ, ◌≡◌, refl, ap, ◌∙◌, ◌≢◌, ◌↔◌, false, List, [], ◌∷◌, ◌++◌, arith, eqb, All, append-nil,
  append_assoc,
}
use agent_comm_platform.Base.Bytes.{Bytes}
use agent_comm_platform.Base.Hex.{
  encode_hex, IsBytes, IsHexDigit, decode_hex-encode_hex, encode_hex-All,
}
use agent_comm_platform.Registry.Codec.{encode_rest, scan, encode_string_slice, decode_string_slice}

scan-append :
    (part ds rest : Bytes) → All IsHexDigit ds → scan part (ds ++ rest) ≡ scan (part ++ ds) rest
unfolding scan
scan-append part [] rest h = rw append-nil
scan-append part (d ∷ ds) rest h =
    let other : eqb d b',' ≡ false = ground arith in
    rw (other, scan)
      (scan-append (part ++ d ∷ []) ds rest h.1
        ∙ ap (λ p. scan p rest) (append_assoc part (d ∷ []) ds))

scan-encode_rest :
    (s : Bytes) (ss : List Bytes)
    → IsBytes s
    → All IsBytes ss
    → scan (encode_hex s) (encode_rest ss) ≡ s ∷ ss
unfolding scan encode_rest
scan-encode_rest s [] h k = rw (decode_hex-encode_hex s h)
scan-encode_rest s (t ∷ ss) h k =
    rw
      (decode_hex-encode_hex s h, scan-append [] (encode_hex t) (encode_rest ss) (encode_hex-All t))
      (ap (λ r. s ∷ r) (scan-encode_rest t ss k.0 k.1))

scan-encode :
    (s : Bytes) (ss : List Bytes)
    → IsBytes s
    → All IsBytes ss
    → scan [] (encode_string_slice (s ∷ ss)) ≡ s ∷ ss
unfolding encode_string_slice
scan-encode s ss h k =
    scan-append [] (encode_hex s) (encode_rest ss) (encode_hex-All s) ∙ scan-encode_rest s ss h k

-- A list of one empty string encodes as no list at all.
decode-encode_empty : decode_string_slice (encode_string_slice ([] ∷ [])) ≡ []
unfolding decode_string_slice encode_string_slice encode_hex
decode-encode_empty = refl

decode-eq-scan : (b : ℕ) (bs : Bytes) → decode_string_slice (b ∷ bs) ≡ scan [] (b ∷ bs)
unfolding decode_string_slice
decode-eq-scan b bs = refl

-- All other lists come back as they were.
decode-encode_ne :
    (ss : List Bytes)
    → All IsBytes ss
    → ss ≢ [] ∷ []
    → decode_string_slice (encode_string_slice ss) ≡ ss
unfolding encode_string_slice encode_hex decode_string_slice
decode-encode_ne [] h n = refl
decode-encode_ne ([] ∷ []) h n = absurd (n refl)
decode-encode_ne ([] ∷ t ∷ ss) h n = scan-encode [] (t ∷ ss) h.0 h.1
decode-encode_ne ((b ∷ bs) ∷ ss) h n = scan-encode (b ∷ bs) ss h.0 h.1

-- Decoding inverts encoding for every list of byte strings but the list of one empty string, for
-- which it does not.
pub decode_string_slice-encode_string_slice :
    (ss : List Bytes)
    → All IsBytes ss
    → (decode_string_slice (encode_string_slice ss) ≡ ss) ↔ (ss ≢ [] ∷ [])
decode_string_slice-encode_string_slice ss h =
    (λ e n. cc (e, n, decode-encode_empty), decode-encode_ne ss h)
