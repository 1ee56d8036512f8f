-- ===== src/Registry/Codec.antt =====
-- The hex-delimited column format of addresses: `encodeStringSlice` and `decodeStringSlice` of
-- internal/registry/store.go. A nil slice and an empty one are both `[]`.
pub mod RoundTrip
use agent_comm_platform.Base.{
  ℕ, ◌≤◌, ◌≡◌, refl, sym, ap, ◌∙◌, ◌≢◌, ◌↔◌, Bool, true, false, Option, none, some, List, [], ◌∷◌,
  ◌++◌, arith, eqb, All,
}
use agent_comm_platform.Base.Bytes.{Bytes, is_empty}
use agent_comm_platform.Base.Hex.{
  encode_hex, decode_hex, IsBytes, decode_hex-encode_hex, encode_hex-All,
}

-- The iterations with i > 0, each of which writes the comma first.
encode_rest : List Bytes → Bytes
encode_rest [] = []
encode_rest (s ∷ ss) = b',' ∷ (encode_hex s ++ encode_rest ss)

unfoldable pub encode_string_slice : List Bytes → Bytes
unfolding encode_rest
encode_string_slice [] = []
encode_string_slice (s ∷ ss) = encode_hex s ++ encode_rest ss

-- `if b, err := hex.DecodeString(part); err == nil { result = append(result, string(b)) }`
emit : Option Bytes → List Bytes → List Bytes
emit none rest = rest
emit (some b) rest = b ∷ rest

-- The loop over the bytes: `part` is `s[start:i]`.
scan : Bytes → Bytes → List Bytes
unfolding emit
scan part [] = emit (decode_hex part) []
scan part (c ∷ rest) = elim (eqb c b',') [
  | true ↦ emit (decode_hex part) (scan [] rest)
  | false ↦ scan (part ++ c ∷ []) rest
]

unfoldable pub decode_string_slice : Bytes → List Bytes
unfolding scan
decode_string_slice [] = []
decode_string_slice (c ∷ rest) = scan [] (c ∷ rest)
