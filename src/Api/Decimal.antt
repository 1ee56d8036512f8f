-- ===== src/Api/Decimal.antt =====
-- Decimal numbers: `itoa` of internal/api/server.go, and strconv.Atoi.
use agent_comm_platform.Base.{
  ℕ, zero, suc, ◌+◌, ◌-◌, ◌*◌, ◌/◌, ◌%◌, ◌^◌, ◌≤◌, ◌<◌, ◌≡◌, ◌∙◌, ap, Bool, true, false, ◌&&◌,
  Option, none, some, [], ◌∷◌, arith, leb, ltb, eqb, if◌then◌else◌, All, Bool-cases, inl, inr,
}
use agent_comm_platform.Base.Int.{ℤ, pos, negsuc}
use agent_comm_platform.Base.Bytes.{Bytes}

-- The digits of a number, read from the left.
unfoldable pub digits : ℕ → Bytes → Option ℕ
digits acc [] = some acc
digits acc (c ∷ cs) =
    let rest = digits (10 * acc + (c - b'0')) cs in if leb b'0' c && leb c b'9' then rest else none

unfoldable pub number : Bytes → Option ℕ
number [] = none
number (c ∷ cs) = digits 0 (c ∷ cs)

abbrev pub signed : Bool → Option ℕ → Option ℤ
signed negative none = none
signed false (some n) = if ltb n (2 ^ 63) then some (pos n) else none
signed true (some n) =
    if eqb n 0 then some (pos 0) else if leb n (2 ^ 63) then some (negsuc (n - 1)) else none

-- strconv.Atoi: a sign or none, decimal digits, and a value that an int64 holds.
unfoldable pub atoi : Bytes → Option ℤ
atoi [] = none
atoi (c ∷ cs) =
    if eqb c b'-'
    then signed true (number cs)
    else signed false (number (if eqb c b'+' then cs else c ∷ cs))

-- `for n > 0`, on fuel: `none` means that it ran out.
unfoldable pub itoa_loop : ℕ → ℕ → Bytes → Option Bytes
itoa_loop zero n buf = if eqb n 0 then some buf else none
itoa_loop (suc fuel) n buf =
    let rest = itoa_loop fuel (n / 10) ((b'0' + n % 10) ∷ buf) in if eqb n 0 then some buf else rest

unfoldable pub itoa : ℤ → Option Bytes
itoa (negsuc n) = some []
itoa (pos n) = if eqb n 0 then some (b'0' ∷ []) else itoa_loop n n []

abbrev pub IsDigit : ℕ → Type 0
IsDigit c = (b'0' ≤ c) × (c ≤ b'9')

digits-digit : (n : ℕ) (buf : Bytes) → digits (n / 10) ((b'0' + n % 10) ∷ buf) ≡ digits n buf
unfolding digits
digits-digit n buf = ground arith

-- Enough fuel: the loop ends with the digits of `n` in front of the buffer.
itoa_loop_ok :
    (fuel n : ℕ) (buf : Bytes)
    → n ≤ fuel
    → All IsDigit buf
    → (out : Bytes) × (itoa_loop fuel n buf ≡ some out)
      × (digits 0 out ≡ digits n buf)
      × All IsDigit out
unfolding itoa_loop
itoa_loop_ok zero n buf h k = (buf, ground arith, ap (λ m. digits m buf) (omega arith), k)
itoa_loop_ok (suc fuel) n buf h k = elim (Bool-cases (eqb n 0)) [
  | inl z ↦ (buf, ground arith, ap (λ m. digits m buf) (ground arith), k)
  | inr nz ↦
      let rest =
        itoa_loop_ok fuel (n / 10) ((b'0' + n % 10) ∷ buf) (ground arith)
          ((omega arith, omega arith), k) in
      (rest.0, ground (arith, rest.1), rest.2 ∙ digits-digit n buf, rest.3)
]

signed_digits :
    (out : Bytes) (n : ℕ)
    → n < 2 ^ 63
    → All IsDigit out
    → 0 < n
    → digits 0 out ≡ some n
    → atoi out ≡ some (pos n)
unfolding atoi number digits
signed_digits [] n b h k e = ground arith
signed_digits (c ∷ cs) n b h k e = ground (arith, h.0)

-- For every number of an int64 that is not negative the loop ends within as many turns as the
-- number, and what it prints are digits that read as the number.
pub atoi-itoa :
    (n : ℕ)
    → n < 2 ^ 63
    → (out : Bytes) × (itoa (pos n) ≡ some out) × (atoi out ≡ some (pos n)) × All IsDigit out
unfolding itoa atoi number digits
atoi-itoa n h = elim (Bool-cases (eqb n 0)) [
  | inl z ↦ (
    b'0' ∷ [],
    ground arith,
    ap (λ m. some (pos m)) (ground arith),
    ((omega arith, omega arith), tt),
  )
  | inr nz ↦
      let loop = itoa_loop_ok n n [] (omega arith) tt in
      (
        loop.0,
        ground (arith, loop.1),
        signed_digits loop.0 n h loop.3 (ground arith) loop.2,
        loop.3,
      )
]
