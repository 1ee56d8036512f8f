-- ===== src/Base/Bytes.antt =====
-- Byte sequences: Go's `string` and `[]byte` alike.
use Prim.Native.Char.{code}
use Prim.Native.String.{String}
use Prim.Native.Nat.{ℕ, compare, Ordering}
use mathlib.Core.Path.{◌≡◌, refl}
use mathlib.Core.Logic.{◌↔◌}
use mathlib.Core.Bool.{Bool, true, false, ◌&&◌, ◌||◌}
use mathlib.Core.List.{List, [], ◌∷◌}
use native.Mathlib.Omega.{arith}
use agent_comm_platform.Base.Tests.{eqb}

abbrev pub Bytes : Type 0
Bytes = List ℕ

-- The bytes of an ASCII literal.
abbrev pub ascii : String → Bytes
ascii String.[] = []
ascii (String.◌∷◌ c s) = code c ∷ ascii s

-- bytes.Equal, and `==` on strings.
infix 50 ◌==◌
unfoldable pub ◌==◌ : Bytes → Bytes → Bool
[] == [] = true
[] == (b ∷ bs) = false
(a ∷ as') == [] = false
(a ∷ as') == (b ∷ bs) = eqb a b && as' == bs

pub eq→≡ : (a b : Bytes) → (a == b) ≡ true → a ≡ b
unfolding ◌==◌
eq→≡ [] [] h = refl
eq→≡ [] (b ∷ bs) h = cc
eq→≡ (a ∷ as') [] h = cc
eq→≡ (a ∷ as') (b ∷ bs) h = ground (arith, eq→≡ as' bs)

pub eq_refl : (a : Bytes) → (a == a) ≡ true
unfolding ◌==◌
eq_refl [] = refl
eq_refl (a ∷ as') = ground (arith, eq_refl as')

pub eq_iff : (a b : Bytes) → ((a == b) ≡ true) ↔ (a ≡ b)
eq_iff a b = (eq→≡ a b, λ e. cc (e, eq_refl a))

abbrev pub is_empty : Bytes → Bool
is_empty [] = true
is_empty (b ∷ bs) = false

pub eq_comm : (a b : Bytes) → (a == b) ≡ (b == a)
eq_comm a b = ground (arith, eq_iff a b, eq_iff b a)

-- SQLite's BINARY collation: memcmp, a proper prefix first.
unfoldable pub less : Bytes → Bytes → Bool
less as' [] = false
less [] (b ∷ bs) = true
less (a ∷ as') (b ∷ bs) = elim (compare a b) [
  | Ordering.lt ↦ true
  | Ordering.eq ↦ less as' bs
  | Ordering.gt ↦ false
]

pub less_asym : (a b : Bytes) → less a b ≡ true → less b a ≡ false
unfolding less
less_asym a [] h = cc
less_asym [] (y ∷ b) h = refl
less_asym (x ∷ a) (y ∷ b) h = ground (arith, less_asym a b)

pub less_chain : (a b c : Bytes) → less a b ≡ false → less b c ≡ false → less a c ≡ false
unfolding less
less_chain a b [] h k = refl
less_chain a [] (z ∷ c) h k = cc
less_chain [] (y ∷ b) (z ∷ c) h k = cc
less_chain (x ∷ a) (y ∷ b) (z ∷ c) h k = ground (arith, less_chain a b c)

-- `id IN (?, …)`.
unfoldable pub contains : List Bytes → Bytes → Bool
contains [] x = false
contains (y ∷ ys) x = x == y || contains ys x
