-- ===== src/Base/Tests.antt =====
-- The Boolean tests of C on native numbers, the conditional, and the chain of fallible steps.
use Prim.Native.Nat.{ℕ, zero, suc, ◌+◌, ◌≤◌, ◌<◌, compare, Ordering}
use mathlib.Core.Path.{◌≡◌, refl}
use mathlib.Core.Logic.{◌↔◌, ◌⊎◌, inl, inr}
use mathlib.Core.Bool.{Bool, true, false, ◌&&◌}
use mathlib.Core.Option.{Option, none, some}
use native.Mathlib.Omega.{arith}

abbrev pub ltb : ℕ → ℕ → Bool
ltb a b = elim (compare a b) [ Ordering.lt ↦ true | _ ↦ false ]

abbrev pub leb : ℕ → ℕ → Bool
leb a b = elim (compare a b) [ Ordering.gt ↦ false | _ ↦ true ]

infix 50 ◌==◌
abbrev pub ◌==◌ : ℕ → ℕ → Bool
a == b = elim (compare a b) [ Ordering.eq ↦ true | _ ↦ false ]

infix 1 if◌then◌else◌
abbrev pub if◌then◌else◌ {ℓ} : {A : Type ℓ} → Bool → A → A → A
if true then x else y = x
if false then x else y = y

pub ltb→lt : (a b : ℕ) → ltb a b ≡ true → a < b
ltb→lt a b h = ground arith

pub leb→le : (a b : ℕ) → leb a b ≡ true → a ≤ b
leb→le a b h = ground arith

pub le→leb : (a b : ℕ) → a ≤ b → leb a b ≡ true
le→leb a b h = ground arith

pub ==_iff : (a b : ℕ) → ((a == b) ≡ true) ↔ (a ≡ b)
==_iff a b = ground arith

pub ==_refl : (a : ℕ) → (a == a) ≡ true
==_refl a = ground arith

pub Bool-cases : (b : Bool) → (b ≡ true) ⊎ (b ≡ false)
Bool-cases true = inl refl
Bool-cases false = inr refl

pub Option-cases {ℓ} : {A : Type ℓ} (o : Option A) → (o ≡ none) ⊎ ((a : A) × (o ≡ some a))
Option-cases none = inl refl
Option-cases (some a) = inr (a, refl)

-- `none` is an access out of range, which C leaves undefined.
infixl 5 ◌>>=◌ ◌>>◌
abbrev pub ◌>>=◌ {ℓ κ} : {A : Type ℓ} {B : Type κ} → Option A → (A → Option B) → Option B
none >>= f = none
some a >>= f = f a

abbrev pub ◌>>◌ {ℓ κ} : {A : Type ℓ} {B : Type κ} → Option A → Option B → Option B
m >> k = m >>= λ _. k

-- What the success of a chain says of its first step.
pub some_bind {ℓ κ} :
    {A : Type ℓ} {B : Type κ} (o : Option A) (f : A → Option B) (b : B)
    → (o >>= f) ≡ some b
    → (a : A) × (o ≡ some a) × (f a ≡ some b)
some_bind none f b e = absurd (ground (arith, e))
some_bind (some a) f b e = (a, refl, e)

-- A test of every index below a bound, the first one first.
unfoldable pub test_from : (ℕ → Bool) → ℕ → ℕ → Bool
test_from p i zero = true
test_from p i (suc left) = p i && test_from p (suc i) left

unfoldable pub all_indices : (ℕ → Bool) → ℕ → Bool
all_indices p bound = test_from p 0 bound

test_from-passes :
    (p : ℕ → Bool) (i left : ℕ)
    → test_from p i left ≡ true
    → (x : ℕ) → i ≤ x
    → x < i + left
    → p x ≡ true
unfolding test_from
test_from-passes p i zero h x low high = absurd (omega arith)
test_from-passes p i (suc left) h x low high =
    let rest : test_from p (suc i) left ≡ true → suc i ≤ x → p x ≡ true =
      λ passes above. test_from-passes p (suc i) left passes x above (omega arith) in
    ground (arith, rest)

pub all_indices-passes :
    (p : ℕ → Bool) (bound : ℕ) → all_indices p bound ≡ true → (x : ℕ) → x < bound → p x ≡ true
unfolding all_indices
all_indices-passes p bound h x small = test_from-passes p 0 bound h x (omega arith) (omega arith)
