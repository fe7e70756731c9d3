-- ===== src/Prelude/Panic.antt =====
-- Rust code that may panic, in the dev profile: `assert!`, `debug_assert!`, an index out of range,
-- and integer arithmetic that leaves its type are all a `panic`.
use Prim.Native.Nat.{ℕ, ◌+◌, ◌-◌, ◌*◌, ◌^◌}
use mathlib.Core.Path.{◌≡◌, refl}
use mathlib.Core.Bool.{Bool, true, false}
use mathlib.Core.Option.{Option, none, some}
use mathlib.Core.List.{List}
use cratetorrent.Prelude.Tests.{ltb, leb, if◌then◌else◌}
use cratetorrent.Prelude.Lists.{get_elem?}

pub data Checked {ℓ} (A : Type ℓ) : Type ℓ where
  ret : A → Checked A
  panic : Checked A

infixl 5 ◌>>=◌ ◌>>◌
abbrev pub ◌>>=◌ {ℓ κ} : {A : Type ℓ} {B : Type κ} → Checked A → (A → Checked B) → Checked B
ret a >>= f = f a
panic >>= f = panic

abbrev pub ◌>>◌ {ℓ} : {B : Type ℓ} → Checked (Unit {0}) → Checked B → Checked B
m >> k = m >>= λ _. k

-- `assert!` and `debug_assert!`.
abbrev pub assert : Bool → Checked (Unit {0})
assert true = ret tt
assert false = panic

-- `expect` and `unwrap` of an `Option`.
abbrev pub expect {ℓ} : {A : Type ℓ} → Option A → Checked A
expect none = panic
expect (some x) = ret x

-- An index expression `xs[i]`.
abbrev pub index {ℓ} : {A : Type ℓ} → List A → ℕ → Checked A
index xs i = expect (get_elem? xs i)

-- Addition and multiplication at `w` bits, and subtraction of unsigned integers.
abbrev pub add_bits : ℕ → ℕ → ℕ → Checked ℕ
add_bits w a b = if ltb (a + b) (2 ^ w) then ret (a + b) else panic

abbrev pub mul_bits : ℕ → ℕ → ℕ → Checked ℕ
mul_bits w a b = if ltb (a * b) (2 ^ w) then ret (a * b) else panic

abbrev pub sub_checked : ℕ → ℕ → Checked ℕ
sub_checked a b = if leb b a then ret (a - b) else panic

-- Inversion of a bind that returned.
pub >>=-eq-ret {ℓ κ} :
    {A : Type ℓ} {B : Type κ} (m : Checked A) (f : A → Checked B) {b : B}
    → (m >>= f) ≡ ret b
    → (a : A) × (m ≡ ret a) × (f a ≡ ret b)
>>=-eq-ret (ret a) f h = (a, refl, h)
>>=-eq-ret panic f h = cc

-- The result, if there is one, has the property.
abbrev pub IfReturns {ℓ κ} : {A : Type ℓ} → (A → Type κ) → Checked A → Type κ
IfReturns P (ret a) = P a
IfReturns P panic = Unit

pub IfReturns-bind {ℓ κ μ ν} :
    {A : Type ℓ} {B : Type κ} (Q : A → Type μ) (P : B → Type ν) (m : Checked A) (f : A → Checked B)
    → IfReturns Q m
    → ((a : A) → Q a → IfReturns P (f a))
    → IfReturns P (m >>= f)
IfReturns-bind Q P (ret a) f h k = k a h
IfReturns-bind Q P panic f h k = tt

-- The same where nothing is known of the first part.
pub IfReturns-after {ℓ κ μ} :
    {A : Type ℓ} {B : Type κ} (P : B → Type μ) (m : Checked A) (f : A → Checked B)
    → ((a : A) → IfReturns P (f a))
    → IfReturns P (m >>= f)
IfReturns-after P (ret a) f k = k a
IfReturns-after P panic f k = tt
