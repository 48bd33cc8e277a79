-- ===== src/Common/Results.antt =====
-- Rust's `Result<A, E>`, and the two monads of the models: a `Result` that `?` leaves early, and
-- an `Option` whose `none` is a panic.
use mathlib.Core.Path.{◌≡◌, refl, ap}
use mathlib.Core.Bool.{Bool, true, false, not, ◌&&◌}
use mathlib.Core.Option.{Option, none, some}

pub data Result {ℓ κ} (E : Type κ) (A : Type ℓ) : Type (ℓ ⊔ κ) where
  ok : A → Result E A
  err : E → Result E A

infixl 5 ◌>>=◌ ◌>>◌
abbrev pub ◌>>=◌ {ℓ κ μ} :
    {E : Type μ} {A : Type ℓ} {B : Type κ} → Result E A → (A → Result E B) → Result E B
ok value >>= next = next value
err reason >>= next = err reason

abbrev pub ◌>>◌ {κ μ} : {E : Type μ} {B : Type κ} → Result E (Unit {0}) → Result E B → Result E B
checks >> next = checks >>= λ _. next

-- `if !b { return Err(e) }`
abbrev pub guard {μ} : {E : Type μ} → Bool → E → Result E (Unit {0})
guard true reason = ok tt
guard false reason = err reason

-- `value.ok_or(e)?`
abbrev pub ok_or {ℓ μ} : {E : Type μ} {A : Type ℓ} → Option A → E → Result E A
ok_or none e = err e
ok_or (some a) e = ok a

pub >>=-eq-ok {ℓ κ μ} :
    {E : Type μ} {A : Type ℓ} {B : Type κ} (first : Result E A) (next : A → Result E B) {result : B}
    → (first >>= next) ≡ ok result
    → (value : A) × (first ≡ ok value) × (next value ≡ ok result)
>>=-eq-ok (ok value) next h = (value, refl, h)
>>=-eq-ok (err reason) next h = cc

-- Inversion of a guard that was passed.
pub guard-eq-ok {ℓ μ} :
    {E : Type μ} {A : Type ℓ} (b : Bool) (e : E) (k : Result E A) {a : A}
    → (guard b e >>= λ _. k) ≡ ok a
    → (b ≡ true) × (k ≡ ok a)
guard-eq-ok true e k h = (refl, h)
guard-eq-ok false e k h = cc

pub ok-injective {ℓ μ} :
    {E : Type μ} {A : Type ℓ} {a b : A} → ◌≡◌ {A = Result E A} (ok a) (ok b) → a ≡ b
ok-injective h = cc

pub passed {μ} : {E : Type μ} (b : Bool) (e : E) {u : Unit {0}} → guard b e ≡ ok u → b ≡ true
passed true e h = refl
passed false e h = cc

pub ok_or-eq-ok {ℓ μ} :
    {E : Type μ} {A : Type ℓ} (o : Option A) (e : E) (a : A) → ok_or o e ≡ ok a → o ≡ some a
ok_or-eq-ok none e a h = cc
ok_or-eq-ok (some b) e a h = ap some (ok-injective h)

pub not-eq-true : (b : Bool) → not b ≡ true → b ≡ false
not-eq-true true h = cc
not-eq-true false h = refl

pub and-eq-true : (a b : Bool) → (a && b) ≡ true → (a ≡ true) × (b ≡ true)
and-eq-true true b h = (refl, h)
and-eq-true false b h = cc
