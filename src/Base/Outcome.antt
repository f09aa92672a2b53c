-- ===== src/Base/Outcome.antt =====
-- How a Rust call ends: with a value, with an error value (`None` for an `Option`), or by a panic
-- (a failed `unwrap` or `assert!`, a division by zero, or plain arithmetic that overflows, since
-- Cargo.toml sets `overflow-checks`).
use mathlib.Core.Path.{◌≡◌, refl}
use mathlib.Core.Bool.{Bool, true, false}

pub data Result {ℓ} (E : Type 0) (A : Type ℓ) : Type ℓ where
  ok : A → Result E A
  err : E → Result E A
  panic : Result E A

-- The error of `Option<T>`: `err nothing` stands for `None`.
pub data Nothing : Type 0 where
  nothing : Nothing

-- `Option<T>` as the result of a function that may also panic.
abbrev pub Maybe {ℓ} : Type ℓ → Type ℓ
Maybe A = Result Nothing A

infixl 5 ◌>>=◌ ◌>>◌
abbrev pub ◌>>=◌ {ℓ κ} :
    {E : Type 0} {A : Type ℓ} {B : Type κ} → Result E A → (A → Result E B) → Result E B
ok a >>= f = f a
err e >>= f = err e
panic >>= f = panic

abbrev pub ◌>>◌ {ℓ} : {E : Type 0} {B : Type ℓ} → Result E (Unit {0}) → Result E B → Result E B
m >> k = m >>= λ _. k

-- `o.unwrap()`
abbrev pub unwrap {ℓ} : {E : Type 0} {A : Type ℓ} → Maybe A → Result E A
unwrap (ok a) = ok a
unwrap (err e) = panic
unwrap panic = panic

-- `r.unwrap()` on a `Result`, in a function of any error type
abbrev pub unwrap_result {ℓ} : {E F : Type 0} {A : Type ℓ} → Result F A → Result E A
unwrap_result (ok a) = ok a
unwrap_result (err e) = panic
unwrap_result panic = panic

-- `o.ok_or(e)`
abbrev pub ok_or {ℓ} : {E : Type 0} {A : Type ℓ} → Maybe A → E → Result E A
ok_or (ok a) e = ok a
ok_or (err x) e = err e
ok_or panic e = panic

-- `if !b { return Err(e) }`, as in the `require_…!` macros
abbrev pub require : {E : Type 0} → Bool → E → Result E (Unit {0})
require true e = ok tt
require false e = err e

-- `assert!(b)`
abbrev pub assert : {E : Type 0} → Bool → Result E (Unit {0})
assert true = ok tt
assert false = panic

-- A chain that returned a value: what follows from its first part and the rest follows.
pub take_apart {ℓ κ μ} :
    {E : Type 0} {A : Type ℓ} {B : Type κ} {P : Type μ} (m : Result E A) {f : A → Result E B}
    {b : B}
    → (m >>= f) ≡ ok b
    → ((a : A) → m ≡ ok a → f a ≡ ok b → P)
    → P
take_apart (ok a) h k = k a refl h
take_apart (err e) h k = absurd (cc)
take_apart panic h k = absurd (cc)

-- A chain returns a value when its first part and then the rest do.
pub bind-total {ℓ κ} :
    {E : Type 0} {A : Type ℓ} {B : Type κ} (m : Result E A) (f : A → Result E B) (a : A)
    → m ≡ ok a
    → (b : B) × (f a ≡ ok b)
    → (b : B) × ((m >>= f) ≡ ok b)
bind-total m f a e (b, h) = (b, rw e h)

pub ok_injective {ℓ} :
    {E : Type 0} {A : Type ℓ} {a b : A} → ◌≡◌ {A = Result E A} (ok a) (ok b) → a ≡ b
ok_injective h = cc

pub require-ok : {E : Type 0} (b : Bool) (e : E) {u : Unit {0}} → require b e ≡ ok u → b ≡ true
require-ok true e h = refl
require-ok false e h = absurd (cc)

pub assert-ok : {E : Type 0} (b : Bool) {u : Unit {0}} → assert {E = E} b ≡ ok u → b ≡ true
assert-ok true h = refl
assert-ok false h = absurd (cc)

pub ok_or-ok {ℓ} :
    {E : Type 0} {A : Type ℓ} (m : Maybe A) (e : E) {a : A} → ok_or m e ≡ ok a → m ≡ ok a
ok_or-ok (ok a) e h = cc
ok_or-ok (err x) e h = absurd (cc)
ok_or-ok panic e h = absurd (cc)

pub unwrap-ok {ℓ} :
    {E : Type 0} {A : Type ℓ} (m : Maybe A) {a : A} → unwrap {E = E} m ≡ ok a → m ≡ ok a
unwrap-ok (ok a) h = cc
unwrap-ok (err x) h = absurd (cc)
unwrap-ok panic h = absurd (cc)
