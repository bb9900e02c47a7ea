-- ===== src/Common/Results.antt =====
-- The errno values that the code returns, and results that carry one.
use mathlib.Core.Path.{◌≡◌, refl, ap}
use mathlib.Core.Logic.{◌⊎◌, inl, inr}
use mathlib.Core.Bool.{Bool, true, false}
use venus_vaapi_driver.Common.Tests.{if◌then◌else◌}

-- A C function that returns `-EINVAL` answers `err einval`.
pub data Errno : Type 0 where
  einval enospc enotsup eoverflow enoent ealready enomem erange eio eagain etimedout ebadf : Errno
  enodev enametoolong eintr eopnotsupp other_errno : Errno

-- The outcome of a call: what it writes, or the errno of its failure.
pub data Result {ℓ} (Value : Type ℓ) : Type ℓ where
  err : Errno → Result Value
  ok : Value → Result Value

-- `if (failed) return -e;`
abbrev pub fail_if : Bool → Errno → Result (Unit {0})
fail_if false code = ok tt
fail_if true code = err code

infixl 5 ◌>>=◌
abbrev pub ◌>>=◌ {ℓ κ} :
    {Value : Type ℓ} {Next : Type κ} → Result Value → (Value → Result Next) → Result Next
err code >>= next = err code
ok value >>= next = next value

infixl 5 ◌>>◌
abbrev pub ◌>>◌ {κ} : {Next : Type κ} → Result (Unit {0}) → Result Next → Result Next
test >> next = test >>= λ passed. next

pub Result-cases {ℓ} :
    {A : Type ℓ} (r : Result A) → ((a : A) × (r ≡ ok a)) ⊎ ((e : Errno) × (r ≡ err e))
Result-cases (ok a) = inl (a, refl)
Result-cases (err e) = inr (e, refl)

-- A call that succeeds has succeeded in its first part.
pub >>=-eq-ok {ℓ κ} :
    {Value : Type ℓ} {Next : Type κ} (first : Result Value) (next : Value → Result Next)
    {result : Next}
    → (first >>= next) ≡ ok result
    → (value : Value) × (first ≡ ok value) × (next value ≡ ok result)
>>=-eq-ok (err code) next e = cc
>>=-eq-ok (ok value) next e = (value, refl, e)

abbrev value_or {ℓ} : {A : Type ℓ} → A → Result A → A
value_or default (ok a) = a
value_or default (err e) = default

pub ok-injective {ℓ} : {A : Type ℓ} {a b : A} → ok a ≡ ok b → a ≡ b
ok-injective {a = a} e = ap (value_or a) e

-- Inversion of `if (failed) return -e;` before a successful rest.
pub guard-eq-ok {ℓ} :
    {A : Type ℓ} (b : Bool) (e : Errno) (m : Result A) {a : A}
    → (if b then err e else m) ≡ ok a
    → (b ≡ false) × (m ≡ ok a)
guard-eq-ok true e m h = cc
guard-eq-ok false e m h = (refl, h)

-- Inversion of a test that stands before the calls that follow it.
pub fail_if-eq-ok {ℓ} :
    {A : Type ℓ} (b : Bool) (e : Errno) (m : Result A) {a : A}
    → (fail_if b e >> m) ≡ ok a
    → (b ≡ false) × (m ≡ ok a)
fail_if-eq-ok true e m h = cc
fail_if-eq-ok false e m h = (refl, h)
