-- ===== src/Base/Results.antt =====
-- What a call of the server's C functions ends in, and the POSIX error codes that they set.
use Prim.Native.Nat.{ℕ}
use mathlib.Core.Path.{◌≡◌, refl}
use mathlib.Core.Bool.{Bool, true, false}
use mathlib.Core.Option.{Option, none, some}
use mathlib.Core.List.{List, [], ◌∷◌}
use tp_protos.Base.Tests.{if◌then◌else◌}
use native.Mathlib.Omega.{arith}

-- The values of `errno` that the source names, and those of the operating system's own.
pub data Errno : Type 0 where
  einval enoent enomem eio eexist efbig ebusy eacces enotdir : Errno
  other : ℕ → Errno

-- A return of a value, a return of -1 or NULL with `errno` set, or behaviour that C leaves
-- undefined (an access out of bounds, a NULL pointer followed, a signed overflow).
pub data Outcome {ℓ} (A : Type ℓ) : Type ℓ where
  ok : A → Outcome A
  err : Errno → Outcome A
  fault : Outcome A

-- What is undefined unless the test passes.
abbrev pub defined : Bool → Outcome (Unit {0})
defined false = fault
defined true = ok tt

-- An early return with `errno` set, unless the test passes.
abbrev pub guard : Bool → Errno → Outcome (Unit {0})
guard false code = err code
guard true _ = ok tt

-- The statement after a call runs only where the call returned a value.
infixl 5 ◌>>=◌
abbrev pub ◌>>=◌ {ℓ₁ ℓ₂} : {A : Type ℓ₁} {B : Type ℓ₂} → Outcome A → (A → Outcome B) → Outcome B
fault >>= next = fault
err code >>= next = err code
ok value >>= next = next value

infixl 5 ◌>>◌
abbrev pub ◌>>◌ {ℓ₁} : {B : Type ℓ₁} → Outcome (Unit {0}) → Outcome B → Outcome B
call >> next = call >>= λ done. next

-- A sequence that returns a value: so did its first call.
pub >>=-eq-ok {ℓ₁ ℓ₂} :
    {A : Type ℓ₁} {B : Type ℓ₂} {value : B} (call : Outcome A) (next : A → Outcome B)
    → call >>= next ≡ ok value
    → (a : A) × (call ≡ ok a) × (next a ≡ ok value)
>>=-eq-ok fault next h = ground arith
>>=-eq-ok (err code) next h = ground arith
>>=-eq-ok (ok a) next h = (a, refl, h)

pub ok-injective {ℓ} : {A : Type ℓ} {a b : A} → ok a ≡ ok b → a ≡ b
ok-injective h = cc

-- Whatever the call returns satisfies `P`, and it does not end in an error or an `abort`.
abbrev pub Returns {ℓ} : {A : Type ℓ} → (A → Type 0) → Outcome A → Type 0
Returns P (ok a) = P a
Returns P (err e) = ⊥
Returns P fault = Unit

-- A sequence returns what its last call does, from what the first one returned.
pub Returns->>= {ℓ₁ ℓ₂} :
    {A : Type ℓ₁} {B : Type ℓ₂} (P : A → Type 0) (Q : B → Type 0) (call : Outcome A)
    (next : A → Outcome B)
    → Returns P call
    → ((a : A) → P a → Returns Q (next a))
    → Returns Q (call >>= next)
Returns->>= P Q (ok a) next h k = k a h
Returns->>= P Q (err e) next h k = absurd h
Returns->>= P Q fault next h k = tt

-- What is returned satisfies what follows from `P`.
pub Returns-mono {ℓ} :
    {A : Type ℓ} (P Q : A → Type 0) (call : Outcome A)
    → Returns P call
    → ((a : A) → P a → Q a)
    → Returns Q call
Returns-mono P Q (ok a) h k = k a h
Returns-mono P Q (err e) h k = absurd h
Returns-mono P Q fault h k = tt

-- Both branches of a test, and both cases of an option.
pub Returns-if {ℓ} :
    {A : Type ℓ} (P : A → Type 0) (test : Bool) (x y : Outcome A)
    → Returns P x
    → Returns P y
    → Returns P (if test then x else y)
Returns-if P true x y h k = h
Returns-if P false x y h k = k

pub Returns-option {ℓ₁ ℓ₂} :
    {A : Type ℓ₁} {B : Type ℓ₂} (P : B → Type 0) (o : Option A) (x : Outcome B) (f : A → Outcome B)
    → Returns P x
    → ((a : A) → Returns P (f a))
    → Returns P (elim o [ none ↦ x | some a ↦ f a ])
Returns-option P none x f h k = h
Returns-option P (some a) x f h k = k a

pub Returns-bool {ℓ} :
    {A : Type ℓ} (P : A → Type 0) (test : Bool) (x y : Outcome A)
    → Returns P x
    → Returns P y
    → Returns P (elim test [ true ↦ x | false ↦ y ])
Returns-bool P true x y h k = h
Returns-bool P false x y h k = k

pub Returns-list {ℓ₁ ℓ₂} :
    {A : Type ℓ₁} {B : Type ℓ₂} (P : B → Type 0) (xs : List A) (x : Outcome B)
    (f : A → List A → Outcome B)
    → Returns P x
    → ((a : A) (rest : List A) → Returns P (f a rest))
    → Returns P (elim xs [ [] ↦ x | a ∷ rest ↦ f a rest ])
Returns-list P [] x f h k = h
Returns-list P (a ∷ rest) x f h k = k a rest

-- Returning at all.
abbrev pub Any {ℓ} : {A : Type ℓ} → A → Type 0
Any a = Unit

pub defined-Returns : (test : Bool) → Returns Any (defined test)
defined-Returns true = tt
defined-Returns false = tt
