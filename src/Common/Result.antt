-- ===== src/Common/Result.antt =====
-- common/errors/ApiError.ts: a handler answers a value or throws one of the API's error kinds
-- (their message texts are not modelled), or the database refuses a row (Prisma's P2002).
use geeta_backend.Common.{Bool, true, false, Option, none, some, ◌≡◌, refl, ap, ◌⊎◌, inl, inr}

pub data ApiError : Type 0 where
  bad_request forbidden not_found conflict internal unique_violation : ApiError

pub data Result {ℓ} (A : Type ℓ) : Type ℓ where
  err : ApiError → Result A
  ok : A → Result A

-- `if (c) throw e`
abbrev pub throw_if : Bool → ApiError → Result (Unit {0})
throw_if false e = ok tt
throw_if true e = err e

-- `if (!row) throw e`
abbrev pub or_throw {ℓ} : {A : Type ℓ} → Option A → ApiError → Result A
or_throw (some row) e = ok row
or_throw none e = err e

module _ {ℓ κ} {A : Type ℓ} {B : Type κ} where
  infixl 5 ◌>>=◌
  abbrev pub ◌>>=◌ : Result A → (A → Result B) → Result B
  err thrown >>= next = err thrown
  ok value >>= next = next value

module _ {ℓ} {B : Type ℓ} where
  infixl 5 ◌>>◌
  abbrev pub ◌>>◌ : Result (Unit {0}) → Result B → Result B
  check >> next = check >>= λ _. next

-- Inversions of a chain that succeeded.
module _ {ℓ κ} {A : Type ℓ} {B : Type κ} where
  pub >>=-eq-ok :
      (first : Result A) (next : A → Result B) {answer : B}
      → first >>= next ≡ ok answer
      → (value : A) × (first ≡ ok value) × (next value ≡ ok answer)
  >>=-eq-ok (err thrown) next h = cc
  >>=-eq-ok (ok value) next h = (value, refl, h)

pub throw_if-eq-ok : (b : Bool) (e : ApiError) {u : Unit {0}} → throw_if b e ≡ ok u → b ≡ false
throw_if-eq-ok true e h = cc
throw_if-eq-ok false e h = refl

pub or_throw-eq-ok {ℓ} :
    {A : Type ℓ} (o : Option A) (e : ApiError) {a : A} → or_throw o e ≡ ok a → o ≡ some a
or_throw-eq-ok none e h = cc
or_throw-eq-ok (some a) e h = cc

pub ok_eq {ℓ} : {A : Type ℓ} {a b : A} → ok a ≡ ok b → a ≡ b
ok_eq {a = a} h = ap (λ r. elim r [ ok x ↦ x | err _ ↦ a ]) h

-- A guard that let the chain go on.
pub throw_if_passes {ℓ} :
    {B : Type ℓ} (b : Bool) (e : ApiError) (next : Unit {0} → Result B) {answer : B}
    → throw_if b e >>= next ≡ ok answer
    → (b ≡ false) × (next tt ≡ ok answer)
throw_if_passes true e next h = cc
throw_if_passes false e next h = (refl, h)

pub Result-cases {ℓ} :
    {A : Type ℓ} (r : Result A) → ((e : ApiError) × (r ≡ err e)) ⊎ ((a : A) × (r ≡ ok a))
Result-cases (err e) = inl (e, refl)
Result-cases (ok a) = inr (a, refl)
