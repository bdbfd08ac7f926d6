-- ===== src/Prelude/Raise.antt =====
-- A function that returns a value or raises one of its own refusals.
use mathlib.Core.Path.{◌≡◌, refl}
use mathlib.Core.Bool.{Bool, true, false}
use mathlib.Core.Logic.{◌≢◌, ◌⊎◌, inl, inr}
use native.Mathlib.Omega.{arith}

pub data Result (E A : Type 0) : Type 0 where
  ok : A → Result E A
  err : E → Result E A

-- What follows a call runs on its value; a refusal passes through.
infixl 5 ◌>>=◌
abbrev pub ◌>>=◌ : {Why V W : Type 0} → Result Why V → (V → Result Why W) → Result Why W
err why >>= next = err why
ok v >>= next = next v

-- `if test: raise e`
abbrev pub refuse_if : {E : Type 0} → Bool → E → Result E (Unit {0})
refuse_if true e = err e
refuse_if false e = ok tt

pub Result-cases :
    {E A : Type 0} (r : Result E A) → ((a : A) × (r ≡ ok a)) ⊎ ((e : E) × (r ≡ err e))
Result-cases (ok a) = inl (a, refl)
Result-cases (err e) = inr (e, refl)

-- A call whose continuation returned has itself returned.
pub >>=-eq-ok :
    {Why V W : Type 0} (call : Result Why V) (next : V → Result Why W) {w : W}
    → (call >>= next) ≡ ok w
    → (v : V) × (call ≡ ok v) × (next v ≡ ok w)
>>=-eq-ok (err why) next h = absurd (let bad : err why ≡ ok _ = h in cc)
>>=-eq-ok (ok v) next h = (v, refl, h)

-- A statement whose value is not used.
infixl 5 ◌>>◌
abbrev pub ◌>>◌ : {Why W : Type 0} → Result Why (Unit {0}) → Result Why W → Result Why W
first >> second = first >>= (λ done. second)

-- A refusal that was passed, and what follows it.
pub refuse_if-eq-ok :
    {E B : Type 0} (test : Bool) (e : E) (k : Result E B) {b : B}
    → (refuse_if test e >> k) ≡ ok b
    → (test ≡ false) × (k ≡ ok b)
refuse_if-eq-ok true e k h = cc
refuse_if-eq-ok false e k h = (refl, h)

pub >>=-eq-err :
    {E A B : Type 0} (m : Result E A) (f : A → Result E B) {e : E}
    → (m >>= f) ≡ err e
    → (m ≡ err e) ⊎ ((a : A) × (m ≡ ok a) × (f a ≡ err e))
>>=-eq-err (ok a) f h = inr (a, refl, h)
>>=-eq-err (err e) f h = inl (ground arith)

-- An error that a refusal does not make comes after it.
pub refuse_if-eq-err :
    {E B : Type 0} (test : Bool) (e : E) (k : Result E B) {x : E}
    → e ≢ x
    → (refuse_if test e >> k) ≡ err x
    → (test ≡ false) × (k ≡ err x)
refuse_if-eq-err true e k d h = absurd (d (ground arith))
refuse_if-eq-err false e k d h = (refl, h)

-- What is returned is one value.
pub ok_inj : {E A : Type 0} {a b : A} → ◌≡◌ {A = Result E A} (ok a) (ok b) → a ≡ b
ok_inj h = cc h
