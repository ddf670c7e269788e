-- ===== src/Outcome.antt =====
-- How a call of the frontend ends: with a value, with a thrown `FrontendError`
-- (src/frontend_error.hpp; the message is kept as the reason, unformatted), or in what the
-- language leaves undefined.
use pars_c.Common.{if◌then◌else◌, false, true, Bool, Bytes, ◌≡◌, refl}
use pars_c.Token.{TokenType, Token}

pub data Reason : Type 0 where
  unexpected_token : Reason
  expected : TokenType → TokenType → Reason
  variable_without_type : Reason
  return_outside_function : Reason
  invalid_attribute : Bytes → Reason
  default_parameters_last : Reason
  missing_body : Reason
  duplicate_variant : Reason
  expected_expression : Bytes → Reason
  expected_type : Reason

pub record FrontendError : Type 0 where
  pub token : Token
  pub reason : Reason

pub data Outcome {ℓ} (A : Type ℓ) : Type ℓ where
  ok : A → Outcome A
  thrown : FrontendError → Outcome A
  undefined : Outcome A

infixl 5 ◌>>=◌
abbrev pub ◌>>=◌ {ℓ κ} : {A : Type ℓ} {B : Type κ} → Outcome A → (A → Outcome B) → Outcome B
undefined >>= next = undefined
thrown error >>= next = thrown error
ok value >>= next = next value

-- A chain that returns has a first call that returned.
pub >>=-eq-ok {ℓ κ} :
    {A : Type ℓ} {B : Type κ} (call : Outcome A) (next : A → Outcome B) {result : B}
    → (call >>= next) ≡ ok result
    → (value : A) × (call ≡ ok value) × (next value ≡ ok result)
>>=-eq-ok undefined next h = cc
>>=-eq-ok (thrown error) next h = cc
>>=-eq-ok (ok value) next h = (value, refl, h)

pub ok-injective {ℓ} : {A : Type ℓ} {a b : A} → ok a ≡ ok b → a ≡ b
ok-injective e = cc

-- If the call returns, what it returns has the property.
abbrev pub Always : {A : Type 0} → (A → Type 0) → Outcome A → Type 0
Always P (ok a) = P a
Always P (thrown e) = Unit
Always P undefined = Unit

pub >>=-Always :
    {A B : Type 0} (P : A → Type 0) (Q : B → Type 0) (m : Outcome A) (f : A → Outcome B)
    → Always P m
    → ((a : A) → P a → Always Q (f a))
    → Always Q (m >>= f)
>>=-Always P Q (ok a) f h k = k a h
>>=-Always P Q (thrown e) f h k = tt
>>=-Always P Q undefined f h k = tt

pub Always-map :
    {A : Type 0} (P Q : A → Type 0) (o : Outcome A)
    → Always P o
    → ((a : A) → P a → Q a)
    → Always Q o
Always-map P Q (ok a) h k = k a h
Always-map P Q (thrown e) h k = tt
Always-map P Q undefined h k = tt

pub if-Always :
    {A : Type 0} (P : A → Type 0) (b : Bool) (x y : Outcome A)
    → Always P x
    → Always P y
    → Always P (if b then x else y)
if-Always P true x y h k = h
if-Always P false x y h k = k

-- The same, for a call that is not computed.
pub record Ensures {A : Type 0} (P : A → Type 0) (m : Outcome A) : Type 0 where
  pub holds : Always P m

pub if-Ensures :
    {A : Type 0} {P : A → Type 0} (b : Bool) (x y : Outcome A)
    → Always P x
    → Ensures P y
    → Ensures P (if b then x else y)
if-Ensures {P} b x y h k = record { holds = if-Always P b x y h k.holds }
