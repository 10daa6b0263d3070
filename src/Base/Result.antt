-- ===== src/Base/Result.antt =====
-- Exceptions: the HTTP exceptions of NestJS and plain errors, as the error case of a result.
use Prim.Native.String.{String}
use mathlib.Core.Path.{◌≡◌, refl}
use mathlib.Core.Bool.{Bool, true, false}

-- `BadRequestException` and so on, with their messages; `plain` is `new Error(message)`.
pub data Error : Type 0 where
  bad_request unauthorized forbidden not_found conflict plain : String → Error

abbrev pub message : Error → String
message (bad_request s) = s
message (unauthorized s) = s
message (forbidden s) = s
message (not_found s) = s
message (conflict s) = s
message (plain s) = s

-- What a call ends with: it returns, or it throws.
pub data Result {ℓ} (T : Type ℓ) : Type ℓ where
  err : Error → Result T
  ok : T → Result T

infixl 5 ◌>>=◌
abbrev pub ◌>>=◌ {ℓ κ} : {T : Type ℓ} {S : Type κ} → Result T → (T → Result S) → Result S
err thrown >>= rest = err thrown
ok value >>= rest = rest value

-- `if (!test) throw error`
abbrev pub require : Bool → Error → Result (Unit {0})
require passed error = elim passed [ true ↦ ok tt | false ↦ err error ]

infixl 5 ◌>>◌
abbrev pub ◌>>◌ {ℓ} : {S : Type ℓ} → Result (Unit {0}) → Result S → Result S
err thrown >> rest = err thrown
ok done >> rest = rest

pub of_ok {ℓ} : {A : Type ℓ} {a b : A} → ok a ≡ ok b → a ≡ b
of_ok h = cc

-- A chain that returned went through its first part.
pub >>=-eq-ok {ℓ κ} :
    {T : Type ℓ} {S : Type κ} (first : Result T) (rest : T → Result S) {value : S}
    → (first >>= rest) ≡ ok value
    → (t : T) × (first ≡ ok t) × (rest t ≡ ok value)
>>=-eq-ok (err thrown) rest h = cc
>>=-eq-ok (ok t) rest h = (t, refl, h)

pub >>-eq-ok {ℓ} :
    {S : Type ℓ} (first : Result (Unit {0})) (rest : Result S) {value : S}
    → (first >> rest) ≡ ok value
    → (first ≡ ok tt) × (rest ≡ ok value)
>>-eq-ok (err thrown) rest h = cc
>>-eq-ok (ok tt) rest h = (refl, h)

-- A guard that was passed.
pub require_inv {ℓ} :
    {A : Type ℓ} (b : Bool) (e : Error) (k : Result A) {x : A}
    → (require b e >> k) ≡ ok x
    → (b ≡ true) × (k ≡ ok x)
require_inv true e k h = (refl, h)
require_inv false e k h = absurd (cc)
