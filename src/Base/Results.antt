-- ===== src/Base/Results.antt =====
-- A computation that may throw, with the error as a value.
use mathlib.Core.Path.{◌≡◌, refl}
use mathlib.Core.Bool.{Bool, true, false}
use mathlib.Core.Option.{Option, none, some}

pub data Result {ℓ} (E : Type 0) (A : Type ℓ) : Type ℓ where
  ok : A → Result E A
  err : E → Result E A

-- The rest of a body runs on the value, and an error passes it by.
infixl 5 ◌>>=◌ ◌>>◌
abbrev pub ◌>>=◌ {ℓ κ} :
    {E : Type 0} {A : Type ℓ} {B : Type κ} → Result E A → (A → Result E B) → Result E B
err thrown >>= rest = err thrown
ok value >>= rest = rest value

abbrev pub ◌>>◌ {ℓ} : {E : Type 0} {B : Type ℓ} → Result E (Unit {0}) → Result E B → Result E B
check >> rest = check >>= λ _. rest

-- `if (!test) throw e`
abbrev pub require : {E : Type 0} → Bool → E → Result E (Unit {0})
require false thrown = err thrown
require true thrown = ok tt

-- `if (value === undefined) throw e`
abbrev pub require_some {ℓ} : {E : Type 0} {A : Type ℓ} → Option A → E → Result E A
require_some none e = err e
require_some (some a) e = ok a

pub >>=-eq-ok {ℓ κ} :
    {E : Type 0} {A : Type ℓ} {B : Type κ} (first : Result E A) (rest : A → Result E B) {b : B}
    → (first >>= rest) ≡ ok b
    → (a : A) × (first ≡ ok a) × (rest a ≡ ok b)
>>=-eq-ok (err thrown) rest h = cc
>>=-eq-ok (ok value) rest h = (value, refl, h)

-- A step that succeeds is passed over.
pub >>=-ok {ℓ κ} :
    {E : Type 0} {A : Type ℓ} {B : Type κ} {first : Result E A} (rest : A → Result E B) {a : A}
    {r : Result E B}
    → first ≡ ok a
    → rest a ≡ r
    → (first >>= rest) ≡ r
>>=-ok rest h k = rw h k

pub ok-injective {ℓ} :
    {E : Type 0} {A : Type ℓ} {a b : A} → ◌≡◌ {A = Result E A} (ok a) (ok b) → a ≡ b
ok-injective h = cc

pub require-ok {ℓ} :
    {E : Type 0} {B : Type ℓ} (test : Bool) (e : E) {k : Result E B} {b : B}
    → (require test e >> k) ≡ ok b
    → (test ≡ true) × (k ≡ ok b)
require-ok true e h = (refl, h)
require-ok false e h = cc

-- A guard that holds is passed over.
pub require-then {ℓ} :
    {E : Type 0} {B : Type ℓ} {test : Bool} (e : E) {k r : Result E B}
    → test ≡ true
    → k ≡ r
    → (require test e >> k) ≡ r
require-then e h k = rw h k

pub require-true :
    {E : Type 0} (test : Bool) (e : E) {b : Unit {0}} → require test e ≡ ok b → test ≡ true
require-true true e h = refl
require-true false e h = cc

pub require_some-ok {ℓ} :
    {E : Type 0} {A : Type ℓ} (o : Option A) (e : E) {a : A} → require_some o e ≡ ok a → o ≡ some a
require_some-ok none e h = cc
require_some-ok (some b) e h = cc
