-- ===== src/Common/Errors.antt =====
-- A value or an error, and the chain of steps that stops at the first error.
use mathlib.Core.Path.{◌≡◌, refl, subst}
use mathlib.Core.Bool.{Bool, true, false}
use mathlib.Core.Option.{Option, none, some}
use compliance_gateway.Common.Tests.{if◌then◌else◌}

pub data Result {ℓ} (E : Type 0) (A : Type ℓ) : Type ℓ where
  ok : A → Result E A
  err : E → Result E A

infixl 5 ◌>>=◌ ◌>>◌
abbrev pub ◌>>=◌ {ℓ κ} :
    {E : Type 0} {A : Type ℓ} {B : Type κ} → Result E A → (A → Result E B) → Result E B
ok a >>= f = f a
err e >>= f = err e

abbrev pub or_err {ℓ} : {E : Type 0} {A : Type ℓ} → E → Option A → Result E A
or_err e none = err e
or_err e (some a) = ok a

-- Inversion of a successful step.
pub bind_ok {ℓ κ} :
    {E : Type 0} {A : Type ℓ} {B : Type κ} (m : Result E A) (f : A → Result E B) {b : B}
    → (m >>= f) ≡ ok b
    → (a : A) × (m ≡ ok a) × (f a ≡ ok b)
bind_ok (ok a) f h = (a, refl, h)
bind_ok (err e) f h = cc

pub or_err_ok {ℓ} :
    {E : Type 0} {A : Type ℓ} (e : E) (o : Option A) {a : A} → or_err e o ≡ ok a → o ≡ some a
or_err_ok e none h = cc
or_err_ok e (some b) h = cc

abbrev pub ◌>>◌ {ℓ} : {E : Type 0} {B : Type ℓ} → Result E (Unit {0}) → Result E B → Result E B
m >> k = m >>= λ _. k

-- An error unless the test holds.
abbrev pub require : {E : Type 0} → Bool → E → Result E (Unit {0})
require true e = ok tt
require false e = err e

-- The error in other words.
abbrev pub map_err {ℓ} : {E F : Type 0} {A : Type ℓ} → (E → F) → Result E A → Result F A
map_err f (ok a) = ok a
map_err f (err e) = err (f e)

pub map_err_ok {ℓ} :
    {E F : Type 0} {A : Type ℓ} (f : E → F) (r : Result E A) {a : A} → map_err f r ≡ ok a → r ≡ ok a
map_err_ok f (ok b) h = cc
map_err_ok f (err e) h = cc

-- What holds of a value that comes back, if one does.
pub data Holds {ℓ} {E : Type 0} {A : Type ℓ} (P : A → Type 0) : Result E A → Type ℓ where
  holds : {a : A} → P a → Holds P (ok a)
  fails : {e : E} → Holds P (err e)

pub bind_Holds {ℓ κ} :
    {E : Type 0} {A : Type ℓ} {B : Type κ} {P : B → Type 0} (m : Result E A) (f : A → Result E B)
    → ((a : A) → m ≡ ok a → Holds P (f a))
    → Holds P (m >>= f)
bind_Holds (ok a) f h = h a refl
bind_Holds (err e) f h = fails

pub require-Holds {κ} :
    {E : Type 0} {B : Type κ} {P : B → Type 0} (b : Bool) (e : E) (k : Result E B)
    → (b ≡ true → Holds P k)
    → Holds P (require b e >> k)
require-Holds true e k h = h refl
require-Holds false e k h = fails

pub Holds-ok {ℓ} :
    {E : Type 0} {A : Type ℓ} {P : A → Type 0} {r : Result E A} {a : A} → Holds P r → r ≡ ok a → P a
Holds-ok {P} (holds {a = b} p) h = subst P (cc) p
Holds-ok fails h = cc

pub Holds-map {ℓ} :
    {E : Type 0} {A : Type ℓ} {P Q : A → Type 0} {r : Result E A}
    → Holds P r
    → ((a : A) → P a → Q a)
    → Holds Q r
Holds-map (holds {a} p) f = holds (f a p)
Holds-map fails f = fails

pub if_Holds {ℓ} :
    {E : Type 0} {A : Type ℓ} {P : A → Type 0} (b : Bool) (x y : Result E A)
    → (b ≡ true → Holds P x)
    → (b ≡ false → Holds P y)
    → Holds P (if b then x else y)
if_Holds true x y f g = f refl
if_Holds false x y f g = g refl

pub always_Holds {ℓ} :
    {E : Type 0} {A : Type ℓ} {P : A → Type 0} {r : Result E A} → ((a : A) → P a) → Holds P r
always_Holds {r = ok a} h = holds (h a)
always_Holds {r = err e} h = fails

pub or_err-Holds {ℓ} :
    {E : Type 0} {A : Type ℓ} {P : A → Type 0} (e : E) (o : Option A)
    → ((a : A) → o ≡ some a → P a)
    → Holds P (or_err e o)
or_err-Holds e none h = fails
or_err-Holds e (some a) h = holds (h a refl)
