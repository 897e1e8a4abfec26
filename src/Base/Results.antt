-- ===== src/Base/Results.antt =====
-- Outcomes of code that raises: one constructor of `Failure` for each exception class.
use mathlib.Core.Path.{◌≡◌, refl, ap, ◌∙◌}
use mathlib.Core.Bool.{Bool, true, false}
use mathlib.Core.Option.{Option, none, some}

pub data Failure : Type 0 where
  value_error runtime_error key_error index_error assertion_error : Failure
  stale_preview admission_unavailable lease_transition journal_unavailable : Failure

pub data Result {ℓ} (A : Type ℓ) : Type ℓ where
  raised : Failure → Result A
  ok : A → Result A

infixl 5 ◌>>=◌ ◌>>◌
abbrev pub ◌>>=◌ {ℓ κ} : {A : Type ℓ} {B : Type κ} → Result A → (A → Result B) → Result B
raised e >>= f = raised e
ok a >>= f = f a

abbrev pub ◌>>◌ {ℓ κ} : {A : Type ℓ} {B : Type κ} → Result A → Result B → Result B
m >> k = m >>= λ _. k

-- `if test: raise failure`
abbrev pub raise_if : Bool → Failure → Result (Unit {0})
raise_if true e = raised e
raise_if false e = ok tt

abbrev pub or_raise {ℓ} : {A : Type ℓ} → Option A → Failure → Result A
or_raise none e = raised e
or_raise (some a) e = ok a

pub >>=-eq-ok {ℓ κ} :
    {A : Type ℓ} {B : Type κ} (first : Result A) (rest : A → Result B) {y : B}
    → (first >>= rest) ≡ ok y
    → (x : A) × (first ≡ ok x) × (rest x ≡ ok y)
>>=-eq-ok (raised e) f h = cc
>>=-eq-ok (ok a) f h = (a, refl, h)

pub ok-injective {ℓ} : {A : Type ℓ} {a b : A} → ok a ≡ ok b → a ≡ b
ok-injective h = cc

pub raise_if-eq-ok : (b : Bool) (e : Failure) {u : Unit {0}} → raise_if b e ≡ ok u → b ≡ false
raise_if-eq-ok true e h = cc
raise_if-eq-ok false e h = refl

pub ok_some-injective {ℓ} : {A : Type ℓ} {a b : A} → ok (some a) ≡ ok (some b) → a ≡ b
ok_some-injective h = cc

-- The other way round: a bind whose first step returns.
pub >>=-of-ok {ℓ κ} :
    {A : Type ℓ} {B : Type κ} (m : Result A) (f : A → Result B) {a : A} {r : Result B}
    → m ≡ ok a
    → f a ≡ r
    → (m >>= f) ≡ r
>>=-of-ok (ok a) f {a = b} e h = ap f (ok-injective e) ∙ h
>>=-of-ok (raised x) f e h = cc

-- A guard that was passed.
pub guard-eq-ok {ℓ} :
    {A : Type ℓ} (b : Bool) (e : Failure) (m : Result A) {a : A}
    → (raise_if b e >> m) ≡ ok a
    → (b ≡ false) × (m ≡ ok a)
guard-eq-ok true e m h = cc
guard-eq-ok false e m h = (refl, h)

-- A value that had to be there was there.
pub or_raise-eq-ok {ℓ κ} :
    {A : Type ℓ} {B : Type κ} (o : Option A) (e : Failure) (f : A → Result B) {b : B}
    → (or_raise o e >>= f) ≡ ok b
    → (a : A) × (o ≡ some a) × (f a ≡ ok b)
or_raise-eq-ok none e f h = cc
or_raise-eq-ok (some a) e f h = (a, refl, h)
