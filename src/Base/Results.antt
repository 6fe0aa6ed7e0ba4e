-- ===== src/Base/Results.antt =====
-- Results with an error, and the chains of steps that may fail.
use mathlib.Core.Path.{◌≡◌, refl}
use mathlib.Core.Bool.{Bool, true, false}
use mathlib.Core.Option.{Option, none, some}

pub data Result {ℓ} (E A : Type ℓ) : Type ℓ where
  ok : A → Result E A
  err : E → Result E A

abbrev pub and_then {ℓ} : {E A B : Type ℓ} → Result E A → (A → Result E B) → Result E B
and_then (ok a) f = f a
and_then (err e) f = err e

abbrev pub or_error {ℓ} : {E A : Type ℓ} → E → Option A → Result E A
or_error e none = err e
or_error e (some a) = ok a

abbrev pub guard : {E : Type 0} → E → Bool → Result E (Unit {0})
guard e true = ok tt
guard e false = err e

-- Inversion of a successful chain.
pub and_then-eq-ok {ℓ} :
    {E A B : Type ℓ} (m : Result E A) (f : A → Result E B) {b : B}
    → and_then m f ≡ ok b
    → (a : A) × (m ≡ ok a) × (f a ≡ ok b)
and_then-eq-ok (ok a) f h = (a, refl, h)
and_then-eq-ok (err e) f h = cc

infixl 5 ◌>>=◌ ◌>>◌
abbrev pub ◌>>=◌ {ℓ} : {E A B : Type ℓ} → Result E A → (A → Result E B) → Result E B
ok a >>= f = f a
err e >>= f = err e

abbrev pub ◌>>◌ : {E B : Type 0} → Result E (Unit {0}) → Result E B → Result E B
m >> k = m >>= λ _. k

-- Inversion of a test that was passed.
pub guard-eq-ok : {E : Type 0} (e : E) (b : Bool) {u : Unit {0}} → guard e b ≡ ok u → b ≡ true
guard-eq-ok e true h = refl
guard-eq-ok e false h = cc

pub >>=-eq-ok {ℓ} :
    {E A B : Type ℓ} (r : Result E A) (next : A → Result E B) {c : B}
    → (r >>= next) ≡ ok c
    → (x : A) × (r ≡ ok x) × (next x ≡ ok c)
>>=-eq-ok (err e) next h = cc
>>=-eq-ok (ok x) next h = (x, refl, h)

pub ok_inj {ℓ} : {E A : Type ℓ} {a b : A} → ◌≡◌ {A = Result E A} (ok a) (ok b) → a ≡ b
ok_inj h = cc

-- A property of the value of a result, if it has one.
abbrev pub Then {ℓ κ} : {E A : Type ℓ} → (A → Type κ) → Result E A → Type κ
Then P (ok a) = P a
Then P (err e) = Unit

abbrev pub Anything {ℓ} : {A : Type ℓ} → A → Type 0
Anything a = Unit {0}

pub Then-Anything : {E A : Type 0} (r : Result E A) → Then Anything r
Then-Anything (ok a) = tt
Then-Anything (err e) = tt

pub Then->>= {ℓ κ} :
    {E A B : Type ℓ} (P : A → Type κ) (Q : B → Type κ) (r : Result E A) (f : A → Result E B)
    → Then P r
    → ((a : A) → P a → Then Q (f a))
    → Then Q (r >>= f)
Then->>= P Q (ok a) f p h = h a p
Then->>= P Q (err e) f p h = tt

pub Then-map {ℓ κ μ} :
    {E A : Type ℓ} (P : A → Type κ) (Q : A → Type μ) (r : Result E A)
    → Then P r
    → ((a : A) → P a → Q a)
    → Then Q r
Then-map P Q (ok a) p h = h a p
Then-map P Q (err e) p h = tt

pub Then-guard :
    {E A : Type 0} (Q : A → Type 0) (e : E) (b : Bool) (r : Result E A)
    → (b ≡ true → Then Q r)
    → Then Q (guard e b >> r)
Then-guard Q e true r h = h refl
Then-guard Q e false r h = tt

pub Then-ok {ℓ κ} :
    {E A : Type ℓ} (P : A → Type κ) (r : Result E A) (a : A) → Then P r → r ≡ ok a → P a
Then-ok P (ok b) a p e = rw (← ok_inj e) p
Then-ok P (err x) a p e = cc
