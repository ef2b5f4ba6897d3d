-- ===== src/Prelude/Panic.antt =====
-- A computation that may panic: `none` is the panic. The blocks `do` of such code use these.
use mathlib.Core.Path.{◌≡◌, refl, subst}
use mathlib.Core.Option.{Option, none, some}

infixl 5 ◌>>=◌ ◌>>◌
abbrev pub ◌>>=◌ {ℓ κ} : {A : Type ℓ} {B : Type κ} → Option A → (A → Option B) → Option B
none >>= f = none
some a >>= f = f a

abbrev pub ◌>>◌ {ℓ} : {B : Type ℓ} → Option (Unit {0}) → Option B → Option B
m >> k = m >>= λ _. k

-- What holds of the value, if there is one.
abbrev pub Holds {ℓ κ} : {A : Type ℓ} → (A → Type κ) → Option A → Type κ
Holds P none = Unit
Holds P (some a) = P a

pub Holds-bind {ℓ κ μ ν} :
    {A : Type ℓ} {B : Type κ} (P : A → Type μ) (Q : B → Type ν) (m : Option A) (k : A → Option B)
    → Holds P m
    → ((a : A) → P a → Holds Q (k a))
    → Holds Q (m >>= k)
Holds-bind P Q none k h next = tt
Holds-bind P Q (some a) k h next = next a h

-- The checks between do not matter.
pub Holds-after {ℓ κ} :
    {A : Type ℓ} (P : A → Type κ) (check : Option (Unit {0})) (a : A)
    → P a
    → Holds P (check >> some a)
Holds-after P none a h = tt
Holds-after P (some _) a h = h

pub Holds-some {ℓ κ} :
    {A : Type ℓ} (P : A → Type κ) (m : Option A) (a : A) → Holds P m → m ≡ some a → P a
Holds-some P m a h e = subst (Holds P) e h

pub Holds-intro {ℓ κ} :
    {A : Type ℓ} (P : A → Type κ) (m : Option A) → ((a : A) → m ≡ some a → P a) → Holds P m
Holds-intro P none h = tt
Holds-intro P (some a) h = h a refl

pub Holds-mono {ℓ κ μ} :
    {A : Type ℓ} (P : A → Type κ) (Q : A → Type μ)
    → ((a : A) → P a → Q a)
    → (m : Option A) → Holds P m
    → Holds Q m
Holds-mono P Q h none p = tt
Holds-mono P Q h (some a) p = h a p

-- With the equation that names the value.
pub Holds-equation {ℓ κ} :
    {A : Type ℓ} (P : A → Type κ) (m : Option A) → Holds P m → Holds (λ a. (m ≡ some a) × P a) m
Holds-equation P none h = tt
Holds-equation P (some a) h = (refl, h)

-- The predicate that asks nothing.
abbrev pub Anything : {A : Type 0} → A → Type 0
Anything _ = Unit {0}

pub anything : {A : Type 0} (m : Option A) → Holds Anything m
anything none = tt
anything (some a) = tt
