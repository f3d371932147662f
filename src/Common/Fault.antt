-- ===== src/Common/Fault.antt =====
-- Code that may have no behaviour: `none` is an access out of bounds, a shift by the width or more,
-- or a read of a variable that was never written.
use mathlib.Core.Path.{◌≡◌, refl, subst}
use mathlib.Core.Bool.{Bool, true, false}
use t89emu.Common.Tests.{if◌then◌else◌}
use mathlib.Core.Option.{Option, none, some}
use mathlib.Core.List.{List, [], ◌∷◌}
use Prim.Native.Nat.{ℕ, zero, suc}
use t89emu.Common.Lists.{All, get_elem?}

infixl 5 ◌>>=◌ ◌>>◌
abbrev pub ◌>>=◌ {ℓ κ} : {A : Type ℓ} {B : Type κ} → Option A → (A → Option B) → Option B
none >>= f = none
some a >>= f = f a

abbrev pub ◌>>◌ {ℓ κ} : {A : Type ℓ} {B : Type κ} → Option A → Option B → Option B
m >> k = m >>= λ _. k

-- What holds of a result, if there is one.
abbrev pub Ensures {ℓ κ} : {A : Type ℓ} → (A → Type κ) → Option A → Type κ
Ensures P none = Unit
Ensures P (some a) = P a

pub Ensures-bind {ℓ κ μ ν} :
    {A : Type ℓ} {B : Type κ} (Q : A → Type μ) (P : B → Type ν) (m : Option A) (f : A → Option B)
    → Ensures Q m
    → ((a : A) → Q a → Ensures P (f a))
    → Ensures P (m >>= f)
Ensures-bind Q P none f q k = tt
Ensures-bind Q P (some a) f q k = k a q

pub Ensures-some {ℓ κ} :
    {A : Type ℓ} (P : A → Type κ) (m : Option A) {a : A} → Ensures P m → m ≡ some a → P a
Ensures-some P none h e = cc
Ensures-some P (some b) h e = subst P (cc) h

pub Ensures-get {ℓ κ} :
    {A : Type ℓ} (P : A → Type κ) (m : Option A)
    → ¬ (m ≡ none)
    → Ensures P m
    → (a : A) × (m ≡ some a) × P a
Ensures-get P none h e = absurd (h refl)
Ensures-get P (some a) h e = (a, refl, e)

pub Ensures-mono {ℓ κ μ} :
    {A : Type ℓ} (P : A → Type κ) (Q : A → Type μ) (m : Option A)
    → ((a : A) → P a → Q a)
    → Ensures P m
    → Ensures Q m
Ensures-mono P Q none f e = tt
Ensures-mono P Q (some a) f e = f a e

pub Ensures-if {ℓ κ} :
    {A : Type ℓ} (P : A → Type κ) (b : Bool) (x y : Option A)
    → (b ≡ true → Ensures P x)
    → (b ≡ false → Ensures P y)
    → Ensures P (if b then x else y)
Ensures-if P true x y p q = p refl
Ensures-if P false x y p q = q refl

pub Ensures_trivial {ℓ κ} : {A : Type ℓ} (m : Option A) → Ensures (λ _. Unit {κ}) m
Ensures_trivial none = tt
Ensures_trivial (some a) = tt

-- An element of a list all of whose elements have a property.
pub All-get :
    {A : Type 0} (P : A → Type 0) (xs : List A) (i : ℕ) → All P xs → Ensures P (get_elem? xs i)
All-get P [] i h = tt
All-get P (x ∷ xs) zero h = h.0
All-get P (x ∷ xs) (suc i) h = All-get P xs i h.1
