-- ===== src/Result.antt =====
-- How code ends that may also exit the emulator: `exited` is a call of `exit`, `fault` an access that
-- has no behaviour, and `out_of_fuel` a loop or a recursion that was cut off.
use mathlib.Core.Path.{subst}
use t89emu.Common.{Option, none, some, Bool, true, false, if◌then◌else◌, Ensures, ◌≡◌, ◌≢◌, refl}

pub data Result {ℓ} (A : Type ℓ) : Type ℓ where
  ok : A → Result A
  exited fault out_of_fuel : Result A

infixl 5 ◌>>=◌
abbrev pub ◌>>=◌ {ℓ κ} : {A : Type ℓ} {B : Type κ} → Result A → (A → Result B) → Result B
ok a >>= f = f a
exited >>= f = exited
fault >>= f = fault
out_of_fuel >>= f = out_of_fuel

-- Code that cannot exit.
abbrev pub lift {ℓ} : {A : Type ℓ} → Option A → Result A
lift none = fault
lift (some a) = ok a

-- The run is not cut off, and what holds of a value, if there is one.
abbrev pub Ends {ℓ} : {A : Type ℓ} → (A → Type 0) → Result A → Type 0
Ends P (ok a) = P a
Ends P exited = Unit
Ends P fault = Unit
Ends P out_of_fuel = ⊥

pub Ends-bind {ℓ κ} :
    {A : Type ℓ} {B : Type κ} (Q : A → Type 0) (P : B → Type 0) (m : Result A) (f : A → Result B)
    → Ends Q m
    → ((a : A) → Q a → Ends P (f a))
    → Ends P (m >>= f)
Ends-bind Q P (ok a) f q k = k a q
Ends-bind Q P exited f q k = tt
Ends-bind Q P fault f q k = tt
Ends-bind Q P out_of_fuel f q k = absurd q

pub Ends-lift {ℓ} : {A : Type ℓ} (P : A → Type 0) (m : Option A) → Ensures P m → Ends P (lift m)
Ends-lift P none h = tt
Ends-lift P (some a) h = h

pub Ends-mono {ℓ} :
    {A : Type ℓ} (Q : A → Type 0) (P : A → Type 0) (m : Result A)
    → ((a : A) → Q a → P a)
    → Ends Q m
    → Ends P m
Ends-mono Q P (ok a) f q = f a q
Ends-mono Q P exited f q = tt
Ends-mono Q P fault f q = tt
Ends-mono Q P out_of_fuel f q = absurd q

pub Ends-if {ℓ} :
    {A : Type ℓ} (P : A → Type 0) (b : Bool) (x y : Result A)
    → (b ≡ true → Ends P x)
    → (b ≡ false → Ends P y)
    → Ends P (if b then x else y)
Ends-if P true x y p q = p refl
Ends-if P false x y p q = q refl

pub Ends-option {ℓ κ} :
    {A : Type ℓ} {B : Type κ} (P : B → Type 0) (o : Option A) (x : Result B) (f : A → Result B)
    → Ends P x
    → ((a : A) → Ends P (f a))
    → Ends P (elim o [ none ↦ x | some a ↦ f a ])
Ends-option P none x f p q = p
Ends-option P (some a) x f p q = q a

pub Ends-ne {ℓ} : {A : Type ℓ} (P : A → Type 0) (m : Result A) → Ends P m → m ≢ out_of_fuel
Ends-ne P (ok a) h e = cc
Ends-ne P exited h e = cc
Ends-ne P fault h e = cc
Ends-ne P out_of_fuel h e = absurd h

pub Ends-bool {ℓ} :
    {A : Type ℓ} (P : A → Type 0) (b : Bool) (x y : Result A)
    → Ends P x
    → Ends P y
    → Ends P (elim b [ true ↦ x | false ↦ y ])
Ends-bool P true x y p q = p
Ends-bool P false x y p q = q

pub Ends-ok {ℓ} : {A : Type ℓ} (P : A → Type 0) (m : Result A) {a : A} → Ends P m → m ≡ ok a → P a
Ends-ok P (ok b) h e = subst P (cc) h
Ends-ok P exited h e = absurd (cc)
Ends-ok P fault h e = absurd (cc)
Ends-ok P out_of_fuel h e = absurd h

-- A result that ends is the value it has.
pub Ends-self : {A : Type 0} (m : Result A) → Ends (λ _. Unit {0}) m → Ends (λ a. m ≡ ok a) m
Ends-self (ok a) h = refl
Ends-self exited h = tt
Ends-self fault h = tt
Ends-self out_of_fuel h = absurd h
