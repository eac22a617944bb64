-- ===== src/Prelude/Errors.antt =====
-- Pointers, faults and results of loops.
use Prim.Native.Nat.{ℕ}
use mathlib.Core.Option.{Option, none, some}
use mathlib.Core.Bool.{Bool, true, false}
use mathlib.Core.Path.{◌≡◌, refl}
use liblsp.Prelude.Tests.{◌==◌, if◌then◌else◌}

abbrev pub Ptr : Type 0
Ptr = ℕ

abbrev pub null : Ptr
null = 0

-- A pointer-indexed memory after a store.
abbrev pub update {ℓ} : {A : Type ℓ} → (Ptr → A) → Ptr → A → Ptr → A
update f p v q = if p == q then v else f q

-- What is stored at `p` is there, and nowhere else.
pub update_here {ℓ} :
    {A : Type ℓ} (f : Ptr → A) (p : Ptr) (v : A) (q : Ptr) → (p == q) ≡ true → update f p v q ≡ v
update_here f p v q e = rw e refl

pub update_else {ℓ} :
    {A : Type ℓ} (f : Ptr → A) (p : Ptr) (v : A) (q : Ptr) → (p == q) ≡ false → update f p v q ≡ f q
update_else f p v q e = rw e refl

-- What a loop ends with: a value, an access through a bad pointer, or its fuel spent.
pub data Run {ℓ} (A : Type ℓ) : Type ℓ where
  ok : A → Run A
  fault : Run A
  out_of_fuel : Run A

-- A chain of accesses of which each may be a fault (`none`).
infixl 5 ◌>>=◌
abbrev pub ◌>>=◌ {ℓ κ} : {A : Type ℓ} {B : Type κ} → Option A → (A → Option B) → Option B
none >>= f = none
some a >>= f = f a

abbrev pub and_then {ℓ κ} : {A : Type ℓ} {B : Type κ} → Run A → (A → Run B) → Run B
and_then (ok a) f = f a
and_then fault f = fault
and_then out_of_fuel f = out_of_fuel

-- An access that may be a fault, as a run.
abbrev pub access {ℓ} : {A : Type ℓ} → Option A → Run A
access none = fault
access (some a) = ok a

-- What holds of the value that a run gives.
abbrev pub AllOk {ℓ κ} : {A : Type ℓ} → (A → Type κ) → Run A → Type κ
AllOk P (ok a) = P a
AllOk P fault = Unit
AllOk P out_of_fuel = Unit

pub AllOk-and_then {ℓ κ μ} :
    {A : Type ℓ} {B : Type κ} (Q : B → Type μ) (r : Run A) (f : A → Run B)
    → ((a : A) → AllOk Q (f a))
    → AllOk Q (and_then r f)
AllOk-and_then Q (ok a) f h = h a
AllOk-and_then Q fault f h = tt
AllOk-and_then Q out_of_fuel f h = tt

pub AllOk-and_then_of {ℓ κ μ ν} :
    {A : Type ℓ} {B : Type κ} (P : A → Type ν) (Q : B → Type μ) (r : Run A) (f : A → Run B)
    → AllOk P r
    → ((a : A) → P a → AllOk Q (f a))
    → AllOk Q (and_then r f)
AllOk-and_then_of P Q (ok a) f p h = h a p
AllOk-and_then_of P Q fault f p h = tt
AllOk-and_then_of P Q out_of_fuel f p h = tt

-- Whichever branch a test takes.
pub of_branches {ℓ κ} :
    {A : Type ℓ} (P : A → Type κ) (b : Bool) {x y : A} → P x → P y → P (if b then x else y)
of_branches P true px py = px
of_branches P false px py = py
