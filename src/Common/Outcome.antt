-- ===== src/Common/Outcome.antt =====
-- The outcome of code that walks memory through raw pointers in loops.
use mathlib.Core.Path.{◌≡◌, refl, subst}
use mathlib.Core.Logic.{◌≢◌}
use mathlib.Core.Bool.{Bool, true, false}
use nexus_rpc.Common.Tests.{if◌then◌else◌}

-- `refused` is an early `return` of an error code; `out_of_bounds` is a read past the readable memory, which C++ leaves undefined.
-- `out_of_fuel` has no counterpart in the program.
pub data Outcome {ℓ} (A : Type ℓ) : Type ℓ where
  done : A → Outcome A
  refused : Outcome A
  out_of_bounds : Outcome A
  out_of_fuel : Outcome A

infixl 5 ◌>>=◌
abbrev pub ◌>>=◌ {ℓ κ} : {A : Type ℓ} {B : Type κ} → Outcome A → (A → Outcome B) → Outcome B
done a >>= f = f a
refused >>= f = refused
out_of_bounds >>= f = out_of_bounds
out_of_fuel >>= f = out_of_fuel

-- The caller's reaction to an early return, and its way on.
abbrev pub on_refusal {ℓ κ} :
    {A : Type ℓ} {B : Type κ} → Outcome A → Outcome B → (A → Outcome B) → Outcome B
on_refusal (done a) r f = f a
on_refusal refused r f = r
on_refusal out_of_bounds r f = out_of_bounds
on_refusal out_of_fuel r f = out_of_fuel

-- The run ended within its fuel, and `P` holds of its value if it has one. With `faults` it may have
-- read out of bounds; without, it has not.
abbrev pub Ensures {ℓ} : {A : Type ℓ} → Bool → (A → Type 0) → Outcome A → Type 0
Ensures faults P (done a) = P a
Ensures faults P refused = Unit
Ensures true P out_of_bounds = Unit
Ensures false P out_of_bounds = ⊥
Ensures faults P out_of_fuel = ⊥

module _ {ℓ} {A : Type ℓ} (faults : Bool) (P : A → Type 0) where
  pub Ensures-if :
      (b : Bool) (x y : Outcome A)
      → (b ≡ true → Ensures faults P x)
      → (b ≡ false → Ensures faults P y)
      → Ensures faults P (if b then x else y)
  Ensures-if true x y hx hy = hx refl
  Ensures-if false x y hx hy = hy refl

  pub Ensures-mono :
      (Q : A → Type 0) (o : Outcome A)
      → ((a : A) → P a → Q a)
      → Ensures faults P o
      → Ensures faults Q o
  Ensures-mono Q (done a) k h = k a h
  Ensures-mono Q refused k h = tt
  Ensures-mono Q out_of_bounds k h = fault faults h
    where
      fault : (b : Bool) → Ensures b P out_of_bounds → Ensures b Q out_of_bounds
      fault true h = tt
      fault false h = h
  Ensures-mono Q out_of_fuel k h = absurd h

  pub Ensures-bind {κ} :
      {B : Type κ} (Q : B → Type 0) (o : Outcome A) (f : A → Outcome B)
      → Ensures faults P o
      → ((a : A) → P a → Ensures faults Q (f a))
      → Ensures faults Q (o >>= f)
  Ensures-bind Q (done a) f h k = k a h
  Ensures-bind Q refused f h k = tt
  Ensures-bind Q out_of_bounds f h k = fault faults h
    where
      fault : (b : Bool) → Ensures b P out_of_bounds → Ensures b Q out_of_bounds
      fault true h = tt
      fault false h = h
  Ensures-bind Q out_of_fuel f h k = absurd h

-- The same, with a value unless it has read out of bounds.
abbrev pub Ends {ℓ} : {A : Type ℓ} → Bool → (A → Type 0) → Outcome A → Type 0
Ends faults P (done a) = P a
Ends faults P refused = ⊥
Ends true P out_of_bounds = Unit
Ends false P out_of_bounds = ⊥
Ends faults P out_of_fuel = ⊥

module _ {ℓ} {A : Type ℓ} (faults : Bool) (P : A → Type 0) where
  pub Ends-if :
      (b : Bool) (x y : Outcome A)
      → (b ≡ true → Ends faults P x)
      → (b ≡ false → Ends faults P y)
      → Ends faults P (if b then x else y)
  Ends-if true x y hx hy = hx refl
  Ends-if false x y hx hy = hy refl

  pub Ends-on_refusal {κ} :
      {B : Type κ} (Q : B → Type 0) (o : Outcome A) (r : Outcome B) (f : A → Outcome B)
      → Ensures faults P o
      → Ends faults Q r
      → ((a : A) → P a → Ends faults Q (f a))
      → Ends faults Q (on_refusal o r f)
  Ends-on_refusal Q (done a) r f h hr k = k a h
  Ends-on_refusal Q refused r f h hr k = hr
  Ends-on_refusal Q out_of_bounds r f h hr k = fault faults h
    where
      fault : (b : Bool) → Ensures b P out_of_bounds → Ends b Q out_of_bounds
      fault true h = tt
      fault false h = h
  Ends-on_refusal Q out_of_fuel r f h hr k = absurd h

-- Without faults there is a value.
pub Ends-done {ℓ} :
    {A : Type ℓ} (P : A → Type 0) (o : Outcome A) → Ends false P o → (a : A) × (o ≡ done a) × P a
Ends-done P (done a) h = (a, refl, h)
Ends-done P refused h = absurd h
Ends-done P out_of_bounds h = absurd h
Ends-done P out_of_fuel h = absurd h

pub Ends-ne-out_of_fuel {ℓ} :
    {A : Type ℓ} (faults : Bool) (P : A → Type 0) (o : Outcome A)
    → Ends faults P o
    → o ≢ out_of_fuel
Ends-ne-out_of_fuel faults P (done a) h e = cc
Ends-ne-out_of_fuel faults P refused h e = cc
Ends-ne-out_of_fuel faults P out_of_bounds h e = cc
Ends-ne-out_of_fuel faults P out_of_fuel h e = h

-- A value that a run has is one that the run may have.
pub Ends-value {ℓ} :
    {A : Type ℓ} (faults : Bool) (P : A → Type 0) (o : Outcome A) {a : A}
    → Ends faults P o
    → o ≡ done a
    → P a
Ends-value faults P o h e = subst (Ends faults P) e h

pub Ends-Ensures {ℓ} :
    {A : Type ℓ} (faults : Bool) (P : A → Type 0) (o : Outcome A)
    → Ends faults P o
    → Ensures faults P o
Ends-Ensures faults P (done a) h = h
Ends-Ensures faults P refused h = tt
Ends-Ensures true P out_of_bounds h = tt
Ends-Ensures false P out_of_bounds h = absurd h
Ends-Ensures faults P out_of_fuel h = absurd h
