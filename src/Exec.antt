-- ===== src/Exec.antt =====
-- What a thread's code does to the shared objects: it returns, it unwinds with a panic's payload, or
-- it parks on a condition variable that nobody has notified. Loops take fuel, which may run out.
pub mod Guarded
use mvsync.Base.{◌≡◌, refl, subst}
use mvsync.World.{Value, World}

pub data Exec {ℓ} (A : Type ℓ) : Type ℓ where
  done : A → World → Exec A
  unwinds : Value → World → Exec A
  blocks : World → Exec A
  out_of_fuel : Exec A

abbrev pub M {ℓ} : Type ℓ → Type ℓ
M A = World → Exec A

abbrev pub pure {ℓ} : {A : Type ℓ} → A → M A
pure a w = done a w

abbrev pub and_then {ℓ κ} : {A : Type ℓ} {B : Type κ} → Exec A → (A → M B) → Exec B
and_then (done a w) f = f a w
and_then (unwinds p w) f = unwinds p w
and_then (blocks w) f = blocks w
and_then out_of_fuel f = out_of_fuel

infixl 5 ◌>>=◌ ◌>>◌
abbrev pub ◌>>=◌ {ℓ κ} : {A : Type ℓ} {B : Type κ} → M A → (A → M B) → M B
◌>>=◌ m f w = and_then (m w) f

abbrev pub ◌>>◌ {ℓ} : {B : Type ℓ} → M (Unit {0}) → M B → M B
m >> k = m >>= λ _. k

abbrev pub panic {ℓ} : {A : Type ℓ} → Value → M A
panic p w = unwinds p w

-- A change of the world that cannot fail.
abbrev pub act : (World → World) → M (Unit {0})
act f w = done tt (f w)

-- `Result<T, Box<dyn Any + Send>>`.
pub data Caught {ℓ} (A : Type ℓ) : Type ℓ where
  ok : A → Caught A
  err : Value → Caught A

abbrev pub caught {ℓ} : {A : Type ℓ} → Exec A → Exec (Caught A)
caught (done a w) = done (ok a) w
caught (unwinds p w) = done (err p) w
caught (blocks w) = blocks w
caught out_of_fuel = out_of_fuel

-- `catch_unwind(AssertUnwindSafe(..))`.
abbrev pub catch_unwind {ℓ} : {A : Type ℓ} → M A → M (Caught A)
catch_unwind m w = caught (m w)

-- `std::task::Poll`; a future that is pending is handed back in its new state.
pub data Poll {ℓ κ} (F : Type ℓ) (A : Type κ) : Type (ℓ ⊔ κ) where
  ready : A → Poll F A
  pending : F → Poll F A

module _ {ℓ κ} {A : Type ℓ} {B : Type κ} where
  -- A handler that is `catch_unwind` around the rest of the code.
  pub caught-and_then :
      (e : Exec A) (f : A → M B) (g : Caught A → M (Caught B))
      → ((a : A) (w : World) → g (ok a) w ≡ caught (f a w))
      → ((p : Value) (w : World) → g (err p) w ≡ done (err p) w)
      → and_then (caught e) g ≡ caught (and_then e f)
  caught-and_then (done a w) f g h k = h a w
  caught-and_then (unwinds p w) f g h k = k p w
  caught-and_then (blocks w) f g h k = refl
  caught-and_then out_of_fuel f g h k = refl

-- The step returns, and what it returns meets a condition.
abbrev pub Returns {ℓ} : {A : Type ℓ} → (A → World → Type 0) → Exec A → Type 0
Returns P (done a w) = P a w
Returns P _ = ⊥

pub Returns-and_then {ℓ κ} :
    {A : Type ℓ} {B : Type κ} (P : A → World → Type 0) (Q : B → World → Type 0) (r : Exec A)
    (f : A → M B)
    → Returns P r
    → ((a : A) (w : World) → P a w → Returns Q (f a w))
    → Returns Q (and_then r f)
Returns-and_then P Q (done a w) f p next = next a w p
Returns-and_then P Q (unwinds _ w) f p next = p
Returns-and_then P Q (blocks w) f p next = p
Returns-and_then P Q out_of_fuel f p next = p

pub Returns-mono {ℓ} :
    {A : Type ℓ} (P Q : A → World → Type 0) (r : Exec A)
    → ((a : A) (w : World) → P a w → Q a w)
    → Returns P r
    → Returns Q r
Returns-mono P Q (done a w) f p = f a w p
Returns-mono P Q (unwinds _ w) f p = p
Returns-mono P Q (blocks w) f p = p
Returns-mono P Q out_of_fuel f p = p

pub Returns-done {ℓ} :
    {A : Type ℓ} (P : A → World → Type 0) (r : Exec A)
    → Returns P r
    → (a : A) × (w : World) × (r ≡ done a w) × P a w
Returns-done P (done a w) p = (a, w, refl, p)
Returns-done P (unwinds _ w) p = absurd p
Returns-done P (blocks w) p = absurd p
Returns-done P out_of_fuel p = absurd p

-- A condition on what the step returns, if it returns.
abbrev pub IfDone {ℓ} : {A : Type ℓ} → (A → World → Type 0) → Exec A → Type 0
IfDone P (done a w) = P a w
IfDone P _ = Unit

pub IfDone-and_then {ℓ κ} :
    {A : Type ℓ} {B : Type κ} (P : A → World → Type 0) (Q : B → World → Type 0) (r : Exec A)
    (f : A → M B)
    → IfDone P r
    → ((a : A) (w : World) → P a w → IfDone Q (f a w))
    → IfDone Q (and_then r f)
IfDone-and_then P Q (done a w) f p next = next a w p
IfDone-and_then P Q (unwinds _ w) f p next = tt
IfDone-and_then P Q (blocks w) f p next = tt
IfDone-and_then P Q out_of_fuel f p next = tt

pub IfDone-always {ℓ} :
    {A : Type ℓ} (P : A → World → Type 0) (r : Exec A) → ((a : A) (w : World) → P a w) → IfDone P r
IfDone-always P (done a w) h = h a w
IfDone-always P (unwinds _ w) h = tt
IfDone-always P (blocks w) h = tt
IfDone-always P out_of_fuel h = tt

pub IfDone-eq {ℓ} :
    {A : Type ℓ} (P : A → World → Type 0) {r : Exec A} {a : A} {w : World}
    → IfDone P r
    → r ≡ done a w
    → P a w
IfDone-eq P h e = subst (IfDone P) e h

pub IfDone-self : {A : Type 0} (r : Exec A) → IfDone (λ a w. r ≡ done a w) r
IfDone-self (done a w) = refl
IfDone-self (unwinds p w) = tt
IfDone-self (blocks w) = tt
IfDone-self out_of_fuel = tt

pub IfDone-both {ℓ} :
    {A : Type ℓ} (P Q : A → World → Type 0) (r : Exec A)
    → IfDone P r
    → IfDone Q r
    → IfDone (λ a w. P a w × Q a w) r
IfDone-both P Q (done a w) p q = (p, q)
IfDone-both P Q (unwinds _ w) p q = tt
IfDone-both P Q (blocks w) p q = tt
IfDone-both P Q out_of_fuel p q = tt

pub IfDone-mono {ℓ} :
    {A : Type ℓ} (P Q : A → World → Type 0) (r : Exec A)
    → ((a : A) (w : World) → P a w → Q a w)
    → IfDone P r
    → IfDone Q r
IfDone-mono P Q (done a w) f p = f a w p
IfDone-mono P Q (unwinds _ w) f p = tt
IfDone-mono P Q (blocks w) f p = tt
IfDone-mono P Q out_of_fuel f p = tt

abbrev pub Unwinds {ℓ} : {A : Type ℓ} → Exec A → Type 0
Unwinds (unwinds _ w) = Unit
Unwinds _ = ⊥
