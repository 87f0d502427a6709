-- ===== src/Exec/Guarded.antt =====
-- Code that returns or panics by a test.
use mvsync.Base.{Bool, true, false, ◌&&◌, ◌≡◌, if◌then◌else◌}
use mvsync.World.{Value, World}
use mvsync.Exec.{
  Exec, done, unwinds, blocks, out_of_fuel, M, and_then, Returns, Returns-and_then, Returns-mono,
  Unwinds,
}

-- The step returns where the test holds, and unwinds where it does not.
abbrev pub Guarded {ℓ} : {A : Type ℓ} → (A → World → Type 0) → Bool → Exec A → Type 0
Guarded P true r = Returns P r
Guarded P false r = Unwinds r

pub Guarded-and_then {ℓ κ} :
    {A : Type ℓ} {B : Type κ} (P : A → World → Type 0) (Q : B → World → Type 0) (b c : Bool)
    (r : Exec A) (f : A → M B)
    → Guarded P b r
    → ((a : A) (w : World) → P a w → Guarded Q c (f a w))
    → Guarded Q (b && c) (and_then r f)
Guarded-and_then P Q true c (done a w) f p next = next a w p
Guarded-and_then P Q true true (unwinds _ w) f p next = p
Guarded-and_then P Q true true (blocks w) f p next = p
Guarded-and_then P Q true true out_of_fuel f p next = p
Guarded-and_then P Q true false (unwinds _ w) f p next = tt
Guarded-and_then P Q true false (blocks w) f p next = p
Guarded-and_then P Q true false out_of_fuel f p next = p
Guarded-and_then P Q false c (done a w) f p next = absurd p
Guarded-and_then P Q false c (unwinds _ w) f p next = tt
Guarded-and_then P Q false c (blocks w) f p next = absurd p
Guarded-and_then P Q false c out_of_fuel f p next = absurd p

pub Guarded-if {ℓ} :
    {A : Type ℓ} (P : A → World → Type 0) (b c : Bool) (r : Exec A) (p : Value) (w : World)
    → Guarded P c r
    → Guarded P (b && c) (if b then r else unwinds p w)
Guarded-if P true c r p w h = h
Guarded-if P false c r p w h = tt

pub Guarded-true {ℓ} :
    {A : Type ℓ} (P : A → World → Type 0) (b : Bool) (r : Exec A)
    → Guarded P b r
    → b ≡ true
    → Returns P r
Guarded-true P true r h e = h
Guarded-true P false r h e = cc

pub Guarded-false {ℓ} :
    {A : Type ℓ} (P : A → World → Type 0) (b : Bool) (r : Exec A)
    → Guarded P b r
    → b ≡ false
    → Unwinds r
Guarded-false P true r h e = cc
Guarded-false P false r h e = h

pub Guarded-mono {ℓ} :
    {A : Type ℓ} (P Q : A → World → Type 0) (b : Bool) (r : Exec A)
    → ((a : A) (w : World) → P a w → Q a w)
    → Guarded P b r
    → Guarded Q b r
Guarded-mono P Q true r f h = Returns-mono P Q r f h
Guarded-mono P Q false r f h = h

-- What follows returns.
pub Guarded-pure {ℓ κ} :
    {A : Type ℓ} {B : Type κ} (P : A → World → Type 0) (Q : B → World → Type 0) (b : Bool)
    (r : Exec A) (f : A → M B)
    → Guarded P b r
    → ((a : A) (w : World) → P a w → Returns Q (f a w))
    → Guarded Q b (and_then r f)
Guarded-pure P Q true r f h next = Returns-and_then P Q r f h next
Guarded-pure P Q false (unwinds _ w) f h next = tt
Guarded-pure P Q false (done a w) f h next = absurd h
Guarded-pure P Q false (blocks w) f h next = absurd h
Guarded-pure P Q false out_of_fuel f h next = absurd h

pub Guarded-when {ℓ} :
    {A : Type ℓ} (P : A → World → Type 0) (b : Bool) (r : Exec A) (p : Value) (w : World)
    → Returns P r
    → Guarded P b (if b then r else unwinds p w)
Guarded-when P true r p w h = h
Guarded-when P false r p w h = tt
