-- ===== src/Base/Bags.antt =====
-- Bags of numbers: two lists are one bag when each number occurs in them equally often.
use Prim.Native.Nat.{ℕ, ◌+◌}
use mathlib.Core.Path.{◌≡◌}
use mathlib.Core.List.{List, ◌++◌}
use mathlib.Core.Quot
use mathlib.Core.Quot.{Quot, Quot-set}
use native.Mathlib.Nat.{ℕ_set}
use mvsync.Base.Lists.{count, count-append}
use native.Mathlib.Omega.{arith}

abbrev pub Alike : List ℕ → List ℕ → Type 0
Alike left right = (n : ℕ) → count n left ≡ count n right

append-Alike :
    (front left right : List ℕ) → Alike left right → Alike (front ++ left) (front ++ right)
append-Alike front left right same n =
    omega (arith, same n, count-append n front left, count-append n front right)

abbrev pub Bag : Type 0
Bag = Quot Alike

abbrev pub bag_of : List ℕ → Bag
bag_of items = Quot.mk items

-- The items of a list, put into a bag.
pub add : List ℕ → Bag → Bag
add front =
    Quot.lift Quot-set (λ items. bag_of (front ++ items))
      (λ left right same. Quot.sound (append-Alike front left right same))

unfoldable pub copies : ℕ → Bag → ℕ
copies n = Quot.lift ℕ_set (λ items. count n items) (λ _ _ same. same n)

pub copies-add :
    (n : ℕ) (front : List ℕ) (x : Bag) → copies n (add front x) ≡ count n front + copies n x
unfolding copies add
copies-add n front = Quot.ind (λ x. ℕ_set _ _) (λ items. count-append n front items)

-- When two lists are one bag, and when a bag is another one with more in it.
pub bag_of-eq : (left right : List ℕ) → Alike left right → bag_of left ≡ bag_of right
bag_of-eq left right same = Quot.sound same

pub bag_of-add :
    (whole front rest : List ℕ)
    → ((n : ℕ) → count n whole ≡ count n front + count n rest)
    → bag_of whole ≡ add front (bag_of rest)
unfolding add
bag_of-add whole front rest split =
    Quot.sound (λ n. omega (arith, split n, count-append n front rest))
