-- ===== src/Signal/Frame.antt =====
-- What the operations of `Signal` leave alone.
use mvsync.Base.{ℕ, true, List, [], ◌∷◌, ◌≡◌, refl, ◌∙◌, arith}
use mvsync.World.{World, Waker, context, foreign}
use mvsync.Signal.{call, drain, wake}

-- Everything but the signals and the record of foreign wakers is the same.
pub record SameData (v w : World) : Type 0 where
  pub states : w.states ≡ v.states
  pub buffers : w.buffers ≡ v.buffers
  pub semaphores : w.semaphores ≡ v.semaphores
  pub fences : w.fences ≡ v.fences
  pub next : w.next ≡ v.next

call-SameData : (k : Waker) (w : World) → SameData w (call k w)
unfolding call
call-SameData (context j) w = record {
  states = refl;
  buffers = refl;
  semaphores = refl;
  fences = refl;
  next = refl;
}
call-SameData (foreign k) w = record {
  states = refl;
  buffers = refl;
  semaphores = refl;
  fences = refl;
  next = refl;
}

pub SameData-trans : {u v w : World} → SameData u v → SameData v w → SameData u w
SameData-trans a b = record {
  states = b.states ∙ a.states;
  buffers = b.buffers ∙ a.buffers;
  semaphores = b.semaphores ∙ a.semaphores;
  fences = b.fences ∙ a.fences;
  next = b.next ∙ a.next;
}

pub drain-SameData : (ks : List Waker) (w : World) → SameData w (drain ks w)
unfolding drain
drain-SameData [] w = record {
  states = refl;
  buffers = refl;
  semaphores = refl;
  fences = refl;
  next = refl;
}
drain-SameData (k ∷ ks) w = SameData-trans (call-SameData k w) (drain-SameData ks (call k w))

pub wake-SameData : (i : ℕ) (w : World) → SameData w (wake i w)
unfolding wake
wake-SameData i w =
    let d = drain-SameData (w.signals i).wakers _ in
    record {
      states = d.states;
      buffers = d.buffers;
      semaphores = d.semaphores;
      fences = d.fences;
      next = d.next;
    }

-- Calling wakers sets flags and never clears one; the lists of wakers stay.
pub drain-keeps-ready :
    (ks : List Waker) (w : World) (i : ℕ)
    → (w.signals i).ready ≡ true
    → ((drain ks w).signals i).ready ≡ true
unfolding drain call
drain-keeps-ready [] w i h = h
drain-keeps-ready (context j ∷ ks) w i h = drain-keeps-ready ks _ i (ground arith)
drain-keeps-ready (foreign k ∷ ks) w i h = drain-keeps-ready ks _ i h

pub wakers-drain :
    (ks : List Waker) (w : World) (i : ℕ) → ((drain ks w).signals i).wakers ≡ (w.signals i).wakers
unfolding drain call
wakers-drain [] w i = refl
wakers-drain (context j ∷ ks) w i = wakers-drain ks _ i ∙ ground arith
wakers-drain (foreign k ∷ ks) w i = wakers-drain ks _ i

pub ready-wake : (i : ℕ) (w : World) → ((wake i w).signals i).ready ≡ true
unfolding wake
ready-wake i w = drain-keeps-ready (w.signals i).wakers _ i (ground arith)

pub wake-keeps-ready :
    (i j : ℕ) (w : World) → (w.signals j).ready ≡ true → ((wake i w).signals j).ready ≡ true
unfolding wake
wake-keeps-ready i j w h = drain-keeps-ready (w.signals i).wakers _ j (ground arith)

pub wakers-wake : (i : ℕ) (w : World) → ((wake i w).signals i).wakers ≡ []
unfolding wake
wakers-wake i w = wakers-drain (w.signals i).wakers _ i ∙ ground arith
