-- ===== src/Buffer/Pipeline.antt =====
-- A chain of continuations that `chain_semaphores` has linked, run by one round of `run_all`.
use mvsync.Base.{
  ℕ, suc, ◌≤◌, ◌<◌, Bool, true, false, none, List, [], ◌∷◌, ◌≡◌, refl, ap, subst, ◌∙◌, all, elem,
  arith,
}
use mvsync.World.{World, Value, TaskState}
use mvsync.Exec.{done}
use mvsync.Task
use mvsync.Task.{Task}
use mvsync.Task.Body.{Outcome, continuing}
use mvsync.Task.Handle.{TaskHandle}
use mvsync.Run.{execute, try_run, run_pass}
use mvsync.Run.Execute.{
  Completed, Completed-Holds, Holds, IsRunnable, after_take, execute-continuing,
}

-- The composition of the functions of a chain.
abbrev pub and_call : Outcome → (Value → Outcome) → Outcome
and_call (Outcome.returns v) k = k v
and_call (Outcome.panics p) k = Outcome.panics p

abbrev pub pipe : Value → List (Value → Outcome) → Outcome
pipe v [] = Outcome.returns v
pipe v (g ∷ gs) = and_call (g v) (λ u. pipe u gs)

-- The tasks `us` are the continuations `gs`, one after the other, behind the task of the handle `prev`;
-- the last handle is `last`. No state of theirs is below `lo`, and no signal reaches `hi`.
pub record IsStep (prev : TaskHandle) (g : Value → Outcome) (h : TaskHandle) (u : Task)
    : Type 0 where
  pub inner : u.inner ≡ continuing g h.inner h.state prev
  pub self_state : u.self_state ≡ h.state
  pub state : u.state ≡ prev.state
  pub own : u.signal.0 ≡ h.signal
  pub anywhere : u.preferred_thread ≡ none
  pub included : u.not_on ≡ []

abbrev pub IsChain :
    TaskHandle → List (Value → Outcome) → List Task → ℕ → ℕ → TaskHandle → World → Type 0
IsChain prev [] [] lo hi last w = prev ≡ last
IsChain prev [] (u ∷ us) lo hi last w = ⊥
IsChain prev (g ∷ gs) [] lo hi last w = ⊥
IsChain prev (g ∷ gs) (u ∷ us) lo hi last w =
    (h : TaskHandle) × IsStep prev g h u
    × (u.wait ≡ [])
    × (lo ≤ h.state)
    × (h.signal < hi)
    × (w.states h.state ≡ TaskState.pending)
    × IsChain h gs us (suc h.state) hi last w

-- The same after linking: each task waits for semaphores that the one before it signals, `ss`.
abbrev pub IsLinked :
    TaskHandle → List ℕ → List (Value → Outcome) → List Task → ℕ → ℕ → TaskHandle → World → Type 0
IsLinked prev ss [] [] lo hi last w = prev ≡ last
IsLinked prev ss [] (u ∷ us) lo hi last w = ⊥
IsLinked prev ss (g ∷ gs) [] lo hi last w = ⊥
IsLinked prev ss (g ∷ gs) (u ∷ us) lo hi last w =
    (h : TaskHandle) × IsStep prev g h u
    × (all (λ s. elem s ss) u.wait ≡ true)
    × (lo ≤ h.state)
    × (h.signal < hi)
    × (w.states h.state ≡ TaskState.pending)
    × IsLinked h u.semaphores gs us (suc h.state) hi last w

-- A chain that waits for nothing waits for no more than what was signalled.
pub IsChain-IsLinked :
    (prev : TaskHandle) (ss : List ℕ) (gs : List (Value → Outcome)) (us : List Task) (lo hi : ℕ)
    (last : TaskHandle) (w : World)
    → IsChain prev gs us lo hi last w
    → IsLinked prev ss gs us lo hi last w
IsChain-IsLinked prev ss [] [] lo hi last w c = c
IsChain-IsLinked prev ss [] (u ∷ us) lo hi last w c = c
IsChain-IsLinked prev ss (g ∷ gs) [] lo hi last w c = c
IsChain-IsLinked prev ss (g ∷ gs) (u ∷ us) lo hi last w (h, step, free, le, old, st, rest) = (
  h,
  step,
  rw free refl,
  le,
  old,
  st,
  IsChain-IsLinked h u.semaphores gs us (suc h.state) hi last w rest,
)

-- Only the states from `lo` on matter.
pub IsLinked-frame :
    (prev : TaskHandle) (ss : List ℕ) (gs : List (Value → Outcome)) (us : List Task) (lo hi : ℕ)
    (last : TaskHandle) (v w : World)
    → ((i : ℕ) → lo ≤ i → w.states i ≡ v.states i)
    → IsLinked prev ss gs us lo hi last v
    → IsLinked prev ss gs us lo hi last w
IsLinked-frame prev ss [] [] lo hi last v w same c = c
IsLinked-frame prev ss [] (u ∷ us) lo hi last v w same c = c
IsLinked-frame prev ss (g ∷ gs) [] lo hi last v w same c = c
IsLinked-frame prev ss (g ∷ gs) (u ∷ us) lo hi last v w same (h, step, waits, le, old, st, rest) = (
  h,
  step,
  waits,
  le,
  old,
  same h.state le ∙ st,
  IsLinked-frame h u.semaphores gs us (suc h.state) hi last v w (λ i l. same i (omega arith)) rest,
)

pub all-elem :
    (ss ws : List ℕ) (w : World)
    → ((i : ℕ) → elem i ss ≡ true → w.semaphores i ≡ true)
    → all (λ s. elem s ss) ws ≡ true
    → all w.semaphores ws ≡ true
all-elem ss [] w h e = refl
all-elem ss (x ∷ ws) w h e = ground (arith, h x, all-elem ss ws w h)

pub try_run-runnable :
    (fuel : ℕ) (u : Task) (w w' : World)
    → IsRunnable u w
    → execute fuel u w ≡ done tt w'
    → try_run fuel u w ≡ done true w'
unfolding try_run Task.can_execute Task.is_panicked Task.is_cancelled
try_run-runnable fuel u w w' r e = ground arith

pub run_pass-ran :
    (fuel : ℕ) (u : Task) (us : List Task) (w v w' : World) (b : Bool)
    → try_run fuel u w ≡ done true v
    → run_pass fuel us v ≡ done ([], b) w'
    → run_pass fuel (u ∷ us) w ≡ done ([], true) w'
unfolding run_pass
run_pass-ran fuel u us w v w' b e e' = rw e (rw e')

and_call-returns :
    (o : Outcome) (k : Value → Outcome) (x : Value)
    → and_call o k ≡ Outcome.returns x
    → (y : Value) × (o ≡ Outcome.returns y) × (k y ≡ Outcome.returns x)
and_call-returns (Outcome.returns v) k x e = (v, refl, e)
and_call-returns (Outcome.panics p) k x e = cc

pub Completed-semaphores :
    (u : Task) (b s : ℕ) (x : Value) (v w : World)
    → Completed u b s x v w
    → (i : ℕ) → elem i u.semaphores ≡ true
    → w.semaphores i ≡ true
Completed-semaphores u b s x v w c i e = ground (arith, c.semaphores i)

pub states-Completed :
    (u : Task) (b s : ℕ) (x : Value) (v w : World)
    → Completed u b s x v w
    → (i : ℕ) → suc s ≤ i
    → w.states i ≡ v.states i
states-Completed u b s x v w c i lt = ap (λ f. f i) c.states ∙ ground arith

-- One task of the chain is executed.
pub step-executes :
    (fuel : ℕ) (prev h : TaskHandle) (g : Value → Outcome) (u : Task) (ss : List ℕ) (v y : Value)
    (w : World)
    → IsStep prev g h u
    → all (λ s. elem s ss) u.wait ≡ true
    → w.states h.state ≡ TaskState.pending
    → Holds prev v w
    → ((i : ℕ) → elem i ss ≡ true → w.semaphores i ≡ true)
    → prev.signal < w.next
    → g v ≡ Outcome.returns y
    → (w' : World) × (try_run (suc fuel) u w ≡ done true w')
      × Completed u h.inner h.state y (after_take prev w) w'
step-executes fuel prev h g u ss v y w step waits st held signalled old e =
    let (w', runs, c) =
      execute-continuing u g h.inner h.state fuel prev v y w step.inner held old e in
    let runnable : IsRunnable u w = record {
      state = ap w.states step.state ∙ held.state;
      self_state = ap w.states step.self_state ∙ st;
      waits = all-elem ss u.wait w signalled waits;
    } in
    (w', try_run-runnable (suc fuel) u w w' runnable runs, c)

module _ (fuel hi : ℕ) where
  -- A round runs the chain to its end: no task is left, and the last handle holds the composition.
  pub run_pass-IsLinked :
      (prev : TaskHandle) (ss : List ℕ) (gs : List (Value → Outcome)) (us : List Task) (lo : ℕ)
      (last : TaskHandle) (v x : Value) (w : World)
      → IsLinked prev ss gs us lo hi last w
      → Holds prev v w
      → ((i : ℕ) → elem i ss ≡ true → w.semaphores i ≡ true)
      → prev.signal < hi
      → hi ≤ w.next
      → pipe v gs ≡ Outcome.returns x
      → (b : Bool) × (w' : World) × (run_pass (suc fuel) us w ≡ done ([], b) w') × Holds last x w'
  unfolding run_pass
  run_pass-IsLinked prev ss [] [] lo last v x w c held signalled old le e =
      let same : v ≡ x = cc in
      (false, w, refl, subst (λ y. Holds last y w) same (subst (λ p. Holds p v w) c held))
  run_pass-IsLinked prev ss [] (u ∷ us) lo last v x w c held signalled old le e = absurd c
  run_pass-IsLinked prev ss (g ∷ gs) [] lo last v x w c held signalled old le e = absurd c
  run_pass-IsLinked prev ss (g ∷ gs) (u ∷ us) lo last v x w (h, step, waits, _, new, st, rest) held
        signalled old le e =
      let (y, ret, e') = and_call-returns (g v) (λ z. pipe z gs) x e in
      let (w₁, runs, c) =
        step-executes fuel prev h g u ss v y w step waits st held signalled (omega arith) ret in
      let (b, w₂, runs', held') =
        run_pass-IsLinked h u.semaphores gs us (suc h.state) last y x w₁
          (IsLinked-frame h u.semaphores gs us (suc h.state) hi last w w₁
            (states-Completed u h.inner h.state y (after_take prev w) w₁ c) rest)
          (Completed-Holds u h y (after_take prev w) w₁ step.own c)
          (Completed-semaphores u h.inner h.state y (after_take prev w) w₁ c) new
          (omega (arith, c.next)) e' in
      (true, w₂, run_pass-ran (suc fuel) u us w w₁ w₂ b runs runs', held')
