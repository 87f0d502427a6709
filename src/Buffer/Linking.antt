-- ===== src/Buffer/Linking.antt =====
-- What `chain_semaphores` makes of a chain of continuations.
use mvsync.Base.{
  ℕ, suc, ◌≤◌, true, List, [], ◌∷◌, ◌++◌, ◌≡◌, refl, ap, ◌∙◌, all, elem, elem-append_self, arith,
}
use mvsync.World.{World, Value}
use mvsync.Sync.{SemaphoreUsage}
use mvsync.Sync.Semaphore
use mvsync.Task
use mvsync.Task.{Task}
use mvsync.Task.Body.{Outcome}
use mvsync.Task.Handle.{TaskHandle}
use mvsync.Buffer.Chain.{link}
use mvsync.Buffer.Pipeline.{IsStep, IsChain, IsLinked}

-- The semaphores that linking allocates leave the states, the signals and the buffers alone.
pub record OnlyNew (v w : World) : Type 0 where
  pub states : w.states ≡ v.states
  pub signals : w.signals ≡ v.signals
  pub buffers : w.buffers ≡ v.buffers
  pub next : v.next ≤ w.next

IsChain-frame :
    (prev : TaskHandle) (gs : List (Value → Outcome)) (us : List Task) (lo hi : ℕ)
    (last : TaskHandle) (v w : World)
    → w.states ≡ v.states
    → IsChain prev gs us lo hi last v
    → IsChain prev gs us lo hi last w
IsChain-frame prev [] [] lo hi last v w same c = c
IsChain-frame prev [] (u ∷ us) lo hi last v w same c = c
IsChain-frame prev (g ∷ gs) [] lo hi last v w same c = c
IsChain-frame prev (g ∷ gs) (u ∷ us) lo hi last v w same (h, step, free, le, old, st, rest) = (
  h,
  step,
  free,
  le,
  old,
  ap (λ f. f h.state) same ∙ st,
  IsChain-frame h gs us (suc h.state) hi last v w same rest,
)

abbrev waiting : Task → ℕ → Task
waiting t s = Task.bind_semaphore t s SemaphoreUsage.wait

IsStep-linked :
    (prev h : TaskHandle) (g : Value → Outcome) (x x' : Task) (s : ℕ)
    → x' ≡ record (waiting x s) { semaphores = x'.semaphores }
    → IsStep prev g h x
    → IsStep prev g h x'
unfolding Task.bind_semaphore
IsStep-linked prev h g x x' s e step = record {
  inner = ap (λ t. t.inner) e ∙ step.inner;
  self_state = ap (λ t. t.self_state) e ∙ step.self_state;
  state = ap (λ t. t.state) e ∙ step.state;
  own = ap (λ t. t.signal.0) e ∙ step.own;
  anywhere = ap (λ t. t.preferred_thread) e ∙ step.anywhere;
  included = ap (λ t. t.not_on) e ∙ step.included;
}

waits-linked :
    (ss : List ℕ) (x x' : Task) (s : ℕ)
    → x' ≡ record (waiting x s) { semaphores = x'.semaphores }
    → x.wait ≡ []
    → all (λ i. elem i (ss ++ s ∷ [])) x'.wait ≡ true
unfolding Task.bind_semaphore
waits-linked ss x x' s e free =
    let waits : x'.wait ≡ s ∷ [] = ap (λ t. t.wait) e ∙ ap (λ ws. ws ++ s ∷ []) free in
    rw waits (rw (elem-append_self s ss))

-- Linking a chain: each task keeps all but its semaphores, and waits for one of those that the task
-- before it signals.
pub link-IsLinked :
    (h : TaskHandle) (u : Task) (gs : List (Value → Outcome)) (us : List Task) (lo hi : ℕ)
    (last : TaskHandle) (w : World)
    → IsChain h gs us lo hi last w
    → (u' : Task) × (us' : List Task) × ((link u us w).0 ≡ u' ∷ us')
      × (u' ≡ record u { semaphores = u'.semaphores })
      × IsLinked h u'.semaphores gs us' lo hi last (link u us w).1
      × OnlyNew w (link u us w).1
unfolding link Semaphore.new
link-IsLinked h u [] [] lo hi last w c = (
  u,
  [],
  refl,
  refl,
  c,
  record { states = refl; signals = refl; buffers = refl; next = omega arith },
)
link-IsLinked h u [] (x ∷ us) lo hi last w c = absurd c
link-IsLinked h u (g ∷ gs) [] lo hi last w c = absurd c
link-IsLinked h u (g ∷ gs) (x ∷ us) lo hi last w (k, step, free, le, old, st, rest) =
    let (s, w₁) = Semaphore.new w in
    let (x', xs', e, keeps, linked, new) =
      link-IsLinked k (waiting x s) gs us (suc k.state) hi last w₁
        (IsChain-frame k gs us (suc k.state) hi last w w₁ refl rest) in
    (
      record u { semaphores = u.semaphores ++ s ∷ [] },
      x' ∷ xs',
      ap (λ ts. record u { semaphores = u.semaphores ++ s ∷ [] } ∷ ts) e,
      refl,
      (
        k,
        IsStep-linked h k g x x' s keeps step,
        waits-linked u.semaphores x x' s keeps free,
        le,
        old,
        ap (λ f. f k.state) new.states ∙ st,
        linked,
      ),
      record {
        states = new.states;
        signals = new.signals;
        buffers = new.buffers;
        next = omega (arith, new.next);
      },
    )
