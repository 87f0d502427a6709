-- ===== src/Buffer/Counter.antt =====
-- What the calls on a command buffer do to the counter that its copies share.
use mvsync.Base.{
  ◌+◌, ◌%◌, ◌^◌, false, not, ◌==◌, Option, none, some, List, ◌≡◌, refl, ◌∙◌, is_some, if-cases,
  arith,
}
use mvsync.World.{World, Value}
use mvsync.Exec.{M, ◌>>=◌, pure, IfDone, IfDone-and_then, IfDone-always}
use mvsync.Task.{Task}
use mvsync.Task.Body.{Outcome, Script}
use mvsync.Task.Handle.{TaskHandle}
use mvsync.Buffer.Raw
use mvsync.Buffer.Raw.{RawCommandBuffer}
use mvsync.Buffer.Command
use mvsync.Buffer.Command.{CommandBuffer, Shared, BufferedCommand, on_raw}

-- What a call does to the counter.
abbrev pub Same : Shared → Shared → Type 0
Same s t = (t.refs ≡ s.refs) × (t.freed ≡ s.freed)

abbrev pub Grown : CommandBuffer → Shared → Shared → Type 0
Grown c s t = (is_some c.baked ≡ false) × (t.refs ≡ (s.refs + 1) % 2 ^ 64) × (t.freed ≡ s.freed)

on_raw-Same {ℓ} :
    {A : Type ℓ} (f : RawCommandBuffer → M (A × RawCommandBuffer)) (s : Shared) (w : World)
    → IfDone (λ (_, t) _. Same s t) (on_raw f s w)
on_raw-Same f s w =
    IfDone-and_then (λ _ _. Unit {0}) (λ (_, t) _. Same s t) (f s.raw w) _
      (IfDone-always _ (f s.raw w) (λ _ _. tt)) (λ _ _ _. (refl, refl))

-- A copy that is not baked comes of a call on another one.
abbrev pub Fresh : CommandBuffer → Shared → CommandBuffer × Shared → World → Type 0
Fresh c s (d, t) _ = (d.baked ≡ none) × Grown c s t

abbrev pub FreshCommand : CommandBuffer → Shared → BufferedCommand × Shared → World → Type 0
FreshCommand c s (d, t) _ = (d.parent.baked ≡ none) × Grown c s t

pub clone-Fresh :
    (c : CommandBuffer) (s : Shared) (w : World) → IfDone (Fresh c s) (Command.clone c s w)
unfolding Command.clone
clone-Fresh c s w =
    if-cases (λ (m : M (CommandBuffer × Shared)). IfDone (Fresh c s) (m w)) (is_some c.baked) _ _
      (λ _. tt) (λ u. (refl, (u, refl, refl)))

-- A command on a copy: the copy is cloned, then the raw buffer is used.
command-Fresh :
    (c : CommandBuffer) (f : RawCommandBuffer → M (TaskHandle × RawCommandBuffer)) (s : Shared)
    (w : World)
    → IfDone
        (FreshCommand c s)
        ((Command.clone c s >>= λ (parent, s'). on_raw f s' >>= Command.command parent) w)
command-Fresh c f s w =
    IfDone-and_then (Fresh c s) (FreshCommand c s) (Command.clone c s w) _ (clone-Fresh c s w)
      λ (d, t) v (fresh, (u, r, e)).
        IfDone-and_then (λ (_, t') _. Same t t') (FreshCommand c s) (on_raw f t v) _
          (on_raw-Same f t v) (λ _ _ (r', e'). (fresh, (u, r' ∙ r, e' ∙ e)))

pub start_sync_command-Fresh :
    (c : CommandBuffer) (f : Outcome) (s : Shared) (w : World)
    → IfDone (FreshCommand c s) (Command.start_sync_command c f s w)
unfolding Command.start_sync_command
start_sync_command-Fresh c f s w =
    if-cases (λ (m : M (BufferedCommand × Shared)). IfDone (FreshCommand c s) (m w))
      (is_some c.baked) _ _ (λ _. tt) (λ _. command-Fresh c _ s w)

pub start_command-Fresh :
    (c : CommandBuffer) (f : Script) (s : Shared) (w : World)
    → IfDone (FreshCommand c s) (Command.start_command c f s w)
unfolding Command.start_command
start_command-Fresh c f s w =
    if-cases (λ (m : M (BufferedCommand × Shared)). IfDone (FreshCommand c s) (m w))
      (is_some c.baked) _ _ (λ _. tt) (λ _. command-Fresh c _ s w)

-- A chained command: the old copy is dropped after the new one was made.
abbrev pub Replaced : CommandBuffer → Shared → BufferedCommand × Shared → World → Type 0
Replaced c s (d, t) _ =
    (d.parent.baked ≡ none) × ((u : Shared) × Grown c s u × (t ≡ Command.drop u))

chained-Replaced :
    (c : BufferedCommand) (f : RawCommandBuffer → M (TaskHandle × RawCommandBuffer)) (s : Shared)
    (w : World)
    → IfDone (Replaced c.parent s) (
        (Command.clone c.parent s >>= λ (parent, s').
        on_raw f s' >>= λ (h, s''). Command.command parent (h, Command.drop s''))
          w)
chained-Replaced c f s w =
    IfDone-and_then (Fresh c.parent s) (Replaced c.parent s) (Command.clone c.parent s w) _
      (clone-Fresh c.parent s w)
      λ (d, t) v (fresh, (u, r, e)).
        IfDone-and_then (λ (_, t') _. Same t t') (Replaced c.parent s) (on_raw f t v) _
          (on_raw-Same f t v) (λ (_, t') _ (r', e'). (fresh, (t', (u, r' ∙ r, e' ∙ e), refl)))

pub add_sync_command-Replaced :
    (c : BufferedCommand) (f : Value → Outcome) (s : Shared) (w : World)
    → IfDone (Replaced c.parent s) (Command.add_sync_command c f s w)
unfolding Command.add_sync_command
add_sync_command-Replaced c f s w = chained-Replaced c _ s w

pub add_command-Replaced :
    (c : BufferedCommand) (f : Value → Script) (s : Shared) (w : World)
    → IfDone (Replaced c.parent s) (Command.add_command c f s w)
unfolding Command.add_command
add_command-Replaced c f s w = chained-Replaced c _ s w

-- A call that consumes a copy.
abbrev pub Dropped {ℓ} : {A : Type ℓ} → Shared → A × Shared → World → Type 0
Dropped s (_, t) _ = (u : Shared) × Same s u × (t ≡ Command.drop u)

pub response-Dropped :
    (c : BufferedCommand) (s : Shared) (w : World) → IfDone (Dropped s) (Command.response c s w)
unfolding Command.response
response-Dropped c s w =
    IfDone-and_then (λ (_, t) _. Same s t) (Dropped s) (on_raw Raw.get_controllers s w)
      (λ (controllers, s'). pure ((c.response, controllers), Command.drop s'))
      (on_raw-Same Raw.get_controllers s w) (λ (_, t) _ k. (t, k, refl))

pub tasks-Dropped :
    (c : CommandBuffer) (s : Shared) (w : World) → IfDone (Dropped s) (Command.tasks c s w)
unfolding Command.tasks
tasks-Dropped c s w = at c.baked
  where
    at : (o : Option (List Task)) → IfDone (Dropped s) (Command.tasks (record c { baked = o }) s w)
    at none = tt
    at (some ts) = (s, (refl, refl), refl)

-- A buffer is baked only when it has one copy.
abbrev pub Sole : Shared → CommandBuffer × Shared → World → Type 0
Sole s (_, t) _ = (s.refs ≡ 1) × Same s t

pub finish-Sole :
    (c : CommandBuffer) (s : Shared) (w : World) → IfDone (Sole s) (Command.finish c s w)
unfolding Command.finish
finish-Sole c s w =
    if-cases P (is_some c.baked) _ _ (λ _. tt)
      λ _.
        if-cases P (not (s.refs == 1)) _ _ (λ _. tt)
          λ one.
            IfDone-and_then (λ (_, t) _. Same s t) (Sole s) (on_raw Raw.finish s w)
              (λ (ts, s'). pure (record { baked = some ts }, s')) (on_raw-Same Raw.finish s w)
              (λ _ _ k. (ground arith, k))
  where
    P : M (CommandBuffer × Shared) → Type 0
    P m = IfDone (Sole s) (m w)
