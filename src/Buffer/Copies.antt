-- ===== src/Buffer/Copies.antt =====
-- The copies of a command buffer, in the buffers and commands that the caller holds, and the counter that
-- they share. A step is a call on the first copy; copies may be put in another order.
use mvsync.Base.{
  ℕ, ◌+◌, ◌^◌, ◌<◌, Bool, ◌||◌, ◌⊎◌, inl, inr, if-cases, none, List, [], ◌∷◌, ◌++◌, ◌≡◌, refl, sym,
  subst, ap, length, arith,
}
use mvsync.World.{World, Value}
use mvsync.Exec.{Exec, done, IfDone-eq}
use mvsync.Task.Body.{Outcome, Script}
use mvsync.Buffer.Counter.{
  Same, Grown, Fresh, FreshCommand, Replaced, Dropped, Sole, clone-Fresh, start_sync_command-Fresh,
  start_command-Fresh, add_sync_command-Replaced, add_command-Replaced, response-Dropped,
  tasks-Dropped, finish-Sole,
}
use mvsync.Buffer.Counted.{
  IsCounted, IsCounted-reorder, IsCounted-grow, IsCounted-drop, IsCounted-same, IsCounted-replace,
  IsCounted-bake,
}
use mvsync.Buffer.Command
use mvsync.Buffer.Command.{CommandBufferAllocationError, CommandBuffer, Shared, BufferedCommand}

pub record Held : Type 0 where
  pub copies : List CommandBuffer
  pub shared : Shared

-- A result of a call, with the copies that are held after it.
abbrev Gives {ℓ} : {A : Type ℓ} → Exec (A × Shared) → (A → List CommandBuffer) → Held → Type ℓ
Gives {A = A} r copies h =
    (a : A) × (w : World) × (r ≡ done (a, h.shared) w) × (h.copies ≡ copies a)

pub data Step (a b : Held) : Type 0 where
  reorders :
      (c : CommandBuffer) (rest : List CommandBuffer)
      → a.copies ≡ c ∷ rest
      → b.copies ≡ rest ++ c ∷ []
      → b.shared ≡ a.shared
      → Step a b
  clones :
      (c : CommandBuffer) (rest : List CommandBuffer) (w : World)
      → a.copies ≡ c ∷ rest
      → Gives (Command.clone c a.shared w) (λ d. d ∷ c ∷ rest) b
      → Step a b
  starts_sync :
      (c : CommandBuffer) (rest : List CommandBuffer) (f : Outcome) (w : World)
      → a.copies ≡ c ∷ rest
      → Gives (Command.start_sync_command c f a.shared w) (λ d. d.parent ∷ c ∷ rest) b
      → Step a b
  starts :
      (c : CommandBuffer) (rest : List CommandBuffer) (f : Script) (w : World)
      → a.copies ≡ c ∷ rest
      → Gives (Command.start_command c f a.shared w) (λ d. d.parent ∷ c ∷ rest) b
      → Step a b
  adds_sync :
      (c : BufferedCommand) (rest : List CommandBuffer) (f : Value → Outcome) (w : World)
      → a.copies ≡ c.parent ∷ rest
      → Gives (Command.add_sync_command c f a.shared w) (λ d. d.parent ∷ rest) b
      → Step a b
  adds :
      (c : BufferedCommand) (rest : List CommandBuffer) (f : Value → Script) (w : World)
      → a.copies ≡ c.parent ∷ rest
      → Gives (Command.add_command c f a.shared w) (λ d. d.parent ∷ rest) b
      → Step a b
  responds :
      (c : BufferedCommand) (rest : List CommandBuffer) (w : World)
      → a.copies ≡ c.parent ∷ rest
      → Gives (Command.response c a.shared w) (λ _. rest) b
      → Step a b
  bakes :
      (c : CommandBuffer) (rest : List CommandBuffer) (w : World)
      → a.copies ≡ c ∷ rest
      → Gives (Command.finish c a.shared w) (λ d. d ∷ rest) b
      → Step a b
  takes :
      (c : CommandBuffer) (rest : List CommandBuffer) (w : World)
      → a.copies ≡ c ∷ rest
      → Gives (Command.tasks c a.shared w) (λ _. rest) b
      → Step a b
  drops :
      (c : CommandBuffer) (rest : List CommandBuffer)
      → a.copies ≡ c ∷ rest
      → b.copies ≡ rest
      → b.shared ≡ Command.drop a.shared
      → Step a b

-- Steps that keep the number of copies below the last `usize`.
pub data Reach (a : Held) : Held → Type 0 where
  here : Reach a a
  next : {b c : Held} → Reach a b → length c.copies + 1 < 2 ^ 64 → Step b c → Reach a c

-- The invariant, with room for one more copy.
abbrev Holds : Held → Type 0
Holds a = IsCounted a.copies a.shared × (length a.copies + 1 < 2 ^ 64)

-- A copy that a call makes, or one that a call consumes.
grown :
    (a b : Held) (c d : CommandBuffer) (rest : List CommandBuffer)
    → a.copies ≡ c ∷ rest
    → b.copies ≡ d ∷ c ∷ rest
    → length b.copies + 1 < 2 ^ 64
    → (d.baked ≡ none) × Grown c a.shared b.shared
    → IsCounted a.copies a.shared
    → IsCounted b.copies b.shared
grown a b c d rest e e' small (fresh, g) h =
    let l : length b.copies ≡ length (d ∷ c ∷ rest) = ap length e' in
    subst (λ cs. IsCounted cs b.shared) (sym e')
      (IsCounted-grow c d rest a.shared b.shared fresh (omega arith) g
        (subst (λ cs. IsCounted cs a.shared) e h))

replaced :
    (a b : Held) (c d : CommandBuffer) (rest : List CommandBuffer)
    → a.copies ≡ c ∷ rest
    → b.copies ≡ d ∷ rest
    → length b.copies + 1 < 2 ^ 64
    → (d.baked ≡ none) × ((u : Shared) × Grown c a.shared u × (b.shared ≡ Command.drop u))
    → IsCounted a.copies a.shared
    → IsCounted b.copies b.shared
replaced a b c d rest e e' small (fresh, (u, g, t)) h =
    let l : length b.copies ≡ length (d ∷ rest) = ap length e' in
    subst (λ cs. IsCounted cs b.shared) (sym e')
      (subst (IsCounted (d ∷ rest)) (sym t) (
        IsCounted-replace c d rest a.shared u fresh (omega arith) g
          (subst (λ cs. IsCounted cs a.shared) e h)))

dropped :
    (a b : Held) (c : CommandBuffer) (rest : List CommandBuffer)
    → a.copies ≡ c ∷ rest
    → b.copies ≡ rest
    → (u : Shared) × Same a.shared u × (b.shared ≡ Command.drop u)
    → Holds a
    → IsCounted b.copies b.shared
dropped a b c rest e e' (u, same, t) (h, small) =
    let l : length a.copies ≡ length (c ∷ rest) = ap length e in
    subst (λ cs. IsCounted cs b.shared) (sym e')
      (subst (IsCounted rest) (sym t) (
        IsCounted-drop c rest u (omega arith)
          (IsCounted-same (c ∷ rest) a.shared u same (subst (λ cs. IsCounted cs a.shared) e h))))

Step-IsCounted :
    (a b : Held) → length b.copies + 1 < 2 ^ 64 → Step a b → Holds a → IsCounted b.copies b.shared
Step-IsCounted a b small (Step.reorders c rest e e' t) (h, _) =
    subst (λ cs. IsCounted cs b.shared) (sym e')
      (subst (IsCounted (rest ++ c ∷ [])) (sym t)
        (IsCounted-reorder c rest a.shared (subst (λ cs. IsCounted cs a.shared) e h)))
Step-IsCounted a b small (Step.clones c rest w e (d, w', r, e')) (h, _) =
    grown a b c d rest e e' small (IfDone-eq (Fresh c a.shared) (clone-Fresh c a.shared w) r) h
Step-IsCounted a b small (Step.starts_sync c rest f w e (d, w', r, e')) (h, _) =
    grown a b c d.parent rest e e' small
      (IfDone-eq (FreshCommand c a.shared) (start_sync_command-Fresh c f a.shared w) r) h
Step-IsCounted a b small (Step.starts c rest f w e (d, w', r, e')) (h, _) =
    grown a b c d.parent rest e e' small
      (IfDone-eq (FreshCommand c a.shared) (start_command-Fresh c f a.shared w) r) h
Step-IsCounted a b small (Step.adds_sync c rest f w e (d, w', r, e')) (h, _) =
    replaced a b c.parent d.parent rest e e' small
      (IfDone-eq (Replaced c.parent a.shared) (add_sync_command-Replaced c f a.shared w) r) h
Step-IsCounted a b small (Step.adds c rest f w e (d, w', r, e')) (h, _) =
    replaced a b c.parent d.parent rest e e' small
      (IfDone-eq (Replaced c.parent a.shared) (add_command-Replaced c f a.shared w) r) h
Step-IsCounted a b small (Step.responds c rest w e (x, w', r, e')) h =
    dropped a b c.parent rest e e' (IfDone-eq (Dropped a.shared) (response-Dropped c a.shared w) r)
      h
Step-IsCounted a b small (Step.bakes c rest w e (d, w', r, e')) (h, _) =
    let (one, same) = IfDone-eq (Sole a.shared) (finish-Sole c a.shared w) r in
    subst (λ cs. IsCounted cs b.shared) (sym e')
      (IsCounted-bake c d rest a.shared b.shared one same (subst (λ cs. IsCounted cs a.shared) e h))
Step-IsCounted a b small (Step.takes c rest w e (x, w', r, e')) h =
    dropped a b c rest e e' (IfDone-eq (Dropped a.shared) (tasks-Dropped c a.shared w) r) h
Step-IsCounted a b small (Step.drops c rest e e' t) h =
    dropped a b c rest e e' (a.shared, (refl, refl), t) h

Reach-Holds : (a b : Held) → Reach a b → Holds a → Holds b
Reach-Holds a b Reach.here h = h
Reach-Holds a c (Reach.next {b = b} r small s) h =
    (Step-IsCounted b c small s (Reach-Holds a b r h), small)

-- However a new command buffer is copied, used, baked, consumed and dropped, with fewer than `2 ^ 64 - 1`
-- copies: the counter is the number of copies, the memory is freed exactly when none is left, and a copy
-- that is baked is the only one.
pub Reach-new-IsCounted :
    (ptr_is_null refs_is_null : Bool) (signal : ℕ) (c : CommandBuffer) (s : Shared) (b : Held)
    → Command.new ptr_is_null refs_is_null signal ≡ inr (c, s)
    → Reach (record { copies = c ∷ []; shared = s }) b
    → IsCounted b.copies b.shared
unfolding Command.new
Reach-new-IsCounted ptr_is_null refs_is_null signal c s b made r =
    (Reach-Holds _ b r (
      subst Q made (
        if-cases Q (ptr_is_null || refs_is_null) _ _ (λ _. tt)
          (λ _. (record { refs = refl; freed = refl; alone = refl }, omega arith))))).0
  where
    P : CommandBuffer × Shared → Type 0
    P x = Holds (record { copies = x.0 ∷ []; shared = x.1 })

    Q : CommandBufferAllocationError ⊎ (CommandBuffer × Shared) → Type 0
    Q (inl e) = Unit {0}
    Q (inr x) = P x
