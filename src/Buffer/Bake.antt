-- ===== src/Buffer/Bake.antt =====
-- `RawCommandBuffer::finish`: when it panics, and which tasks it gives.
use mvsync.Base.{
  ℕ, zero, suc, Bool, true, ◌&&◌, Option, none, some, List, [], ◌∷◌, ◌++◌, ◌≡◌, refl, ap, subst,
  ◌∙◌, ltb, if-cases, length, length-modify, get_elem?, modify, is_empty, is_some,
  is_some-get_elem?,
}
use mvsync.World.{World}
use mvsync.Exec.{unwinds, and_then}
use mvsync.Exec.Guarded.{Guarded, Guarded-and_then, Guarded-if, Guarded-mono, Guarded-pure}
use mvsync.Sync.{SemaphoreUsage}
use mvsync.Sync.Semaphore
use mvsync.Task
use mvsync.Task.{Task}
use mvsync.Task.Ids.{ids, ids-append, ids-modify}
use mvsync.Buffer.Chain
use mvsync.Buffer.Chain.{TaskChain, link, chain_tasks, ending_semaphore, starting_semaphore}
use mvsync.Buffer.Raw
use mvsync.Buffer.Raw.{RawCommandBuffer, bind_fences, link_all, chain_all, finish}

-- Every fence and every link names chains that there are.
abbrev fences_fit : ℕ → List (ℕ × ℕ) → Bool
fences_fit n [] = true
fences_fit n ((i, fence) ∷ fences) = ltb i n && fences_fit n fences

abbrev links_fit : ℕ → List (ℕ × ℕ) → Bool
links_fit n [] = true
links_fit n ((e, s) ∷ links) = (ltb e n && ltb s n) && links_fit n links

abbrev pub in_bounds : RawCommandBuffer → Bool
in_bounds r = fences_fit (length r.tasks) r.fences && links_fit (length r.tasks) r.chain_links

abbrev pub chain_ids : List TaskChain → List ℕ
chain_ids [] = []
chain_ids (c ∷ cs) = ids c.tasks ++ chain_ids cs

chain_ids-modify :
    (cs : List TaskChain) (i : ℕ) (f : TaskChain → TaskChain)
    → ((c : TaskChain) → ids (f c).tasks ≡ ids c.tasks)
    → chain_ids (modify cs i f) ≡ chain_ids cs
chain_ids-modify [] i f h = refl
chain_ids-modify (c ∷ cs) zero f h = ap (λ xs. xs ++ chain_ids cs) (h c)
chain_ids-modify (c ∷ cs) (suc i) f h = ap (λ xs. ids c.tasks ++ xs) (chain_ids-modify cs i f h)

ids-ending : (s : ℕ) (c : TaskChain) → ids (ending_semaphore c s).tasks ≡ ids c.tasks
unfolding ending_semaphore
ids-ending s c =
    if-cases {A = TaskChain} (λ d. ids d.tasks ≡ ids c.tasks) (is_empty c.tasks) _ _ (λ _. refl)
      (λ _. ids-modify c.tasks _ _ (λ t. refl))

ids-starting : (s : ℕ) (c : TaskChain) → ids (starting_semaphore c s).tasks ≡ ids c.tasks
unfolding starting_semaphore
ids-starting s c =
    if-cases {A = TaskChain} (λ d. ids d.tasks ≡ ids c.tasks) (is_empty c.tasks) _ _ (λ _. refl)
      (λ _. ids-modify c.tasks _ _ (λ t. refl))

ids-link : (t : Task) (ts : List Task) (w : World) → ids (link t ts w).0 ≡ ids (t ∷ ts)
unfolding link
ids-link t [] w = refl
ids-link t (u ∷ ts) w =
    ap (λ xs. t.self_state ∷ xs)
      (ids-link (Task.bind_semaphore u (Semaphore.new w).0 SemaphoreUsage.wait) ts
        (Semaphore.new w).1)

ids-chain_tasks : (ts : List Task) (w : World) → ids (chain_tasks ts w).0 ≡ ids ts
unfolding chain_tasks
ids-chain_tasks [] w = refl
ids-chain_tasks (t ∷ ts) w = ids-link t ts w

ids-chain_all : (cs : List TaskChain) (w : World) → ids (chain_all cs w).0 ≡ chain_ids cs
unfolding chain_all Chain.chain_semaphores
ids-chain_all [] w = refl
ids-chain_all (c ∷ cs) w =
    let (ts, w') = chain_tasks c.tasks w in
    ids-append ts (chain_all cs w').0
    ∙ ap (λ xs. xs ++ ids (chain_all cs w').0) (ids-chain_tasks c.tasks w)
    ∙ ap (λ xs. ids c.tasks ++ xs) (ids-chain_all cs w')

bind_fences-Guarded :
    (fs : List (ℕ × ℕ)) (cs : List TaskChain) (w : World)
    → Guarded (λ _ _. Unit {0}) (fences_fit (length cs) fs) (bind_fences fs cs w)
unfolding bind_fences
bind_fences-Guarded [] cs w = tt
bind_fences-Guarded ((i, fence) ∷ fs) cs w =
    at (bind_fences-Guarded fs cs) (get_elem? cs i) (is_some-get_elem? cs i)
  where
    at :
        ((v : World) → Guarded (λ _ _. Unit {0}) (fences_fit (length cs) fs) (bind_fences fs cs v))
        → (c : Option TaskChain) → is_some c ≡ ltb i (length cs)
        → Guarded
            (λ _ _. Unit {0})
            (ltb i (length cs) && fences_fit (length cs) fs)
            (elim c [
              | none ↦ unwinds Raw.fence_out_of_bounds w
              | some c ↦ bind_fences fs cs (Chain.ending_fence c fence w)
            ])
    at rest none e = rw (← e) tt
    at rest (some c) e = rw (← e) (rest (Chain.ending_fence c fence w))

link_all-Guarded :
    (ls : List (ℕ × ℕ)) (cs : List TaskChain) (w : World)
    → Guarded (λ cs' _. chain_ids cs' ≡ chain_ids cs) (links_fit (length cs) ls) (link_all ls cs w)
unfolding link_all
link_all-Guarded [] cs w = refl
link_all-Guarded ((e, s) ∷ ls) cs w =
    let (semaphore, w') = Semaphore.new w in
    let cs₁ = modify cs e (λ c. ending_semaphore c semaphore) in
    let cs₂ = modify cs₁ s (λ c. starting_semaphore c semaphore) in
    Guarded-if (λ cs' _. chain_ids cs' ≡ chain_ids cs) (ltb e (length cs) && ltb s (length cs))
      (links_fit (length cs) ls) (link_all ls cs₂ w') Raw.semaphore_out_of_bounds w
      (subst
        (λ n. Guarded (λ cs' _. chain_ids cs' ≡ chain_ids cs) (links_fit n ls) (link_all ls cs₂ w'))
        (length-modify cs₁ s _ ∙ length-modify cs e _)
        (Guarded-mono (λ cs' _. chain_ids cs' ≡ chain_ids cs₂)
          (λ cs' _. chain_ids cs' ≡ chain_ids cs) (links_fit (length cs₂) ls) (link_all ls cs₂ w')
          (λ cs' v h.
            h
            ∙ chain_ids-modify cs₁ s _ (ids-starting semaphore)
            ∙ chain_ids-modify cs e _ (ids-ending semaphore))
          (link_all-Guarded ls cs₂ w')))

-- What a buffer that was baked holds, and which tasks came out.
abbrev pub IsBaked : RawCommandBuffer → List Task × RawCommandBuffer → Type 0
IsBaked r (ts, r') =
    (ids ts ≡ chain_ids r.tasks) × (r' ≡ record r { tasks = []; chain_links = []; fences = [] })

-- A buffer whose fences and links all name chains of it is baked: the tasks come out in the order in which
-- they stand in the chains, none lost, none doubled, and the buffer is left empty. If one names a chain that is
-- not there the baking panics.
pub finish_lem :
    (r : RawCommandBuffer) (w : World) → Guarded (λ out _. IsBaked r out) (in_bounds r) (finish r w)
unfolding finish
finish_lem r w =
    Guarded-pure (λ cs _. chain_ids cs ≡ chain_ids r.tasks) (λ out _. IsBaked r out) (in_bounds r)
      (and_then (bind_fences r.fences r.tasks w) (λ _. link_all r.chain_links r.tasks)) _
      (Guarded-and_then (λ _ _. Unit {0}) (λ cs _. chain_ids cs ≡ chain_ids r.tasks)
        (fences_fit (length r.tasks) r.fences) (links_fit (length r.tasks) r.chain_links)
        (bind_fences r.fences r.tasks w) (λ _. link_all r.chain_links r.tasks)
        (bind_fences-Guarded r.fences r.tasks w)
        (λ _ v _. link_all-Guarded r.chain_links r.tasks v))
      (λ cs v h. (ids-chain_all cs v ∙ h, refl))
