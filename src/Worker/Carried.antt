-- ===== src/Worker/Carried.antt =====
-- The futures of a thread that carries the task of a handle, for a turn of `WorkerThread::run` in src/queue.rs.
use mvsync.Base.{
  ℕ, suc, Bool, true, false, not, ◌&&◌, List, [], ◌∷◌, ◌++◌, map, ◌≡◌, refl, inl, inr, is_empty,
  if-cases, All,
}
use mvsync.World.{World, Value, TaskState}
use mvsync.Exec.{done, M, ◌>>=◌, Returns, Returns-and_then}
use mvsync.Signal
use mvsync.Task.{Task}
use mvsync.Task.Body.{Script, Reply}
use mvsync.Task.Handle
use mvsync.Task.Handle.{TaskHandle, TaskResult}
use mvsync.Await.Scripts.{Resolves}
use mvsync.Run.Execute.{Holds, wait-Holds, after_take}
use mvsync.Worker
use mvsync.Worker.{WorkerThread, Running, start, receive, receive_all, poll_all, park}
use mvsync.Worker.Spare.{IsOther}
use mvsync.Worker.Fair.{Carries, After, retain-After}

-- The handle is done and gives the value.
abbrev pub Gives : TaskHandle → Value → World → Type 0
Gives h x w =
    (Handle.is_done h w ≡ true) × ((v : World) × (Handle.wait h w ≡ done (TaskResult.returned x) v))

Gives-Holds : (h : TaskHandle) (x : Value) (w : World) → Holds h x w → Gives h x w
unfolding Handle.is_done
Gives-Holds h x w held = (rw (held.state) refl, (after_take h w, wait-Holds h x w held))

module _ (h : TaskHandle) (f : Script) (x : Value) (e : Bool) where
  abbrev pub Others : List Task → Type 0
  Others ts = All (IsOther h) (map start ts)

  pub Carries-append :
      (j : ℕ) (rs ss : List Running)
      → Carries h f j rs
      → All (IsOther h) ss
      → Carries h f j (rs ++ ss)
  Carries-append j [] ss c o = absurd c
  Carries-append j (r ∷ rs) ss (inl (m, others)) o = inl (m, both rs others)
    where
      both : (rs : List Running) → All (IsOther h) rs → All (IsOther h) (rs ++ ss)
      both [] a = o
      both (q ∷ qs) (a, more) = (a, both qs more)
  Carries-append j (r ∷ rs) ss (inr (a, c)) o = inr (a, Carries-append j rs ss c o)

  pub append-Carries :
      (j : ℕ) (rs ss : List Running)
      → All (IsOther h) rs
      → Carries h f j ss
      → Carries h f j (rs ++ ss)
  append-Carries j [] ss o c = c
  append-Carries j (r ∷ rs) ss (a, o) c = inr (a, append-Carries j rs ss o c)

  pub receive_some :
      (t : WorkerThread)
      → is_empty t.futures ≡ false
      → receive e t ≡ Worker.continues (receive_all t)
  unfolding receive
  receive_some t some = rw some refl

  pub Carries-some : (j : ℕ) (rs : List Running) → Carries h f j rs → is_empty rs ≡ false
  Carries-some j [] c = absurd c
  Carries-some j (r ∷ rs) c = refl

  -- A thread's own task after a turn.
  abbrev pub Going : ℕ → WorkerThread → World → Type 0
  Going j t w = Carries h f j t.futures × Others t.channel × (w.states h.state ≡ TaskState.pending)

  park-Going :
      (j : ℕ) (t : WorkerThread) (w : World)
      → Going j t w
      → (w.signals t.signal).ready ≡ true
      → Returns (Going j) (park t w)
  unfolding park Signal.wait
  park-Going j t w g up =
      if-cases (λ (m : M WorkerThread). Returns (Going j) (m w))
        (not (is_empty t.futures) && is_empty t.channel) _ _ (λ _. rw (up, Returns) g) (λ _. g)

  module _ (n j : ℕ) (t : WorkerThread) (w : World) (g : Going j t w) where
    pub pass-Gives : Resolves f j 0 (Reply.returns x) → Returns (λ _ v. Gives h x v) (poll_all t w)
    unfolding poll_all
    pass-Gives resolves =
        Returns-and_then (After h f x t.signal j 0) (λ _ v. Gives h x v)
          (Worker.retain t.signal t.futures t.free_workers w) _
          (retain-After h f x t.signal j 0 resolves t.futures t.free_workers w g.0 g.2)
          (λ _ v (_, held). Gives-Holds h x v held)

    pub pass-Going :
        Resolves f j (suc n) (Reply.returns x) → Returns (Going (suc j)) ((poll_all t >>= park) w)
    unfolding poll_all
    pass-Going resolves =
        Returns-and_then (λ u v. Going (suc j) u v × ((v.signals u.signal).ready ≡ true))
          (Going (suc j)) (poll_all t w) park
          (Returns-and_then (After h f x t.signal j (suc n)) _
            (Worker.retain t.signal t.futures t.free_workers w) _
            (retain-After h f x t.signal j (suc n) resolves t.futures t.free_workers w g.0 g.2)
            (λ (kept, _) v (c, p, up). ((c, g.1, p), up)))
          (λ u v (g', up). park-Going (suc j) u v g' up)
