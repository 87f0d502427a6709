-- ===== src/Worker/Served.antt =====
-- A thread serves every task that is sent to it, whatever the other tasks on it do: the loop of
-- `WorkerThread::run` in src/queue.rs by turns, from a task in the channel to its handle.
use mvsync.Base.{
  ℕ, zero, suc, ◌+◌, Bool, true, false, not, Bool-cases, ◌&&◌, List, [], ◌∷◌, map, ◌≡◌, refl, sym,
  ap, subst, ◌∙◌, inl, inr, is_empty, if-cases, length, All, arith,
}
use mvsync.World.{World, Value, TaskState}
use mvsync.Exec.{M, ◌>>=◌, Returns, Returns-and_then, Returns-mono}
use mvsync.Task.{Task}
use mvsync.Task.Body.{Script, Reply}
use mvsync.Task.Handle.{TaskHandle}
use mvsync.Await.Scripts.{Resolves}
use mvsync.Worker
use mvsync.Worker.{WorkerThread, start, receive, receive_all, poll_all, park}
use mvsync.Worker.Received.{receive_one, is_empty-eq}
use mvsync.Worker.Spare.{IsOther, AllSpared, retain-AllSpared}
use mvsync.Worker.Turns.{Passes, Within, Within-le, turn-Goes}
use mvsync.Worker.Fair.{Carries}
use mvsync.Worker.Carried.{
  Gives, Carries-append, append-Carries, receive_some, Carries-some, Going, pass-Gives, pass-Going,
}

module _ (h : TaskHandle) (f : Script) (x : Value) (e : Bool) where
  -- From the turn that receives on, with the task among the futures that are polled.
  received :
      (n j : ℕ) (t u : WorkerThread) (w : World)
      → receive e t ≡ Worker.continues u
      → Going h f x e j u w
      → Resolves f j n (Reply.returns x)
      → Within (Gives h x) n e t w
  unfolding receive_all
  received zero j t u w r g resolves =
      subst (λ a. Passes (Gives h x) a w) (sym r) (pass-Gives h f x e zero j u w g resolves)
  received (suc n) j t u w r g resolves = inr (
      turn-Goes (Within (Gives h x) n e) e t u w r (
        Returns-mono (Going h f x e (suc j)) (Within (Gives h x) n e) ((poll_all u >>= park) w)
          (λ t' v g'.
            received n (suc j) t' (receive_all t') v
              (receive_some h f x e t' (Carries-some h f x e (suc j) t'.futures g'.0))
              (Carries-append h f x e (suc j) t'.futures (map start t'.channel) g'.0 g'.1, tt, g'.2)
              resolves.1)
          (pass-Going h f x e n j u w g resolves)))

  -- A turn with others among the futures, and the task in the channel still.
  abbrev Waiting : List Task → WorkerThread → World → Type 0
  Waiting ts t w =
      (t.channel ≡ ts)
      × All (IsOther h) t.futures
      × (t.end ≡ 0)
      × (w.states h.state ≡ TaskState.pending)

  pass-Waiting :
      (t : WorkerThread) (ts : List Task) (w : World)
      → is_empty ts ≡ false
      → Waiting ts t w
      → Returns (Waiting ts) ((poll_all t >>= park) w)
  unfolding poll_all park
  pass-Waiting t ts w some (at, others, live, pending) =
      Returns-and_then (Waiting ts) (Waiting ts) (poll_all t w) park
        (Returns-and_then (AllSpared h w) (Waiting ts)
          (Worker.retain t.signal t.futures t.free_workers w) _
          (retain-AllSpared h t.signal t.futures t.free_workers w others)
          (λ (kept, _) v (all, s). (at, all, live, s.state ∙ pending)))
        (λ u v g.
          if-cases (λ (m : M WorkerThread). Returns (Waiting ts) (m v))
            (not (is_empty u.futures) && is_empty u.channel) _ _
            (λ stop. absurd (occupied (not (is_empty u.futures)) (ap is_empty g.0 ∙ some) stop))
            (λ _. g))
    where
      occupied : {c : Bool} (b : Bool) → c ≡ false → (b && c) ≡ true → ⊥
      occupied b e stop = ground arith

  module _ (n : ℕ) (task : Task) (ts : List Task) (t : WorkerThread) (w : World)
      (g : Waiting (task ∷ ts) t w) (resolves : Resolves f 0 n (Reply.returns x)) where
    -- A busy thread takes everything in the channel.
    queued_busy :
        Carries h f 0 (map start (task ∷ ts))
        → is_empty t.futures ≡ false
        → Within (Gives h x) n e t w
    unfolding receive_all
    queued_busy c busy =
        let c' : Carries h f 0 (map start t.channel) =
          subst (λ us. Carries h f 0 (map start us)) (sym (g.0)) c in
        received n 0 t (receive_all t) w (receive_some h f x e t busy)
          (append-Carries h f x e 0 t.futures (map start t.channel) (g.1) c', tt, g.3) resolves

    -- An idle one takes the first task, which is the one or another.
    queued_idle :
        t.futures ≡ []
        → Carries h f 0 (map start (task ∷ ts))
        → ((t' : WorkerThread) (w' : World)
            → Waiting ts t' w'
            → Carries h f 0 (map start ts)
            → Within (Gives h x) (length ts + n) e t' w')
        → Within (Gives h x) (suc (length ts + n)) e t w
    queued_idle idle (inl (m, others)) ih =
        Within-le (Gives h x) n (suc (length ts + n)) e t w (omega arith) (
          received n 0 t (record t { channel = ts; futures = start task ∷ [] }) w
            (receive_one e t task ts idle (g.2) (g.0)) (inl (m, tt), others, g.3) resolves)
    queued_idle idle (inr (o, c)) ih =
        let u = record t { channel = ts; futures = start task ∷ [] } in
        inr (
          turn-Goes (Within (Gives h x) (length ts + n) e) e t u w
            (receive_one e t task ts idle (g.2) (g.0))
            (Returns-mono (Waiting ts) (Within (Gives h x) (length ts + n) e)
              ((poll_all u >>= park) w) (λ t' v g'. ih t' v g' c)
              (pass-Waiting u ts w (Carries-tasks ts c) (refl, (o, tt), g.2, g.3))))
      where
        Carries-tasks : (ts : List Task) → Carries h f 0 (map start ts) → is_empty ts ≡ false
        Carries-tasks [] c = absurd c
        Carries-tasks (t ∷ ts) c = refl

  queued :
      (n : ℕ) (ts : List Task) (t : WorkerThread) (w : World)
      → Waiting ts t w
      → Carries h f 0 (map start ts)
      → Resolves f 0 n (Reply.returns x)
      → Within (Gives h x) (length ts + n) e t w
  queued n [] t w g c resolves = absurd c
  queued n (task ∷ ts) t w g c resolves = elim (Bool-cases (is_empty t.futures)) [
    | inl idle ↦
        Within-le (Gives h x) (suc (length ts + n)) (length (task ∷ ts) + n) e t w (omega arith) (
          queued_idle n task ts t w g resolves (is_empty-eq t.futures idle) c
            (λ t' v g' c'. queued n ts t' v g' c' resolves))
    | inr busy ↦
        Within-le (Gives h x) n (length (task ∷ ts) + n) e t w (omega arith)
          (queued_busy n task ts t w g resolves c busy)
  ]

-- A task whose state is pending in the channel of a thread that nobody has ended, over a future that pends
-- `n` times, calling its waker, and then returns, among any other tasks without a predecessor in the channel
-- and in the futures, whose functions and futures may return, panic or pend for ever: after at most as many
-- turns as there are tasks in the channel and `n` more, each of which goes on, a pass over the futures leaves
-- its handle done with the value.
pub Carries-Within :
    (h : TaskHandle) (f : Script) (x : Value) (end_when_done : Bool) (n : ℕ) (t : WorkerThread)
    (w : World)
    → Carries h f 0 (map start t.channel)
    → All (IsOther h) t.futures
    → t.end ≡ 0
    → w.states h.state ≡ TaskState.pending
    → Resolves f 0 n (Reply.returns x)
    → Within (Gives h x) (length t.channel + n) end_when_done t w
Carries-Within h f x e n t w c others live pending resolves =
    queued h f x e n t.channel t w (refl, others, live, pending) c resolves
