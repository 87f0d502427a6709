-- ===== src/Worker/Drained.antt =====
-- A thread whose handle is gone runs what it has to the end and leaves its loop: `WorkerThread::run` of
-- src/queue.rs after the queue was dropped.
use mvsync.Base.{
  ℕ, zero, suc, ◌+◌, ◌≤◌, true, false, List, [], ◌∷◌, ◌++◌, map, ◌≡◌, refl, sym, ap, subst, ◌∙◌,
  inl, inr, is_empty, Bool-cases, length, All, All-append, All-of_append, All-mono, arith,
}
use mvsync.World.{World}
use mvsync.Exec.{done, ◌>>=◌, Returns, Returns-mono, Returns-done}
use mvsync.Task.{Task}
use mvsync.Task.Ids.{ids}
use mvsync.Worker
use mvsync.Worker.{WorkerThread, Running, start, receive, receive_all, poll_all, park, run}
use mvsync.Worker.Moves.{states, states-append, states-start}
use mvsync.Worker.Received.{is_empty-eq, receive_one}
use mvsync.Worker.Grows.{IsDone}
use mvsync.Worker.Finish.{Ends, Ends-suc, Later, Accounts}
use mvsync.Worker.Orphan.{
  EndsAll, Lasts, Left, Left-mono, IsOrphan, Accounts-All, After, pass-After, run-continues,
  run-drained,
}

EndsAll-Later : (n : ℕ) (rs : List Running) → All (λ r. Later n r.state r.inner) rs → EndsAll n rs
EndsAll-Later zero [] later = tt
EndsAll-Later zero (r ∷ rs) (none, _) = absurd none
EndsAll-Later (suc n) rs later =
    All-mono (λ r. Ends n r.state r.inner) (λ r. Ends (suc n) r.state r.inner) rs
      (λ r. Ends-suc n r.state r.inner) later

receive_busy :
    (t : WorkerThread)
    → is_empty t.futures ≡ false
    → receive false t ≡ Worker.continues (receive_all t)
unfolding receive
receive_busy t busy = rw busy refl

-- The tasks of a thread, by their states.
abbrev pub tasks_of : WorkerThread → List ℕ
tasks_of t = states t.futures ++ ids t.channel

states-receive_all : (t : WorkerThread) → states (receive_all t).futures ≡ tasks_of t
unfolding receive_all
states-receive_all t =
    states-append t.futures (map start t.channel)
    ∙ ap (λ xs. states t.futures ++ xs) (states-start t.channel)

-- With nothing kept everything is done.
none_kept :
    (v w : World) (ss : List ℕ) (kept : List Running)
    → kept ≡ []
    → Accounts w ss kept
    → All (IsDone w) ss
none_kept v w ss kept e a = Accounts-All w w ss kept a (λ i d. d) (rw e tt)

is_empty-Later : (rs : List Running) → All (λ r. Later zero r.state r.inner) rs → is_empty rs ≡ true
is_empty-Later [] later = refl
is_empty-Later (r ∷ rs) (none, _) = absurd none

-- What follows a turn that left the channel empty, if the loop goes on for the futures that are kept.
after_busy :
    (ss : List ℕ) (n fuel : ℕ) (v w : World) (u : WorkerThread)
    → n + 2 ≤ suc fuel
    → u.channel ≡ []
    → IsOrphan u
    → All (λ r. Later n r.state r.inner) u.futures
    → Lasts v w
    → Accounts w ss u.futures
    → ((m : ℕ)
        → m + 2 ≤ fuel
        → is_empty u.futures ≡ false
        → EndsAll m u.futures
        → Returns (Left (tasks_of u) w) (run fuel false u w))
    → Returns (Left ss v) (run fuel false u w)
after_busy ss n fuel v w u enough empty alone later g a ih =
    elim (Bool-cases (is_empty u.futures)) [
      | inl idle ↦
          run-drained ss v fuel u w (omega arith) (is_empty-eq u.futures idle) empty alone g
            (none_kept w w ss u.futures (is_empty-eq u.futures idle) a)
      | inr busy ↦ goes_on n enough later busy
    ]
  where
    goes_on :
        (n : ℕ)
        → n + 2 ≤ suc fuel
        → All (λ r. Later n r.state r.inner) u.futures
        → is_empty u.futures ≡ false
        → Returns (Left ss v) (run fuel false u w)
    goes_on zero enough later busy =
        let no : true ≡ false = sym (is_empty-Later u.futures later) ∙ busy in cc
    goes_on (suc m) enough later busy =
        Left-mono (tasks_of u) ss w v (run fuel false u w) g
          (λ z more d.
            Accounts-All w z ss u.futures a more
              ((All-of_append (IsDone z) (states u.futures) (ids u.channel) d).0))
          (ih m (omega arith) busy later)

run-busy :
    (n fuel : ℕ) (t : WorkerThread) (w : World)
    → n + 2 ≤ fuel
    → is_empty t.futures ≡ false
    → IsOrphan t
    → EndsAll n t.futures
    → EndsAll n (map start t.channel)
    → Returns (Left (tasks_of t) w) (run fuel false t w)
unfolding receive_all
run-busy n zero t w enough busy orphan ends waiting = absurd (omega arith)
run-busy n (suc fuel) t w enough busy orphan ends waiting =
    let u = receive_all t in
    run-continues (tasks_of t) w fuel t u w (receive_busy t busy) (
      Returns-mono (After n u w) (λ x y. Returns (Left (tasks_of t) w) (run fuel false x y))
        ((poll_all u >>= park) w)
        (λ x y (empty, alone, later, g, a).
          after_busy (tasks_of t) n fuel w y x enough empty alone later g
            (subst (λ ss. Accounts y ss x.futures) (states-receive_all t) a)
            (λ m le busy' ends'.
              run-busy m fuel x y le busy' alone ends'
                (subst (λ ts. EndsAll m (map start ts)) (sym empty) tt)))
        (pass-After n u w orphan
          (All-append (λ r. Ends n r.state r.inner) t.futures (map start t.channel) ends waiting)))

-- What follows a turn that took one task, `ts` being left in the channel.
after_idle :
    (task : Task) (ts : List Task) (fuel : ℕ) (v w : World) (u : WorkerThread)
    → u.channel ≡ ts
    → Lasts v w
    → Accounts w (task.self_state ∷ []) u.futures
    → (u.futures ≡ [] → Returns (Left (ids ts) w) (run fuel false u w))
    → (is_empty u.futures ≡ false → Returns (Left (tasks_of u) w) (run fuel false u w))
    → Returns (Left (ids (task ∷ ts)) v) (run fuel false u w)
after_idle task ts fuel v w u rest g a ih_idle ih_busy = elim (Bool-cases (is_empty u.futures)) [
  | inl idle ↦
      Left-mono (ids ts) (ids (task ∷ ts)) w v (run fuel false u w) g
        (λ z more d. (
          more task.self_state
              ((none_kept w w (task.self_state ∷ []) u.futures (is_empty-eq u.futures idle) a).0),
          d,
        ))
        (ih_idle (is_empty-eq u.futures idle))
  | inr busy ↦
      Left-mono (tasks_of u) (ids (task ∷ ts)) w v (run fuel false u w) g
        (λ z more d.
          let (front, back) = All-of_append (IsDone z) (states u.futures) (ids u.channel) d in
          (
            (Accounts-All w z (task.self_state ∷ []) u.futures a more front).0,
            subst (λ us. All (IsDone z) (ids us)) rest back,
          ))
        (ih_busy busy)
]

run-idle :
    (n fuel : ℕ) (ts : List Task) (t : WorkerThread) (w : World)
    → length ts + n + 2 ≤ fuel
    → t.channel ≡ ts
    → t.futures ≡ []
    → IsOrphan t
    → EndsAll n (map start ts)
    → Returns (Left (ids ts) w) (run fuel false t w)
unfolding start
run-idle n fuel [] t w enough empty idle orphan waiting =
    run-drained [] w fuel t w (omega arith) idle empty orphan (λ i d. d) tt
run-idle n zero (task ∷ ts) t w enough at idle orphan waiting = absurd (omega arith)
run-idle n (suc fuel) (task ∷ ts) t w enough at idle orphan (ends, waiting) =
    let u : WorkerThread = record t { channel = ts; futures = start task ∷ [] } in
    run-continues (ids (task ∷ ts)) w fuel t u w (receive_one false t task ts idle (orphan.1) at) (
      Returns-mono (After n u w) (λ x y. Returns (Left (ids (task ∷ ts)) w) (run fuel false x y))
        ((poll_all u >>= park) w)
        (λ x y (rest, alone, later, g, a).
          after_idle task ts fuel w y x rest g a
            (λ idle'. run-idle n fuel ts x y (omega arith) rest idle' alone waiting)
            (λ busy.
              run-busy n fuel x y (omega arith) busy alone (EndsAll-Later n x.futures later)
                (subst (λ us. EndsAll n (map start us)) (sym rest) waiting)))
        (pass-After n u w orphan (ends, tt)))

run-Left :
    (n : ℕ) (t : WorkerThread) (w : World)
    → IsOrphan t
    → EndsAll n t.futures
    → EndsAll n (map start t.channel)
    → Returns (Left (tasks_of t) w) (run (length t.channel + n + 2) false t w)
run-Left n t w orphan ends waiting = elim (Bool-cases (is_empty t.futures)) [
  | inl idle ↦
      let none : t.futures ≡ [] = is_empty-eq t.futures idle in
      subst
        (λ rs.
          Returns (Left (states rs ++ ids t.channel) w) (run (length t.channel + n + 2) false t w))
        (sym none)
        (run-idle n (length t.channel + n + 2) t.channel t w (omega arith) refl none orphan waiting)
  | inr busy ↦ run-busy n (length t.channel + n + 2) t w (omega arith) busy orphan ends waiting
]

-- A thread that nobody has ended and whose handle is gone, with any tasks in its channel and futures that wait
-- for no predecessor and come to an end after at most `n` polls that pend, each of which calls the waker: with
-- one turn for each task in the channel and `n + 2` more the thread leaves its loop, with nothing in its channel
-- or its futures, and all these tasks are done.
pub run-ends :
    (n : ℕ) (t : WorkerThread) (w : World)
    → t.connected ≡ false
    → t.end ≡ 0
    → EndsAll n t.futures
    → EndsAll n (map start t.channel)
    → (u : WorkerThread) × (v : World) × (run (length t.channel + n + 2) false t w
        ≡ done (Worker.ends u) v)
      × (u.channel ≡ [])
      × (u.futures ≡ [])
      × (u.end ≡ 2)
      × All (IsDone v) (tasks_of t)
run-ends n t w gone live ends waiting =
    let fuel = length t.channel + n + 2 in
    let (r, v, e, left) =
      Returns-done (Left (tasks_of t) w) (run fuel false t w)
        (run-Left n t w (gone, live) ends waiting) in
    ended r v e left
  where
    ended :
        (r : Worker.Turn) (v : World)
        → run (length t.channel + n + 2) false t w ≡ done r v
        → Left (tasks_of t) w r v
        → (u : WorkerThread) × (v : World) × (run (length t.channel + n + 2) false t w
            ≡ done (Worker.ends u) v)
          × (u.channel ≡ [])
          × (u.futures ≡ [])
          × (u.end ≡ 2)
          × All (IsDone v) (tasks_of t)
    ended (Worker.ends u) v e (empty, idle, over, _, d) = (u, v, e, empty, idle, over, d)
    ended (Worker.continues u) v e left = absurd left
    ended (Worker.parked u) v e left = absurd left
