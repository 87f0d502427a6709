-- ===== src/Worker/Moves.antt =====
-- Which tasks a turn of a thread takes from its channel.
use mvsync.Base.{
  ℕ, ◌+◌, Bool, true, ◌&&◌, ◌||◌, List, [], ◌∷◌, ◌++◌, map, ◌≡◌, refl, ap, ltb, is_empty, if-cases,
  count, count-append, arith,
}
use mvsync.Task.{Task}
use mvsync.Task.Ids.{ids}
use mvsync.Worker
use mvsync.Worker.{WorkerThread, Running, start}

-- The states of the entries, which tell the tasks apart.
abbrev pub states : List Running → List ℕ
states [] = []
states (r ∷ rs) = r.state ∷ states rs

pub states-append : (rs ss : List Running) → states (rs ++ ss) ≡ states rs ++ states ss
states-append [] ss = refl
states-append (r ∷ rs) ss = ap (λ xs. r.state ∷ xs) (states-append rs ss)

pub states-start : (ts : List Task) → states (map start ts) ≡ ids ts
unfolding start
states-start [] = refl
states-start (t ∷ ts) = ap (λ xs. t.self_state ∷ xs) (states-start ts)

-- What a thread takes from its channel it puts behind its futures.
abbrev pub Moves : WorkerThread → Worker.Turn → Type 0
Moves t (Worker.continues u) =
    (moved : List ℕ) × ((a : ℕ) → count a (ids t.channel) ≡ count a moved + count a (ids u.channel))
    × ((a : ℕ) → count a (states u.futures) ≡ count a moved + count a (states t.futures))
Moves t _ = Unit {0}

count-no_states : (rs : List Running) (a : ℕ) → is_empty rs ≡ true → count a (states rs) ≡ 0
count-no_states [] a h = refl
count-no_states (r ∷ rs) a h = cc

receive_first-Moves :
    (e : Bool) (t : WorkerThread) → is_empty t.futures ≡ true → Moves t (Worker.receive_first e t)
unfolding Worker.receive_first Worker.receive_none Worker.start
receive_first-Moves e t none_running =
    if-cases (Moves t) (ltb 0 t.end || (e && is_empty t.channel)) _ _ (λ _. tt)
      (λ _. first t.channel)
  where
    first :
        (ts : List Task)
        → Moves
            (record t { channel = ts })
            (elim ts [
              | [] ↦ Worker.receive_none t
              | task ∷ rest ↦
                  Worker.continues (record t { channel = rest; futures = Worker.start task ∷ [] })
            ])
    first [] = if-cases (Moves (record t { channel = [] })) t.connected _ _ (λ _. tt) (λ _. tt)
    first (task ∷ rest) = (
      task.self_state ∷ [],
      (λ a. omega arith),
      λ a. omega (arith, count-no_states t.futures a none_running),
    )

pub receive-Moves : (e : Bool) (t : WorkerThread) → Moves t (Worker.receive e t)
unfolding Worker.receive Worker.receive_all
receive-Moves e t = if-cases (Moves t) (is_empty t.futures) _ _ (receive_first-Moves e t) (λ _. (
  ids t.channel,
  (λ a. omega arith),
  λ a. omega (
    arith,
    ap (count a) (states-append t.futures (map start t.channel)),
    ap (count a) (states-start t.channel),
    count-append a (states t.futures) (states (map start t.channel)),
  ),
))
