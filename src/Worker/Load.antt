-- ===== src/Worker/Load.antt =====
-- How many workers of a thread are free or taken, from the side of the thread's own loop.
use mvsync.Base.{
  ℕ, suc, ◌+◌, ◌^◌, ◌≤◌, ◌<◌, Bool, true, false, List, [], ◌∷◌, map, ◌≡◌, refl, ap, length,
  length-append, arith,
}
use mvsync.World.{World}
use mvsync.Exec.{M, IfDone, IfDone-and_then, IfDone-always, IfDone-mono}
use mvsync.Worker.{
  WorkerThread, Running, Verdict, remove, fetch_add, retain, after_verdict, poll_one, poll_all,
  start, receive, receive_first, receive_all, continues,
}

-- The free workers of a thread, and the tasks that it has been sent and has not finished with.
abbrev pub load : WorkerThread → ℕ
load t = t.free_workers + length t.channel + length t.futures

length-map {ℓ κ} :
    {A : Type ℓ} {B : Type κ} (f : A → B) (xs : List A) → length (map f xs) ≡ length xs
length-map f [] = refl
length-map f (x ∷ xs) = ap suc (length-map f xs)

abbrev Within : ℕ → List Running × ℕ → World → Type 0
Within n (kept, free) w = free + length kept ≤ n

after_verdict-Within :
    (rest : ℕ → M (List Running × ℕ)) (n : ℕ)
    → ((free : ℕ) (w : World) → free + n < 2 ^ 32 → IfDone (Within (free + n)) (rest free w))
    → (free : ℕ) (v : Verdict) (w : World) → free + suc n < 2 ^ 32
    → IfDone (Within (free + suc n)) (after_verdict rest free v w)
unfolding after_verdict
after_verdict-Within rest n ih free (Verdict.keep r) w fits =
    IfDone-and_then (Within (free + n)) _ (rest free w) _ (ih free w (omega arith))
      λ (kept, free') _ h. omega arith
after_verdict-Within rest n ih free (remove true) w fits =
    IfDone-mono _ _ (rest (fetch_add free) w) (λ (kept, free') _ h. omega arith)
      (ih (fetch_add free) w (omega arith))
after_verdict-Within rest n ih free (remove false) w fits =
    IfDone-mono _ _ (rest free w) (λ (kept, free') _ h. omega arith) (ih free w (omega arith))

retain-Within :
    (signal : ℕ) (rs : List Running) (free : ℕ) (w : World)
    → free + length rs < 2 ^ 32
    → IfDone (Within (free + length rs)) (retain signal rs free w)
unfolding retain
retain-Within signal [] free w fits = omega arith
retain-Within signal (x ∷ rs) free w fits =
    IfDone-and_then (λ _ _. Unit {0}) _ (poll_one signal x w) _
      (IfDone-always _ (poll_one signal x w) (λ _ _. tt))
      λ v w' _.
        after_verdict-Within (retain signal rs) (length rs) (retain-Within signal rs) free v w' fits

-- One pass of a thread over its futures never makes room for more than it had.
pub poll_all-load :
    (t : WorkerThread) (w : World)
    → load t < 2 ^ 32
    → IfDone (λ t' _. load t' ≤ load t) (poll_all t w)
unfolding poll_all
poll_all-load t w fits =
    IfDone-and_then (Within (t.free_workers + length t.futures)) _
      (retain t.signal t.futures t.free_workers w) _
      (retain-Within t.signal t.futures t.free_workers w (omega arith))
      λ (kept, free') _ h. omega arith

pub receive-load : (e : Bool) (t t' : WorkerThread) → receive e t ≡ continues t' → load t' ≡ load t
unfolding receive receive_first receive_all
receive-load e t t' h =
    ground (arith, length-append t.futures (map start t.channel), length-map start t.channel)
