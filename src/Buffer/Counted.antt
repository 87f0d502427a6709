-- ===== src/Buffer/Counted.antt =====
-- The copies of a command buffer and the counter: the invariant, and what adding a copy, dropping one,
-- replacing one and baking one do to it.
use mvsync.Base.{
  ℕ, suc, ◌+◌, ◌-◌, ◌%◌, ◌^◌, ◌<◌, Bool, true, false, ◌&&◌, ◌||◌, ◌==◌, none, List, [], ◌∷◌, ◌++◌,
  ◌≡◌, refl, sym, ◌∙◌, ltb, length, length-append, is_empty, is_some, if◌then◌else◌, arith,
}
use mvsync.Buffer.Counter.{Same, Grown}
use mvsync.Buffer.Command
use mvsync.Buffer.Command.{CommandBuffer, Shared}

abbrev pub any_baked : List CommandBuffer → Bool
any_baked [] = false
any_baked (c ∷ cs) = is_some c.baked || any_baked cs

-- The counter counts the copies, the memory is freed with the last of them, and a copy that is baked is
-- the only one.
pub record IsCounted (copies : List CommandBuffer) (s : Shared) : Type 0 where
  pub refs : s.refs ≡ length copies
  pub freed : s.freed ≡ is_empty copies
  pub alone : any_baked copies && ltb 1 (length copies) ≡ false

-- The other copies of a buffer are not baked.
rest-unbaked :
    (c : CommandBuffer) (rest : List CommandBuffer)
    → any_baked (c ∷ rest) && ltb 1 (length (c ∷ rest)) ≡ false
    → any_baked rest ≡ false
rest-unbaked c [] h = refl
rest-unbaked c (d ∷ rest) h = ground arith

any_baked-append :
    (xs ys : List CommandBuffer) → any_baked (xs ++ ys) ≡ any_baked xs || any_baked ys
any_baked-append [] ys = refl
any_baked-append (x ∷ xs) ys = ground (arith, any_baked-append xs ys)

is_empty-append_one :
    (xs : List CommandBuffer) (c : CommandBuffer) → is_empty (xs ++ c ∷ []) ≡ false
is_empty-append_one [] c = refl
is_empty-append_one (x ∷ xs) c = refl

pub IsCounted-reorder :
    (c : CommandBuffer) (rest : List CommandBuffer) (s : Shared)
    → IsCounted (c ∷ rest) s
    → IsCounted (rest ++ c ∷ []) s
IsCounted-reorder c rest s h = record {
  refs = h.refs ∙ omega (arith, length-append rest (c ∷ []));
  freed = h.freed ∙ sym (is_empty-append_one rest c);
  alone =
      let a = any_baked-append rest (c ∷ []) in
      let l = length-append rest (c ∷ []) in let k = h.alone in ground arith;
}

pub IsCounted-grow :
    (c d : CommandBuffer) (rest : List CommandBuffer) (s t : Shared)
    → d.baked ≡ none
    → length (d ∷ c ∷ rest) < 2 ^ 64
    → Grown c s t
    → IsCounted (c ∷ rest) s
    → IsCounted (d ∷ c ∷ rest) t
IsCounted-grow c d rest s t unbaked small (u, r, f) h = record {
  refs = let e = h.refs in omega arith;
  freed = f ∙ h.freed;
  alone = let k = rest-unbaked c rest h.alone in rw unbaked (rw u (rw k refl));
}

pub IsCounted-drop :
    (c : CommandBuffer) (rest : List CommandBuffer) (s : Shared)
    → length rest + 1 < 2 ^ 64
    → IsCounted (c ∷ rest) s
    → IsCounted rest (Command.drop s)
unfolding Command.drop
IsCounted-drop c rest s small h =
    at ((s.refs + 2 ^ 64 - 1) % 2 ^ 64) rest (let e = h.refs in omega arith) h.freed
      (rest-unbaked c rest h.alone)
  where
    at :
        (n : ℕ) (cs : List CommandBuffer)
        → n ≡ length cs
        → s.freed ≡ false
        → any_baked cs ≡ false
        → IsCounted cs
            (if n == 0 then record s { refs = n; freed = true } else record s { refs = n })
    at n [] e f u = rw e (record { refs = refl; freed = refl; alone = refl })
    at n (x ∷ xs) e f u =
        let some_left : suc (length xs) == 0 ≡ false = ground arith in
        rw e (rw some_left (record { refs = refl; freed = f; alone = rw u refl }))

pub IsCounted-same :
    (cs : List CommandBuffer) (s t : Shared) → Same s t → IsCounted cs s → IsCounted cs t
IsCounted-same cs s t (r, f) h = record { refs = r ∙ h.refs; freed = f ∙ h.freed; alone = h.alone }

pub IsCounted-reorder_two :
    (c d : CommandBuffer) (rest : List CommandBuffer) (s : Shared)
    → IsCounted (c ∷ d ∷ rest) s
    → IsCounted (d ∷ c ∷ rest) s
IsCounted-reorder_two c d rest s h = record {
  refs = h.refs;
  freed = h.freed;
  alone = let k = h.alone in ground arith;
}

pub IsCounted-replace :
    (c d : CommandBuffer) (rest : List CommandBuffer) (s u : Shared)
    → d.baked ≡ none
    → length (d ∷ rest) + 1 < 2 ^ 64
    → Grown c s u
    → IsCounted (c ∷ rest) s
    → IsCounted (d ∷ rest) (Command.drop u)
IsCounted-replace c d rest s u unbaked small g h =
    IsCounted-drop c (d ∷ rest) u small
      (IsCounted-reorder_two d c rest u (IsCounted-grow c d rest s u unbaked (omega arith) g h))

pub IsCounted-bake :
    (c d : CommandBuffer) (rest : List CommandBuffer) (s t : Shared)
    → s.refs ≡ 1
    → Same s t
    → IsCounted (c ∷ rest) s
    → IsCounted (d ∷ rest) t
IsCounted-bake c d [] s t one (r, f) h = record {
  refs = r ∙ h.refs;
  freed = f ∙ h.freed;
  alone = ground arith;
}
IsCounted-bake c d (x ∷ rest) s t one same h = let e = h.refs in absurd (omega arith)
