-- ===== src/Ai/Limit/Progress.antt =====
-- A limiter whose tasks settle starts every task.
use optra.Prelude.{
  ℕ, suc, ◌+◌, ◌-◌, ◌≤◌, ◌≡◌, ◌⊎◌, inl, inr, refl, sym, ap, ◌∙◌, true, some, List, [], ◌∷◌, ◌++◌,
  length, any, eqb, arith,
}
use mathlib.Core.List.{append-nil}
use optra.Ai.Limit.{
  Limiter, create_limit, start, start_next, release, settle, without, Event, run, submissions,
  settles, step,
}
use optra.Ai.Limit.Laws.{
  IsBusy, run-IsBusy, step-IsBusy, line, line-run, line-settle, length-concat, length-without,
}

-- `k` tasks settle, one after the other, in any order.
pub data Finishes : ℕ → Limiter → Limiter → Type 0 where
  done : {l : Limiter} → Finishes 0 l l
  next :
      {k : ℕ} {l m : Limiter} (t : ℕ)
      → any (eqb t) l.running ≡ true
      → Finishes k (settle t l) m
      → Finishes (suc k) l m

-- The tasks that have not settled.
abbrev pub unsettled : Limiter → ℕ
unsettled l = length l.running + length l.pending

unsettled-start_next :
    (ws : List ℕ) (l : Limiter) → l.pending ≡ ws → unsettled (start_next ws l) ≡ unsettled l
unfolding start_next start
unsettled-start_next [] l p = refl
unsettled-start_next (w ∷ ws) l p = rw p (omega (arith, length-concat l.running w))

unsettled-settle :
    (t : ℕ) (l : Limiter)
    → any (eqb t) l.running ≡ true
    → suc (unsettled (settle t l)) ≡ unsettled l
unfolding settle release
unsettled-settle t l h = rw h (
    omega (
      arith,
      unsettled-start_next l.pending
          (record l { active = l.active - 1; running = without t l.running }) refl,
      length-without t l.running h,
    ))

Finishes-unsettled : {k : ℕ} {l m : Limiter} → Finishes k l m → k + unsettled m ≡ unsettled l
Finishes-unsettled done = omega arith
Finishes-unsettled (next {k} {l} {m} t h rest) =
    omega (arith, Finishes-unsettled rest, unsettled-settle t l h)

Finishes-line : {k : ℕ} {l m : Limiter} → Finishes k l m → line m ≡ line l
Finishes-line done = refl
Finishes-line (next {l = l} t h rest) = Finishes-line rest ∙ line-settle t l

Finishes-IsBusy : {k n : ℕ} {l m : Limiter} → Finishes k l m → IsBusy n l → IsBusy n m
unfolding step
Finishes-IsBusy done v = v
Finishes-IsBusy {n = n} (next {l = l} t h rest) v =
    Finishes-IsBusy rest (step-IsBusy n l (settles t) v)

head_of : (xs : List ℕ) → (xs ≡ []) ⊎ ((t : ℕ) × (any (eqb t) xs ≡ true))
head_of [] = inl refl
head_of (x ∷ xs) = inr (x, ground arith)

idle-waits_none : (n : ℕ) (l : Limiter) → 1 ≤ n → IsBusy n l → l.running ≡ [] → l.pending ≡ []
idle-waits_none n l h v e = elim v.taken [
  | inl p ↦ p
  | inr full ↦ absurd (omega (arith, v.counted, full, ap length e))
]

create_limit-positive : (n : ℕ) (l : Limiter) → create_limit n ≡ some l → 1 ≤ n
unfolding create_limit
create_limit-positive n l h = ground arith

-- From any state of a limiter, each task that settles brings it one step nearer to its end, in
-- whatever order the tasks settle, and it ends only when every task that was handed in has been
-- started, in order: as long as that is not so, some task is running.
pub Finishes-starts_all :
    (n k : ℕ) (l m : Limiter) (es : List Event)
    → create_limit n ≡ some l
    → Finishes k (run n l es) m
    → (k + unsettled m ≡ unsettled (run n l es))
      × ((m.started ≡ submissions es) ⊎ ((t : ℕ) × (any (eqb t) m.running ≡ true)))
Finishes-starts_all n k l m es h f = (
  Finishes-unsettled f,
  elim (head_of m.running) [
    | inl e ↦
        let none_wait =
          idle-waits_none n m (create_limit-positive n l h)
            (Finishes-IsBusy f (run-IsBusy n l es h)) e in
        inl (
          sym (append-nil m.started)
          ∙ ap (λ ws. m.started ++ ws) (sym none_wait)
          ∙ Finishes-line f
          ∙ line-run n l es h)
    | inr more ↦ inr more
  ],
)
