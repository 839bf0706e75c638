-- ===== src/Ai/Limit/Laws.antt =====
-- At most `concurrency` tasks run, in the order in which they were handed in.
use optra.Prelude.{
  ℕ, suc, ◌≤◌, ◌≡◌, ◌⊎◌, inl, inr, refl, sym, ap, ◌∙◌, true, some, List, [], ◌∷◌, ◌++◌, length, any,
  ltb, eqb, Bool-cases, ltb→lt, arith,
}
use mathlib.Core.List.{append_assoc, append-nil}
use optra.Ai.Limit.{
  Limiter, idle, create_limit, start, start_next, release, submit, without, settle, Event, submits,
  settles, step, run, submissions,
}

pub length-concat : (xs : List ℕ) (x : ℕ) → length (xs ++ x ∷ []) ≡ suc (length xs)
length-concat [] x = refl
length-concat (y ∷ ys) x = ap suc (length-concat ys x)

pub length-without :
    (t : ℕ) (xs : List ℕ) → any (eqb t) xs ≡ true → suc (length (without t xs)) ≡ length xs
unfolding without
length-without t [] h = ground arith
length-without t (x ∷ xs) h = ground (arith, length-without t xs)

-- A slot is counted for every running task, no more than there are, and a task waits only while
-- every slot is taken.
pub record IsBusy (concurrency : ℕ) (l : Limiter) : Type 0 where
  pub counted : l.active ≡ length l.running
  pub bounded : l.active ≤ concurrency
  pub taken : (l.pending ≡ []) ⊎ (l.active ≡ concurrency)

submit-IsBusy : (n t : ℕ) (l : Limiter) → IsBusy n l → IsBusy n (submit n t l)
unfolding submit start
submit-IsBusy n t l v = elim (Bool-cases (ltb l.active n)) [
  | inl e ↦ rw e (record {
    counted = omega (arith, length-concat l.running t, v.counted);
    bounded = ground arith;
    taken = ground (arith, v.taken);
  })
  | inr e ↦ rw e (record {
    counted = v.counted;
    bounded = v.bounded;
    taken = ground (arith, v.taken, v.bounded);
  })
]

start_next-IsBusy :
    (n : ℕ) (ws : List ℕ) (l : Limiter)
    → l.active ≡ length l.running
    → suc l.active ≤ n
    → (ws ≡ []) ⊎ (suc l.active ≡ n)
    → l.pending ≡ ws
    → IsBusy n (start_next ws l)
unfolding start_next start
start_next-IsBusy n [] l c b t p = record { counted = c; bounded = omega arith; taken = inl p }
start_next-IsBusy n (w ∷ ws) l c b t p = record {
  counted = omega (arith, length-concat l.running w);
  bounded = b;
  taken = ground (arith, t);
}

settle-IsBusy : (n t : ℕ) (l : Limiter) → IsBusy n l → IsBusy n (settle t l)
unfolding settle release
settle-IsBusy n t l v = elim (Bool-cases (any (eqb t) l.running)) [
  | inl e ↦
      let shorter = length-without t l.running e in
      rw e (
        start_next-IsBusy n l.pending _ (omega (arith, v.counted, shorter))
          (omega (arith, v.counted, v.bounded, shorter))
          (ground (arith, v.taken, v.counted, shorter)) refl)
  | inr e ↦ rw e v
]

pub step-IsBusy : (n : ℕ) (l : Limiter) (e : Event) → IsBusy n l → IsBusy n (step n l e)
unfolding step
step-IsBusy n l (submits t) v = submit-IsBusy n t l v
step-IsBusy n l (settles t) v = settle-IsBusy n t l v

run-IsBusy_from : (n : ℕ) (l : Limiter) (es : List Event) → IsBusy n l → IsBusy n (run n l es)
unfolding run
run-IsBusy_from n l [] v = v
run-IsBusy_from n l (e ∷ es) v = run-IsBusy_from n (step n l e) es (step-IsBusy n l e v)

create_limit-IsBusy : (n : ℕ) (l : Limiter) → create_limit n ≡ some l → IsBusy n l
unfolding create_limit
create_limit-IsBusy n l h = elim (Bool-cases (ltb n 1)) [
  | inl e ↦ cc (rw e at h)
  | inr e ↦
      let same : l ≡ idle = cc (rw e at h) in
      rw same (record { counted = refl; bounded = omega arith; taken = inl refl })
]

-- From a new limiter, whatever the order in which tasks are handed in and settle: its count is the
-- number of tasks that run, that number is at most the concurrency, and a task waits only while as
-- many tasks run as may.
pub run-IsBusy :
    (n : ℕ) (l : Limiter) (es : List Event) → create_limit n ≡ some l → IsBusy n (run n l es)
run-IsBusy n l es h = run-IsBusy_from n l es (create_limit-IsBusy n l h)

-- The tasks that the limiter has seen, in the order in which it starts them.
abbrev pub line : Limiter → List ℕ
line l = l.started ++ l.pending

line-start_next : (ws : List ℕ) (l : Limiter) → l.pending ≡ ws → line (start_next ws l) ≡ line l
unfolding start_next start
line-start_next [] l p = refl
line-start_next (w ∷ ws) l p = rw (p, append_assoc l.started (w ∷ []) ws) refl

pub line-settle : (t : ℕ) (l : Limiter) → line (settle t l) ≡ line l
unfolding settle release
line-settle t l = elim (Bool-cases (any (eqb t) l.running)) [
  | inl e ↦ rw e (line-start_next l.pending _ refl)
  | inr e ↦ rw e refl
]

line-submit : (n t : ℕ) (l : Limiter) → IsBusy n l → line (submit n t l) ≡ line l ++ t ∷ []
unfolding submit start
line-submit n t l v = elim (Bool-cases (ltb l.active n)) [
  | inl e ↦ elim v.taken [
    | inl p ↦ rw (e, p, append-nil l.started, append-nil (l.started ++ t ∷ [])) refl
    | inr full ↦ absurd (omega (arith, ltb→lt l.active n e, full))
  ]
  | inr e ↦ rw e (sym (append_assoc l.started l.pending (t ∷ [])))
]

line-run_from :
    (n : ℕ) (l : Limiter) (es : List Event)
    → IsBusy n l
    → line (run n l es) ≡ line l ++ submissions es
unfolding run submissions step
line-run_from n l [] v = sym (append-nil (line l))
line-run_from n l (submits t ∷ es) v =
    line-run_from n (submit n t l) es (submit-IsBusy n t l v)
    ∙ ap (λ xs. xs ++ submissions es) (line-submit n t l v)
    ∙ append_assoc (line l) (t ∷ []) (submissions es)
line-run_from n l (settles t ∷ es) v =
    line-run_from n (settle t l) es (settle-IsBusy n t l v)
    ∙ ap (λ xs. xs ++ submissions es) (line-settle t l)

create_limit-line : (n : ℕ) (l : Limiter) → create_limit n ≡ some l → line l ≡ []
unfolding create_limit
create_limit-line n l h = elim (Bool-cases (ltb n 1)) [
  | inl e ↦ cc (rw e at h)
  | inr e ↦ let same : l ≡ idle = cc (rw e at h) in rw same refl
]

-- A limiter is a FIFO queue: after any history, the tasks that it has started followed by those that
-- wait are the tasks that were handed in, in their order; none is lost, overtaken or started twice.
pub line-run :
    (n : ℕ) (l : Limiter) (es : List Event)
    → create_limit n ≡ some l
    → line (run n l es) ≡ submissions es
line-run n l es h =
    line-run_from n l es (create_limit-IsBusy n l h)
    ∙ ap (λ xs. xs ++ submissions es) (create_limit-line n l h)
