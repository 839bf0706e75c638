-- ===== src/Prelude/Tables.antt =====
-- A database table is the list of its rows in the order of insertion. The queries that the services
-- send through drizzle are these functions, with the `where` clause as a Boolean test.
use Prim.Native.Nat.{ℕ, suc, ◌+◌}
use mathlib.Core.Path.{◌≡◌, subst}
use mathlib.Core.Logic.{inl, inr}
use mathlib.Core.Bool.{Bool, true, false, ◌||◌}
use mathlib.Core.Option.{Option, none, some}
use mathlib.Core.List.{List, [], ◌∷◌, ◌++◌}
use native.Mathlib.Omega.{arith}
use optra.Prelude.Tests.{if◌then◌else◌, Bool-cases}

module _ {ℓ} {A : Type ℓ} where
  -- select * from rows where p
  abbrev pub select : (A → Bool) → List A → List A
  select p [] = []
  select p (x ∷ xs) = let rest = select p xs in if p x then x ∷ rest else rest

  -- select * from rows where p limit 1
  abbrev pub first : (A → Bool) → List A → Option A
  first p [] = none
  first p (x ∷ xs) = let rest = first p xs in if p x then some x else rest

  abbrev pub any : (A → Bool) → List A → Bool
  any p [] = false
  any p (x ∷ xs) = p x || any p xs

  -- update rows set f where p
  abbrev pub update : (A → Bool) → (A → A) → List A → List A
  update p f [] = []
  update p f (x ∷ xs) = (if p x then f x else x) ∷ update p f xs

  -- select coalesce(sum(q), 0) from rows where p
  abbrev pub sum_where : (A → Bool) → (A → ℕ) → List A → ℕ
  sum_where p q [] = 0
  sum_where p q (x ∷ xs) = (if p x then q x else 0) + sum_where p q xs

  abbrev pub length : List A → ℕ
  length [] = 0
  length (x ∷ xs) = suc (length xs)

  abbrev pub All {κ} : (A → Type κ) → List A → Type κ
  All P [] = Unit
  All P (x ∷ xs) = P x × All P xs

module _ {ℓ} {A : Type ℓ} where
  pub sum_where-append :
      (p : A → Bool) (q : A → ℕ) (xs ys : List A)
      → sum_where p q (xs ++ ys) ≡ sum_where p q xs + sum_where p q ys
  sum_where-append p q [] ys = omega arith
  sum_where-append p q (x ∷ xs) ys = omega (arith, sum_where-append p q xs ys)

  pub any-append_single :
      (p : A → Bool) (xs : List A) (y : A) → any p (xs ++ y ∷ []) ≡ (any p xs || p y)
  any-append_single p [] y = ground arith
  any-append_single p (x ∷ xs) y = ground (arith, any-append_single p xs y)

  pub first-eq-some : (p : A → Bool) (xs : List A) {a : A} → first p xs ≡ some a → p a ≡ true
  first-eq-some p [] h = ground arith
  first-eq-some p (x ∷ xs) {a} h = ground (arith, first-eq-some p xs {a = a})

module _ {ℓ κ} {A : Type ℓ} (P : A → Type κ) where
  pub All-if : (b : Bool) {x y : A} → P x → P y → P (if b then x else y)
  All-if true h k = h
  All-if false h k = k

  pub All-concat : (xs : List A) {y : A} → All P xs → P y → All P (xs ++ y ∷ [])
  All-concat [] h k = (k, tt)
  All-concat (x ∷ xs) (h, hs) k = (h, All-concat xs hs k)

  pub All-first : (p : A → Bool) (xs : List A) {a : A} → All P xs → first p xs ≡ some a → P a
  All-first p [] _ e = ground arith
  All-first p (x ∷ xs) {a} (h, hs) e = elim (Bool-cases (p x)) [
    | inl t ↦ let same : x ≡ a = cc (rw t at e) in subst P same h
    | inr f ↦ All-first p xs hs (rw f at e)
  ]

  pub All-update :
      (p : A → Bool) (f : A → A) (xs : List A)
      → ((x : A) → P x → P (f x))
      → All P xs
      → All P (update p f xs)
  All-update p f [] keep _ = tt
  All-update p f (x ∷ xs) keep (h, hs) = (All-if (p x) (keep x h) h, All-update p f xs keep hs)

  pub All-update_where :
      (p : A → Bool) (f : A → A) (xs : List A)
      → ((x : A) → p x ≡ true → P x → P (f x))
      → All P xs
      → All P (update p f xs)
  All-update_where p f [] keep _ = tt
  All-update_where p f (x ∷ xs) keep (h, hs) = elim (Bool-cases (p x)) [
    | inl t ↦ rw t (keep x t h, All-update_where p f xs keep hs)
    | inr n ↦ rw n (h, All-update_where p f xs keep hs)
  ]
