-- ===== src/Ai/Crawl/Weight.antt =====
-- The weight of the queue of a crawl, by the depths of its entries.
use optra.Prelude.{
  ℕ, zero, suc, ◌+◌, ◌-◌, ◌*◌, ◌^◌, ◌≤◌, ◌<◌, ◌≡◌, refl, ap, List, [], ◌∷◌, ◌++◌, length, arith,
}
use native.Mathlib.Nat.{zero-add, suc-add, suc-mul, mul-le-mul}
use optra.Ai.Crawl.{Entry}

-- Entries that lie `left` links above the deepest level weigh `weight most left`, where a page
-- queues at most `most` entries.
unfoldable pub weight : ℕ → ℕ → ℕ
weight most zero = 1
weight most (suc left) = suc most * weight most left

unfoldable pub load : ℕ → ℕ → List Entry → ℕ
load most deepest [] = 0
load most deepest (e ∷ es) = weight most (deepest - e.depth) + load most deepest es

pub weight-positive : (most left : ℕ) → 1 ≤ weight most left
unfolding weight
weight-positive most zero = omega arith
weight-positive most (suc left) =
    rw (suc-mul most (weight most left)) (omega (arith, weight-positive most left))

pub load-append :
    (most deepest : ℕ) (xs ys : List Entry)
    → load most deepest (xs ++ ys) ≡ load most deepest xs + load most deepest ys
unfolding load
load-append most deepest [] ys = omega arith
load-append most deepest (x ∷ xs) ys = omega (arith, load-append most deepest xs ys)

pub length-append_single :
    {A : Type 0} (xs : List A) (x : A) → length (xs ++ x ∷ []) ≡ suc (length xs)
length-append_single [] x = refl
length-append_single (y ∷ ys) x = ap suc (length-append_single ys x)

pub room : (most used w : ℕ) → used < most → (most - used) * w ≡ (most - suc used) * w + w
room most used w h =
    let split : most - used ≡ suc (most - suc used) = omega arith in
    rw split (suc-mul (most - suc used) w)

weight-mono_most : (m n left : ℕ) → m ≤ n → weight m left ≤ weight n left
unfolding weight
weight-mono_most m n zero h = omega arith
weight-mono_most m n (suc left) h = mul-le-mul (omega arith) (weight-mono_most m n left h)

weight-mono_left : (most left more : ℕ) → weight most left ≤ weight most (left + more)
unfolding weight
weight-mono_left most zero more = rw (zero-add more) (weight-positive most more)
weight-mono_left most (suc left) more =
    rw (suc-add left more) (mul-le-mul (omega arith) (weight-mono_left most left more))

pub weight-le : (most left : ℕ) → most ≤ 2000 → left ≤ 5 → weight most left ≤ 2001 ^ 5
unfolding weight
weight-le most left h k =
    let whole : left + (5 - left) ≡ 5 = omega arith in
    let longer : weight most left ≤ weight most 5 =
      rw whole at (weight-mono_left most left (5 - left)) in
    let largest : weight 2000 5 ≡ 2001 ^ 5 = refl in
    omega (arith, longer, weight-mono_most most 2000 5 h, largest)
