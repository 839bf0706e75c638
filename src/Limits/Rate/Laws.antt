-- ===== src/Limits/Rate/Laws.antt =====
-- What the counters let pass.
use optra.Prelude.{
  ℕ, suc, ◌+◌, ◌≤◌, ◌≡◌, ◌↔◌, ◌⊎◌, inl, inr, refl, Bool, true, false, ◌&&◌, Option, some, List, [],
  ◌∷◌, String, ◌==◌, eq_iff, eq_refl, Bool-cases, if◌then◌else◌, arith,
}
use optra.Http.{Result, ok, fail}
use optra.Limits.Rate.{
  Counter, get, incr, user_key, workspace_key, check, refine_key, check_refine_daily, refine_status,
}

get-incr_self :
    (key : String) (redis : List Counter) → get key (incr key redis) ≡ suc (get key redis)
unfolding get incr
get-incr_self key [] = rw (eq_refl key) refl
get-incr_self key (c ∷ cs) = ground (arith, get-incr_self key cs)

get-incr_le :
    (key other : String) (redis : List Counter) → get key redis ≤ get key (incr other redis)
unfolding get incr
get-incr_le key other [] = omega arith
get-incr_le key other (c ∷ cs) = ground (arith, get-incr_le key other cs)

-- A request for a chat.
pub record Request : Type 0 where
  pub user_id : String
  pub workspace_id : String
  pub now : ℕ

abbrev pub passes : Result (Unit {0}) → Bool
passes (ok _) = true
passes (fail _) = false

module _ (digits : ℕ → String) where
  -- How many of the requests pass that count under this key of a user and a minute.
  unfoldable pub passed : ℕ → Option ℕ → String → List Request → List Counter → ℕ
  passed per_user per_workspace key [] redis = 0
  passed per_user per_workspace key (r ∷ rs) redis =
      let (answer, after) =
        check digits (some per_user) per_workspace true r.user_id r.workspace_id r.now redis in
      (if (user_key digits r.user_id r.now == key) && passes answer then 1 else 0)
      + passed per_user per_workspace key rs after

  check-grows :
      (per_user per_workspace : Option ℕ) (r : Request) (key : String) (redis : List Counter)
      → get key redis
        ≤ get key (check digits per_user per_workspace true r.user_id r.workspace_id r.now redis).1
  unfolding check
  check-grows per_user per_workspace r key redis =
      let one = incr (user_key digits r.user_id r.now) redis in
      ground (
        arith,
        get-incr_le key (user_key digits r.user_id r.now) redis,
        get-incr_le key (workspace_key digits r.workspace_id r.now) one,
      )

  -- A request that passes has counted its user's minute to at most the limit.
  check-counts :
      (per_user : ℕ) (per_workspace : Option ℕ) (r : Request) (redis : List Counter)
      → let (answer, after) =
          check digits (some per_user) per_workspace true r.user_id r.workspace_id r.now redis in
        (suc (get (user_key digits r.user_id r.now) redis)
          ≤ get (user_key digits r.user_id r.now) after)
        × ((passes answer ≡ false) ⊎ (suc (get (user_key digits r.user_id r.now) redis) ≤ per_user))
  unfolding check
  check-counts per_user per_workspace r redis =
      let key = user_key digits r.user_id r.now in
      let one = incr key redis in
      ground (
        arith,
        get-incr_self key redis,
        get-incr_le key (workspace_key digits r.workspace_id r.now) one,
      )

  passed-left :
      (per_user : ℕ) (per_workspace : Option ℕ) (key : String) (rs : List Request)
      (redis : List Counter)
      → (passed per_user per_workspace key rs redis ≡ 0)
        ⊎ (passed per_user per_workspace key rs redis + get key redis ≤ per_user)
  unfolding passed
  passed-left per_user per_workspace key [] redis = inl refl
  passed-left per_user per_workspace key (r ∷ rs) redis =
      let (answer, after) =
        check digits (some per_user) per_workspace true r.user_id r.workspace_id r.now redis in
      let (grown, let_in) = check-counts per_user per_workspace r redis in
      let more = passed-left per_user per_workspace key rs after in
      let kept = check-grows (some per_user) per_workspace r key redis in
      elim (Bool-cases (user_key digits r.user_id r.now == key)) [
        | inr n ↦ rw n (ground (arith, more, kept))
        | inl y ↦ elim (Bool-cases (passes answer)) [
          | inr p ↦ rw (y, p) (ground (arith, more, kept))
          | inl p ↦
              let same = (eq_iff (user_key digits r.user_id r.now) key).0 y in
              rw (y, p) (ground (arith, more, rw same at grown, rw same at let_in))
        ]
      ]

  -- While Redis answers, of all requests for chats that come, of any users and workspaces, at most
  -- the limit of a user's requests pass in one minute.
  pub passed-le :
      (per_user : ℕ) (per_workspace : Option ℕ) (key : String) (rs : List Request)
      (redis : List Counter)
      → passed per_user per_workspace key rs redis ≤ per_user
  passed-le per_user per_workspace key rs redis =
      ground (arith, passed-left per_user per_workspace key rs redis)

  abbrev refine_passes : ℕ → String → String → List Counter → Bool
  refine_passes limit user_id day redis =
      passes (check_refine_daily digits (some limit) true user_id day redis).0

  -- While Redis answers, the status that a user is shown agrees with the limit: the next refine
  -- request of the day passes just when the status says that one remains, and then the status after
  -- it says one more used.
  pub refine_status-agrees :
      (limit : ℕ) (user_id day : String) (redis : List Counter)
      → let status = refine_status digits limit true user_id day redis in
        let (answer, after) = check_refine_daily digits (some limit) true user_id day redis in
        ((passes answer ≡ true) ↔ (1 ≤ status.remaining))
        × ((refine_status digits limit true user_id day after).used ≡ suc status.used)
  unfolding check_refine_daily refine_status
  refine_status-agrees limit user_id day redis =
      let key = refine_key digits user_id day in ground (arith, get-incr_self key redis)
