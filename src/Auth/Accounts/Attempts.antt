-- ===== src/Auth/Accounts/Attempts.antt =====
-- A verification code survives five comparisons.
use optra.Prelude.{
  ℕ, ◌+◌, ◌*◌, ◌≤◌, Bool, true, Option, none, some, List, [], ◌∷◌, String, ◌==◌, ltb, if◌then◌else◌,
  any, update, select, sum_where, eq_iff, eq_refl, All, All-update_where, ◌≡◌, ◌⊎◌, refl, arith,
  Bool-cases, Option-cases, inl, inr,
}
use optra.Auth.Store.{Otp, max_otp_attempts}
use optra.Auth.Accounts.{is_live, newest, spent, is_attempt_on, reserve_attempt}

-- The attempts made on the code rows with an id, and the number of those rows (one at most, for the
-- id is the primary key).
abbrev pub attempts : String → List Otp → ℕ
attempts id rows = sum_where (λ o. o.id == id) (λ (o : Otp). o.failed_attempts) rows

-- Whether a reservation lets a guess be compared with the code of an id.
abbrev pub compares : String → Option Otp → ℕ
compares id none = 0
compares id (some o) = if o.id == id then 1 else 0

newest-any :
    (q : Otp → Bool) (best : Option Otp) (rows : List Otp) (o : Otp)
    → newest best rows ≡ some o
    → q o ≡ true
    → (any q rows ≡ true) ⊎ (best ≡ some o)
unfolding newest
newest-any q best [] o h holds = inr h
newest-any q none (r ∷ rs) o h holds = elim (newest-any q (some r) rs o h holds) [
  | inl more ↦ inl (ground arith)
  | inr e ↦ let same : r ≡ o = cc e in inl (ground arith)
]
newest-any q (some b) (r ∷ rs) o h holds = elim (Bool-cases (ltb b.created_at r.created_at)) [
  | inl t ↦ elim (newest-any q (some r) rs o (rw t at h) holds) [
    | inl more ↦ inl (ground arith)
    | inr e ↦ let same : r ≡ o = cc e in inl (ground arith)
  ]
  | inr n ↦ elim (newest-any q (some b) rs o (rw n at h) holds) [
    | inl more ↦ inl (ground arith)
    | inr e ↦ inr e
  ]
]

any-select : (p q : Otp → Bool) (rows : List Otp) → any q (select p rows) ≡ true → any q rows ≡ true
any-select p q [] h = h
any-select p q (r ∷ rs) h = elim (Bool-cases (p r)) [
  | inl t ↦ elim (Bool-cases (q r)) [
    | inl y ↦ rw y refl
    | inr n ↦ let rest = any-select p q rs (rw (t, n) at h) in rw n rest
  ]
  | inr f ↦ let rest = any-select p q rs (rw f at h) in ground arith
]

attempts-update :
    (id other : String) (rows : List Otp)
    → attempts id rows ≤ attempts id (update (is_attempt_on other) spent rows)
attempts-update id other [] = omega arith
attempts-update id other (o ∷ os) = ground (arith, attempts-update id other os)

attempts-spent :
    (id : String) (rows : List Otp)
    → any (is_attempt_on id) rows ≡ true
    → attempts id rows + 1 ≤ attempts id (update (is_attempt_on id) spent rows)
attempts-spent id [] h = cc
attempts-spent id (o ∷ os) h = elim (Bool-cases (is_attempt_on id o)) [
  | inl t ↦ let more = attempts-update id id os in ground arith
  | inr n ↦ let more = attempts-spent id os (rw n at h) in ground arith
]

abbrev pub rows_of : String → List Otp → ℕ
rows_of id rows = sum_where (λ o. o.id == id) (λ _. 1) rows

rows-update :
    (id other : String) (rows : List Otp)
    → rows_of id (update (is_attempt_on other) spent rows) ≡ rows_of id rows
rows-update id other [] = refl
rows-update id other (o ∷ os) = ground (arith, rows-update id other os)

abbrev pub IsWithinLimit : Otp → Type 0
IsWithinLimit o = o.failed_attempts ≤ max_otp_attempts

spent-IsWithinLimit :
    (id : String) (o : Otp) → is_attempt_on id o ≡ true → IsWithinLimit o → IsWithinLimit (spent o)
spent-IsWithinLimit id o h _ = ground arith

attempts-le :
    (id : String) (rows : List Otp)
    → All IsWithinLimit rows
    → attempts id rows ≤ 5 * rows_of id rows
attempts-le id [] _ = omega arith
attempts-le id (o ∷ os) (h, hs) = let rest = attempts-le id os hs in ground arith

-- What a reservation does to the table.
abbrev IsReserved : String → List Otp → Option Otp × List Otp → Type 0
IsReserved id rows r =
    (attempts id rows + compares id r.0 ≤ attempts id r.1)
    × (rows_of id r.1 ≡ rows_of id rows)
    × All IsWithinLimit r.1

reserve-IsReserved :
    (id : String) (now : ℕ) (user_id : String) (rows : List Otp)
    → All IsWithinLimit rows
    → IsReserved id rows (reserve_attempt now user_id rows)
unfolding reserve_attempt
reserve-IsReserved id now user_id rows h =
    elim (Option-cases (newest none (select (is_live now user_id) rows))) [
      | inl n ↦ rw n (omega arith, refl, h)
      | inr (o, s) ↦ elim (Bool-cases (ltb o.failed_attempts max_otp_attempts)) [
        | inr n ↦ rw (s, n) (omega arith, refl, h)
        | inl t ↦
            let limit =
              All-update_where IsWithinLimit (is_attempt_on o.id) spent rows
                (spent-IsWithinLimit o.id) h in
            let hit : is_attempt_on o.id o ≡ true = rw (eq_refl o.id, t) refl in
            let found : any (is_attempt_on o.id) rows ≡ true =
              elim (newest-any (is_attempt_on o.id) none (select (is_live now user_id) rows) o s
                hit) [
                  | inl a ↦ any-select (is_live now user_id) (is_attempt_on o.id) rows a
                  | inr e ↦ cc e
                ] in
            let more : attempts id rows + compares id (some (spent o))
                ≤ attempts id (update (is_attempt_on o.id) spent rows) =
              elim (Bool-cases (o.id == id)) [
                | inl own ↦
                    let same : o.id ≡ id = (eq_iff o.id id).0 own in
                    rw own (rw same (attempts-spent id rows (rw same at found)))
                | inr other ↦
                    let grown = attempts-update id o.id rows in rw other (omega (arith, grown))
              ] in
            rw (s, t) (more, rows-update id o.id rows, limit)
      ]
    ]

-- Guesses, each at a time and for an account, one after the other.
unfoldable pub comparisons : String → List (ℕ × String) → List Otp → ℕ
comparisons id [] rows = 0
comparisons id ((now, user_id) ∷ guesses) rows =
    let (picked, after) = reserve_attempt now user_id rows in
    compares id picked + comparisons id guesses after

comparisons-spent :
    (id : String) (guesses : List (ℕ × String)) (rows : List Otp)
    → All IsWithinLimit rows
    → comparisons id guesses rows + attempts id rows ≤ 5 * rows_of id rows
unfolding comparisons
comparisons-spent id [] rows h = omega (arith, attempts-le id rows h)
comparisons-spent id ((now, user_id) ∷ guesses) rows h =
    let (grows, same, limit) = reserve-IsReserved id now user_id rows h in
    let rest = comparisons-spent id guesses (reserve_attempt now user_id rows).1 limit in
    omega (arith, grows, same, rest)

-- However many guesses are sent, at whatever times and for whichever accounts, at most five of them
-- are compared with the code of one row, when no row starts with more than five attempts (an id is
-- the primary key, so it has one row at most).
pub comparisons-le :
    (id : String) (guesses : List (ℕ × String)) (rows : List Otp)
    → All IsWithinLimit rows
    → comparisons id guesses rows ≤ 5 * rows_of id rows
comparisons-le id guesses rows h = omega (arith, comparisons-spent id guesses rows h)
