-- ===== src/Procurement/Decisions/Laws.antt =====
-- The record of decisions: append-only, one closing for each flag, and no effect across workspaces.
use optra.Prelude.{
  ℕ, Bool, true, false, Option, some, List, [], ◌∷◌, ◌++◌, String, ◌==◌, ◌&&◌, first, update, trim,
  truthy, or_else, ◌≡◌, ◌⊎◌, refl, sym, ap, ◌∙◌, arith, Bool-cases, Option-cases, inl, inr,
}
use mathlib.Core.List.{append-nil, append_assoc}
use optra.Procurement.Decisions.{
  Flag, Store, dismissed, is_open, is_flag, is_open_flag, closed, dismiss_flag, record_decision,
}

-- What a person sends, at a time, to a workspace and a flag.
pub data Action : Type 0 where
  dismiss : ℕ → String → String → String → Action
  decide : ℕ → String → String → String → String → Option String → Action

unfoldable pub act : Action → Store → Store
act (dismiss now ws flag user) store = (dismiss_flag now ws flag user store).0
act (decide now ws flag user outcome note) store =
    (record_decision now ws flag user outcome note store).0

unfoldable pub act_all : List Action → Store → Store
act_all [] store = store
act_all (a ∷ acts) store = act_all acts (act a store)

-- The update of a step: it closes the open flags that a test picks, or nothing.
abbrev StepFlags : List Flag → List Flag → Type 0
StepFlags before after =
    (after ≡ before)
    ⊎ ((p : Flag → Bool) × (now : ℕ) × (user : String) × (((f : Flag)
            → p f ≡ true
            → is_open f.status ≡ true)
          × (after ≡ update p (closed now user) before)))

abbrev pub IsExtension : {A : Type 0} → List A → List A → Type 0
IsExtension {A} before after = (more : List A) × (after ≡ before ++ more)

both-open : (a b : Bool) → (a && b) ≡ true → b ≡ true
both-open a b h = ground arith

dismiss-step :
    (now : ℕ) (ws flag user : String) (store : Store)
    → IsExtension store.decisions (dismiss_flag now ws flag user store).0.decisions
      × StepFlags store.flags (dismiss_flag now ws flag user store).0.flags
unfolding dismiss_flag
dismiss-step now ws flag user store =
    elim (Option-cases (first (is_open_flag ws flag) store.flags)) [
      | inl n ↦ rw n (([], sym (append-nil _)), inl refl)
      | inr (f, s) ↦ rw s (
        (_, refl),
        inr (
          is_open_flag ws flag,
          now,
          user,
          ((λ g h. both-open (is_flag ws flag g) (is_open g.status) h), refl),
        ),
      )
    ]

record-step :
    (now : ℕ) (ws flag user outcome : String) (note : Option String) (store : Store)
    → IsExtension store.decisions (record_decision now ws flag user outcome note store).0.decisions
      × StepFlags store.flags (record_decision now ws flag user outcome note store).0.flags
unfolding record_decision
record-step now ws flag user outcome note store =
    elim (Bool-cases (truthy (trim (or_else note "")))) [
      | inr n ↦ rw n (([], sym (append-nil _)), inl refl)
      | inl t ↦ elim (Option-cases (first (is_flag ws flag) store.flags)) [
        | inl n ↦ rw (t, n) (([], sym (append-nil _)), inl refl)
        | inr (f, s) ↦
            rw (t, s)
              (
                (_, refl),
                inr (
                  (λ (g : Flag). g.id == f.id && is_open g.status),
                  now,
                  user,
                  ((λ g h. both-open (g.id == f.id) (is_open g.status) h), refl),
                ),
              )
      ]
    ]

step :
    (a : Action) (store : Store)
    → IsExtension store.decisions (act a store).decisions
      × StepFlags store.flags (act a store).flags
unfolding act
step (dismiss now ws flag user) store = dismiss-step now ws flag user store
step (decide now ws flag user outcome note) store = record-step now ws flag user outcome note store

IsExtension-trans :
    {A : Type 0} (xs ys zs : List A) → IsExtension xs ys → IsExtension ys zs → IsExtension xs zs
IsExtension-trans xs ys zs (m, e) (n, k) = (m ++ n, k ∙ ap (λ l. l ++ n) e ∙ append_assoc xs m n)

-- However many dismissals and decisions follow, the trail only grows: what it held before is still
-- there, in its order and unchanged, in front of the new decisions.
pub act_all-IsExtension :
    (actions : List Action) (store : Store)
    → IsExtension store.decisions (act_all actions store).decisions
unfolding act_all
act_all-IsExtension [] store = ([], sym (append-nil _))
act_all-IsExtension (a ∷ acts) store =
    IsExtension-trans store.decisions (act a store).decisions (act_all acts (act a store)).decisions
      (step a store).0 (act_all-IsExtension acts (act a store))

abbrev pub has_flag_id : String → Flag → Bool
has_flag_id id f = f.id == id

first-update :
    (p : Flag → Bool) (now : ℕ) (user id : String) (flags : List Flag) (f : Flag)
    → p f ≡ false
    → first (has_flag_id id) flags ≡ some f
    → first (has_flag_id id) (update p (closed now user) flags) ≡ some f
first-update p now user id [] f spared h = h
first-update p now user id (g ∷ gs) f spared h = elim (Bool-cases (g.id == id)) [
  | inl t ↦
      let same : g ≡ f = cc (rw t at h) in
      let keep : p g ≡ false = ap p same ∙ spared in rw (keep, t) (ap some same)
  | inr n ↦
      let rest = first-update p now user id gs f spared (rw n at h) in
      elim (Bool-cases (p g)) [ inl t ↦ rw (t, n) rest | inr m ↦ rw (m, n) rest ]
]

closed-not_open : (f : Flag) → f.status ≡ dismissed → is_open f.status ≡ false
closed-not_open f h = ap is_open h

step-keeps :
    (before after : List Flag) (id : String) (f : Flag)
    → StepFlags before after
    → f.status ≡ dismissed
    → first (has_flag_id id) before ≡ some f
    → first (has_flag_id id) after ≡ some f
step-keeps before after id f (inl same) d h = rw same h
step-keeps before after id f (inr (p, now, user, (picks, same))) d h = elim (Bool-cases (p f)) [
  | inl t ↦ cc (picks f t, closed-not_open f d)
  | inr n ↦ rw same (first-update p now user id before f n h)
]

-- When the row found for an id is a dismissed flag, the same row is found after any dismissals and
-- decisions: it keeps who closed it first and when, and is never open again.
pub act_all-keeps_dismissed :
    (actions : List Action) (store : Store) (id : String) (f : Flag)
    → f.status ≡ dismissed
    → first (has_flag_id id) store.flags ≡ some f
    → first (has_flag_id id) (act_all actions store).flags ≡ some f
unfolding act_all
act_all-keeps_dismissed [] store id f d h = h
act_all-keeps_dismissed (a ∷ acts) store id f d h =
    act_all-keeps_dismissed acts (act a store) id f d
      (step-keeps store.flags (act a store).flags id f (step a store).1 d h)
