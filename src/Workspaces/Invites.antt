-- ===== src/Workspaces/Invites.antt =====
-- An invitation is for one address, for seven days, and for one use.
use optra.Prelude.{
  ℕ, ◌<◌, true, none, some, List, [], ◌∷◌, String, ◌==◌, leb, first, any, update, any-append_single,
  eq_refl, eq_iff, ◌≡◌, refl, ap, arith, Bool-cases, Option-cases, inl, inr,
}
use optra.Http.{bad_request, ok, fail}
use optra.Workspaces.{
  Workspace, Member, Invitation, Store, Draw, is_member, has_id, normalize_email, with_member,
  accepted, has_token, accept_invite,
}

module _ (lower : String → String) where
  first-accepted :
      (token : String) (now : ℕ) (rows : List Invitation) (i : Invitation)
      → first (has_token lower token) rows ≡ some i
      → first (has_token lower token) (update (λ j. j.id == i.id) (accepted lower now) rows)
        ≡ some (accepted lower now i)
  first-accepted token now [] i h = cc
  first-accepted token now (j ∷ js) i h = elim (Bool-cases (has_token lower token j)) [
    | inl y ↦
        let same : j ≡ i = cc (rw y at h) in
        let own : (j.id == i.id) ≡ true = rw same (eq_refl i.id) in
        rw (own, y) (ap (λ x. some (accepted lower now x)) same)
    | inr n ↦
        let rest = first-accepted token now js i (rw n at h) in
        elim (Bool-cases (j.id == i.id)) [ inl y ↦ rw (y, n) rest | inr m ↦ rw (m, n) rest ]
  ]

  with_member-joins :
      (draw : Draw) (workspace_id user_id : String) (rows : List Member)
      → any (is_member workspace_id user_id) (with_member lower draw workspace_id user_id rows)
        ≡ true
  with_member-joins draw workspace_id user_id rows =
      elim (Bool-cases (any (is_member workspace_id user_id) rows)) [
        | inl t ↦ rw t t
        | inr n ↦ rw n (
            rw
              (
                any-append_single (is_member workspace_id user_id) rows _,
                eq_refl workspace_id,
                eq_refl user_id,
              )
              (ground arith))
      ]

  -- An invitation that is accepted existed under the token, had not been accepted, had not expired,
  -- and was sent to the address of the user; the user is then a member of its workspace; and to
  -- accept the same token again, at any time and for any user, is refused.
  pub accept_invite-once :
      (draw later : Draw) (user_id user_email other other_email token : String) (store : Store)
      (w : Workspace)
      → (accept_invite lower draw user_id user_email token store).1 ≡ ok w
      → (i : Invitation) × (first (has_token lower token) store.invitations ≡ some i)
        × (i.accepted_at ≡ none)
        × (draw.now < i.expires_at)
        × (normalize_email lower i.email ≡ normalize_email lower user_email)
        × (any
              (is_member i.workspace_id user_id)
              (accept_invite lower draw user_id user_email token store).0.members
            ≡ true)
        × ((accept_invite lower later other other_email token
              (accept_invite lower draw user_id user_email token store).0).1
            ≡ fail (bad_request "Invitation already accepted"))
  unfolding accept_invite
  accept_invite-once draw later user_id user_email other other_email token store w h =
      elim (Option-cases (first (has_token lower token) store.invitations)) [
        | inl n ↦ cc (rw n at h)
        | inr (i, s) ↦ elim (Option-cases i.accepted_at) [
          | inr (at_time, y) ↦ cc (rw (s, y) at h)
          | inl fresh ↦ elim (Bool-cases (leb i.expires_at draw.now)) [
            | inl y ↦ cc (rw (s, fresh, y) at h)
            | inr live ↦
                elim (Bool-cases
                  (normalize_email lower i.email == normalize_email lower user_email)) [
                    | inr n ↦ cc (rw (s, fresh, live, n) at h)
                    | inl same ↦
                        elim (Option-cases (first (has_id i.workspace_id) store.workspaces)) [
                          | inl n ↦ cc (rw (s, fresh, live, same, n) at h)
                          | inr (v, found) ↦
                              let again = first-accepted token draw.now store.invitations i s in
                              (
                                i,
                                s,
                                fresh,
                                ground arith,
                                (eq_iff (normalize_email lower i.email)
                                      (normalize_email lower user_email)).0
                                    same,
                                rw (s, fresh, live, same, found)
                                    (with_member-joins draw i.workspace_id user_id store.members),
                                rw (s, fresh, live, same, found) (rw again refl),
                              )
                        ]
                  ]
          ]
        ]
      ]
