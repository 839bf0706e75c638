-- ===== src/Tests/Accounts.antt =====
-- Accounts, sessions and workspaces of a few people.
use optra.Prelude.{
  ℕ, ◌*◌, ◌≤◌, ◌<◌, ◌≡◌, refl, Option, none, some, true, String, List, [], ◌∷◌, ◌==◌, any, first,
  All, arith, trim,
}
use optra.Http.{unauthorized, bad_request, ok, fail}
use optra.Auth.Store.{User, Otp, RefreshToken, Store, Env, Draw, Tokens}
use optra.Auth.Sessions.{has_hash, issue_tokens, refresh, rotate}
use optra.Auth.Sessions.Race.{drawn, race, refresh-race}
use optra.Auth.Sessions.Laws.{IsSignedOut}
use optra.Auth.Sessions.Spent.{
  SessionRequest, signs_in, refreshes, signs_out, serve_sessions, refresh_twice,
}
use optra.Auth.Accounts.Requests.{Request, sign_up, verify, serve_all}
use optra.Auth.Accounts.Trials.{trials, verified_accounts, serve_all-trials}
use optra.Auth.Accounts.Attempts.{rows_of, comparisons, IsWithinLimit, comparisons-le}
use optra.Workspaces
use optra.Workspaces.{
  Member, Invitation, owner, is_member, normalize_email, has_token, accept_invite, remove_member,
}
use optra.Workspaces.Owners.{HasUniqueIds, owners, remove_member-keeps_owner}
use optra.Workspaces.Invites.{accept_invite-once}

-- A hash that is the text itself, and counters that always answer 1.
abbrev env : Env
env = record {
  Redis = ℕ;
  bcrypt_hash = λ salt password. password;
  bcrypt_compare = λ password hash. password == hash;
  sha256 = λ s. s;
  sign = λ id email. id;
  lower = λ s. s;
  bump = λ key ttl n. (some 1, n);
  del = λ key n. n;
}

abbrev draw : Draw
draw = record {
  now = 1000;
  row_id = "u1";
  otp_id = "o1";
  workspace_id = "w1";
  token_id = "t2";
  otp_code = "123456";
  raw_token = "fresh";
  salt = "salt";
  sent = true;
}

abbrev ann : User
ann = record { id = "u1"; email = "ann@x"; password_hash = "pw"; is_verified = true }

abbrev session : RefreshToken
session = record {
  id = "t1";
  user_id = "u1";
  token_hash = "old";
  expires_at = 5000;
  revoked_at = none;
}

abbrev store_with : Option ℕ → Store ℕ
store_with revoked_at = record {
  users = ann ∷ [];
  otps = [];
  refresh_tokens = record session { revoked_at = revoked_at } ∷ [];
  workspaces = [];
  members = [];
  redis = 0;
}

abbrev tokens : Tokens
tokens = record { access_token = "u1"; refresh_token = "fresh" }

refreshed : (refresh env draw "old" (store_with none)).1 ≡ ok tokens
unfolding refresh issue_tokens
refreshed = refl

-- The user signs in again and another token is refreshed in between.
abbrev between : List SessionRequest
between = signs_in draw "a@b.c" "pw" ∷ refreshes draw "fresh" ∷ signs_out draw "none" ∷ []

refresh_twice_example :
    let after = serve_sessions env between (refresh env draw "old" (store_with none)).0 in
    (rt : RefreshToken) × (first (has_hash "old") (store_with none).refresh_tokens ≡ some rt)
    × ((refresh env draw "old" after).1
        ≡ fail (unauthorized "Session revoked — please log in again"))
    × IsSignedOut rt.user_id (refresh env draw "old" after).0.refresh_tokens
refresh_twice_example = refresh_twice env draw draw "old" between (store_with none) tokens refreshed

same-le : 1000 ≤ 1000
same-le = omega arith

abbrev other_draw : Draw
other_draw = record draw { token_id = "t3"; raw_token = "fresh2" }

refresh-race_example :
    (rt : RefreshToken) × (user : User) × (refresh env draw "old" (store_with none)
      ≡ rotate env draw rt (some user) (store_with none))
    × (refresh env other_draw "old" (store_with none)
        ≡ rotate env other_draw rt (some user) (store_with none))
    × (race env draw other_draw rt user (store_with none)
        ≡ (ok (drawn env draw user), ok (drawn env other_draw user)))
refresh-race_example =
    refresh-race env draw other_draw "old" (store_with none) tokens refreshed same-le

abbrev empty_store : Store ℕ
empty_store = record {
  users = [];
  otps = [];
  refresh_tokens = [];
  workspaces = [];
  members = [];
  redis = 0;
}

abbrev requests : List Request
requests =
    sign_up draw "ann@x" "pw" ∷ verify draw "ann@x" "123456" ∷ verify draw "ann@x" "123456" ∷ []

none-le : 0 ≤ 0
none-le = omega arith

serve_all-trials_example :
    trials "u1" (serve_all env requests empty_store).workspaces
    ≤ verified_accounts "u1" (serve_all env requests empty_store).users
serve_all-trials_example = serve_all-trials env "u1" requests empty_store none-le

abbrev code : Otp
code = record {
  id = "o1";
  user_id = "u1";
  code = "123456";
  expires_at = 5000;
  used_at = none;
  failed_attempts = 0;
  created_at = 0;
}

code-IsWithinLimit : All IsWithinLimit (code ∷ [])
code-IsWithinLimit = (omega arith, tt)

abbrev guesses : List (ℕ × String)
guesses = (1, "u1") ∷ (2, "u1") ∷ (3, "u1") ∷ (4, "u1") ∷ (5, "u1") ∷ (6, "u1") ∷ (7, "u1") ∷ []

comparisons-le_example : comparisons "o1" guesses (code ∷ []) ≤ 5 * rows_of "o1" (code ∷ [])
comparisons-le_example = comparisons-le "o1" guesses (code ∷ []) code-IsWithinLimit

abbrev ann_member : Member
ann_member = record { id = "m1"; workspace_id = "w1"; user_id = "u1"; role = owner }

abbrev invitation : Invitation
invitation = record {
  id = "i1";
  workspace_id = "w1";
  email = "bob@x";
  token = "tok";
  expires_at = 5000;
  accepted_at = none;
}

abbrev home : Workspaces.Workspace
home = record { id = "w1"; name = "home"; owner_id = "u1"; created_at = 0 }

abbrev workspaces : Workspaces.Store
workspaces = record {
  workspaces = home ∷ [];
  members = ann_member ∷ [];
  invitations = invitation ∷ [];
}

abbrev request : Workspaces.Draw
request = record { now = 1000; workspace_id = "w2"; row_id = "m2"; token = "tok2"; sent = true }

unique_ids : HasUniqueIds (ann_member ∷ [])
unique_ids id = ground arith

one-le : 1 ≤ owners "w1" (ann_member ∷ [])
one-le = omega arith

remove_member-keeps_owner_example : 1 ≤ owners "w1" (remove_member "w1" "u1" workspaces).0.members
remove_member-keeps_owner_example = remove_member-keeps_owner "w1" "u1" workspaces unique_ids one-le

abbrev same_text : String → String
same_text s = s

joined_home : (accept_invite same_text request "u2" "bob@x" "tok" workspaces).1 ≡ ok home
unfolding accept_invite trim
joined_home = refl

accept_invite-once_example :
    (i : Invitation) × (first (has_token same_text "tok") workspaces.invitations ≡ some i)
    × (i.accepted_at ≡ none)
    × (1000 < i.expires_at)
    × (normalize_email same_text i.email ≡ normalize_email same_text "bob@x")
    × (any
          (is_member i.workspace_id "u2")
          (accept_invite same_text request "u2" "bob@x" "tok" workspaces).0.members
        ≡ true)
    × ((accept_invite same_text request "u3" "eve@x" "tok"
          (accept_invite same_text request "u2" "bob@x" "tok" workspaces).0).1
        ≡ fail (bad_request "Invitation already accepted"))
accept_invite-once_example =
    accept_invite-once same_text request request "u2" "bob@x" "u3" "eve@x" "tok" workspaces home
      joined_home
