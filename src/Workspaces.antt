-- ===== src/Workspaces.antt =====
-- Workspaces, their members and their invitations
-- (apps/api/src/workspaces/workspaces.service.ts). Times are epoch milliseconds.
pub mod Owners
pub mod Invites
use optra.Prelude.{
  ℕ, ◌+◌, ◌*◌, Bool, true, false, not, Option, none, some, List, [], ◌∷◌, ◌++◌, String, ◌==◌, ◌&&◌,
  leb, if◌then◌else◌, first, any, select, update, length, is_some, trim, or_else,
}
use Prim.Native.String
use optra.Http.{HttpError, bad_request, forbidden, not_found, internal, Result, ok, fail}

pub record Workspace : Type 0 where
  pub id : String
  pub name : String
  pub owner_id : String
  pub created_at : ℕ

pub data Role : Type 0 where
  owner member : Role

pub record Member : Type 0 where
  pub id : String
  pub workspace_id : String
  pub user_id : String
  pub role : Role

pub record Invitation : Type 0 where
  pub id : String
  pub workspace_id : String
  pub email : String
  pub token : String
  pub expires_at : ℕ
  pub accepted_at : Option ℕ

pub record Store : Type 0 where
  pub workspaces : List Workspace
  pub members : List Member
  pub invitations : List Invitation

-- What a request draws from outside: the time, row ids, the random token, whether the mail was sent.
pub record Draw : Type 0 where
  pub now : ℕ
  pub workspace_id : String
  pub row_id : String
  pub token : String
  pub sent : Bool

abbrev pub is_owner : Role → Bool
is_owner owner = true
is_owner member = false

abbrev pub has_id : String → Workspace → Bool
has_id id w = w.id == id

abbrev pub is_member : String → String → Member → Bool
is_member workspace_id user_id m = m.workspace_id == workspace_id && m.user_id == user_id

abbrev pub is_owner_of : String → Member → Bool
is_owner_of workspace_id m = m.workspace_id == workspace_id && is_owner m.role

-- create
unfoldable pub create : Draw → String → String → Store → Store × Result Workspace
create draw user_id name store =
    let workspace : Workspace = record {
      id = draw.workspace_id;
      name = name;
      owner_id = user_id;
      created_at = draw.now;
    } in
    (
      record store {
        workspaces = store.workspaces ++ workspace ∷ [];
        members =
            store.members
            ++ record {
              id = draw.row_id;
              workspace_id = draw.workspace_id;
              user_id = user_id;
              role = owner;
            }
              ∷ [];
      },
      ok workspace,
    )

-- getOne and getWorkspaceOrThrow
abbrev found : Option Workspace → Result Workspace
found none = fail (not_found "Workspace not found")
found (some w) = ok w

unfoldable pub get_one : String → Store → Result Workspace
get_one workspace_id store = found (first (has_id workspace_id) store.workspaces)

-- update
unfoldable pub rename : String → String → Store → Store × Result Workspace
rename workspace_id name store =
    let renamed : Store = record store {
      workspaces = update (has_id workspace_id) (λ w. record w { name = name }) store.workspaces;
    } in
    (renamed, get_one workspace_id renamed)

module _ (lower : String → String) where
  -- normalizeEmail
  abbrev pub normalize_email : String → String
  normalize_email email = lower (trim email)

  -- invite
  unfoldable pub invite : Draw → String → String → Store → Store × Result String
  invite draw workspace_id email store = (
    record store {
      invitations =
          store.invitations
          ++ record {
            id = draw.row_id;
            workspace_id = workspace_id;
            email = normalize_email email;
            token = draw.token;
            expires_at = draw.now + 7 * 24 * 60 * 60 * 1000;
            accepted_at = none;
          }
            ∷ [];
    },
    if draw.sent then ok "Invite sent" else fail (internal "the invitation could not be sent"),
  )

  abbrev with_member : Draw → String → String → List Member → List Member
  with_member draw workspace_id user_id members =
      if any (is_member workspace_id user_id) members
      then members
      else members
        ++ record {
          id = draw.row_id;
          workspace_id = workspace_id;
          user_id = user_id;
          role = member;
        }
          ∷ []

  abbrev accepted : ℕ → Invitation → Invitation
  accepted now i = record i { accepted_at = some now }

  -- The transaction: a workspace that is gone rolls it back.
  abbrev pub accept_in :
      Draw → String → Invitation → Option Workspace → Store → Store × Result Workspace
  accept_in draw user_id i none store = (store, fail (not_found "Workspace not found"))
  accept_in draw user_id i (some workspace) store = (
    record store {
      members = with_member draw i.workspace_id user_id store.members;
      invitations = update (λ j. j.id == i.id) (accepted draw.now) store.invitations;
    },
    ok workspace,
  )

  abbrev pub accept_open : Draw → String → String → Invitation → Store → Store × Result Workspace
  accept_open draw user_id user_email i store =
      if leb i.expires_at draw.now
      then (store, fail (bad_request "Invitation expired"))
      else if normalize_email i.email == normalize_email user_email
      then accept_in draw user_id i (first (has_id i.workspace_id) store.workspaces) store
      else (store, fail (bad_request "Invitation email does not match logged-in user"))

  abbrev pub accept_found :
      Draw → String → String → Option Invitation → Store → Store × Result Workspace
  accept_found draw user_id user_email none store = (store, fail (not_found "Invitation not found"))
  accept_found draw user_id user_email (some i) store =
      if is_some i.accepted_at
      then (store, fail (bad_request "Invitation already accepted"))
      else accept_open draw user_id user_email i store

  abbrev pub has_token : String → Invitation → Bool
  has_token token i = i.token == token

  -- acceptInvite
  unfoldable pub accept_invite : Draw → String → String → String → Store → Store × Result Workspace
  accept_invite draw user_id user_email token store =
      accept_found draw user_id user_email (first (has_token token) store.invitations) store

abbrev pub removed : String → List Member → List Member
removed id members = select (λ m. not (m.id == id)) members

abbrev pub is_last_owner : String → Member → List Member → Bool
is_last_owner workspace_id m members =
    is_owner m.role && leb (length (select (is_owner_of workspace_id) members)) 1

abbrev pub remove_found : String → Option Member → Store → Store × Result String
remove_found workspace_id none store = (store, fail (not_found "Workspace member not found"))
remove_found workspace_id (some m) store =
    if is_last_owner workspace_id m store.members
    then (store, fail (forbidden "Cannot remove the last owner"))
    else (record store { members = removed m.id store.members }, ok "Member removed")

-- removeMember
unfoldable pub remove_member : String → String → Store → Store × Result String
remove_member workspace_id target_user_id store =
    remove_found workspace_id (first (is_member workspace_id target_user_id) store.members) store
