-- ===== src/Auth/Accounts/Requests.antt =====
-- The requests of apps/api/src/auth as one alphabet, so that any order of them is a list.
use optra.Prelude.{List, [], ◌∷◌, String}
use optra.Auth.Store.{Env, Draw}
use optra.Auth.Sessions.{Db, login, refresh, logout}
use optra.Auth.Accounts.{register, verify_otp, resend_otp, change_password}

pub data Request : Type 0 where
  sign_up : Draw → String → String → Request
  verify : Draw → String → String → Request
  resend : Draw → String → Request
  sign_in : Draw → String → String → Request
  rotate : Draw → String → Request
  sign_out : Draw → String → Request
  new_password : Draw → String → String → String → Request

module _ (env : Env) where
  unfoldable pub serve : Request → Db env → Db env
  serve (sign_up draw email password) store = (register env draw email password store).0
  serve (verify draw email code) store = (verify_otp env draw email code store).0
  serve (resend draw email) store = (resend_otp env draw email store).0
  serve (sign_in draw email password) store = (login env draw email password store).0
  serve (rotate draw raw) store = (refresh env draw raw store).0
  serve (sign_out draw raw) store = (logout env draw raw store).0
  serve (new_password draw id current next) store =
      (change_password env draw id current next store).0

  unfoldable pub serve_all : List Request → Db env → Db env
  serve_all [] store = store
  serve_all (r ∷ rs) store = serve_all rs (serve r store)
