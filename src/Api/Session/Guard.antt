-- ===== src/Api/Session/Guard.antt =====
-- The session check of api/router/router.go over CheckAuth of logic/rpc.go, after Login and Logout.
use zhibo.Prelude.{
  pos, is_nonpos, is_empty, Bytes, false, none, List, ◌∷◌, ◌≡◌, ◌≢◌, refl, ap, ◌∙◌, arith,
}
use zhibo.Proto.{CheckAuthRequest, CheckAuthResponse, LoginRequest}
use zhibo.Logic.Exec.{ok}
use zhibo.Logic.Redis.{Redis, IsHealthy, absent, a_hash}
use zhibo.Logic.Keys.{create_session_id, get_session_id_by_user_id, get_session_name}
use zhibo.Logic.World.{Users, World, check_have_user_name}
use zhibo.Logic.Account.{login, logout, check_auth}
use zhibo.Logic.Account.Sessions.{login-check_auth, logout-check_auth}
use zhibo.Api.Rpc.{LogicRpc}
use zhibo.Api.Response.{Response}
use zhibo.Api.Session.{check_session_id, check_session_id-reply, session_error}

-- The RPC client reaches the logic layer: a CheckAuth that returns without an error gives the
-- caller its reply, on the state that it leaves.
abbrev pub Serves : {R : Redis} {U : Users} → LogicRpc (World R U) → Type 0
Serves {R} {U} c =
    (req : CheckAuthRequest) (w : World R U) (reply : CheckAuthResponse)
    → (check_auth req w).0 ≡ ok reply
    → c.call_check_auth req w ≡ (none, reply, (check_auth req w).1)

module _ {R : Redis} {U : Users} (H : IsHealthy R) (c : LogicRpc (World R U)) (serves : Serves c)
    (next : World R U → Response × World R U) where
  -- On a healthy Redis with no open transaction, and a client that reaches the logic layer: after
  -- Login of a user that the table has under a positive id and a name that is not empty, with the
  -- right password and a token whose session key is free and is not the user's session map key, a
  -- request with the token reaches the handler that the session check guards.
  pub login-check_session_id :
      (args : LoginRequest) (token : Bytes) (w : World R U)
      → H.queued w.redis ≡ none
      → is_nonpos (check_have_user_name args.name w).id ≡ false
      → is_empty (check_have_user_name args.name w).user_name ≡ false
      → args.password ≡ (check_have_user_name args.name w).password
      → H.view w.redis (create_session_id token) ≡ absent
      → get_session_id_by_user_id (check_have_user_name args.name w).id ≢ create_session_id token
      → let r = (login args token w).1 in
        check_session_id c (ok token) next r ≡ next (check_auth (record { auth_token = token }) r).1
  login-check_session_id args token w idle positive named password free ne =
      let known : (check_have_user_name args.name w).id ≢ pos 0 = λ e. ground arith in
      let accepted = (login-check_auth H args token w idle known password free ne).1 in
      check_session_id-reply c token next (login args token w).1 _ (serves _ _ _ accepted)
      ∙ rw (positive, named) refl

  -- On a healthy Redis with no open transaction, and a client that reaches the logic layer: after
  -- Logout of a token that has a session, a request with the token is answered with the session
  -- error.
  pub logout-check_session_id :
      (token : Bytes) (f : Bytes × Bytes) (fs : List (Bytes × Bytes)) (w : World R U)
      → H.queued w.redis ≡ none
      → H.view w.redis (get_session_name token) ≡ a_hash (f ∷ fs)
      → let r = (logout (record { auth_token = token }) w).1 in
        (check_session_id c (ok token) next r).0 ≡ session_error
  logout-check_session_id token f fs w idle at =
      let rejected = (logout-check_auth H token f fs w idle at).1 in
      ap (λ (t : Response × World R U). t.0)
        (check_session_id-reply c token next (logout (record { auth_token = token }) w).1 _
          (serves _ _ _ rejected))
