-- ===== src/Tests/Routes.antt =====
-- Requests for /user/checkAuth after Login and after Logout of `demo`, over a matcher that compares
-- the path of a POST.
use mathlib.Core.List.{Memᴰ}
use mathlib.Core.List.Memᴰ.{head, tail}
use zhibo.Prelude.{
  itoa, pos, Bytes, codes, str_eq, Bool, true, false, Option, none, some, List, [], ◌∷◌, ◌≡◌, refl,
  ◌&&◌,
}
use zhibo.Logic.Exec.{ok, err}
use zhibo.Logic.Account.{login, logout, check_auth}
use zhibo.Api.Session.{session_error}
use zhibo.Api.Router.{
  Route, routes, Request, written, cors, session, cors_middleware, handle, serve,
}
use zhibo.Api.Router
use zhibo.Api.Router.Guarded.{Finds, logout-serve, login-serve}
use zhibo.Tests.Memory.{healthy}
use zhibo.Tests.Accounts.{
  direct, direct-Serves, empty_world, session_world, session_there, request, positive, named,
  right_password, apart,
}

abbrev first_if : Bool → Route → Option Route → Option Route
first_if true r rest = some r
first_if false r rest = rest

unfoldable find_post : Bytes → Bytes → List Route → Option Route
find_post method path [] = none
find_post method path (r ∷ rs) =
    first_if (str_eq method (codes "POST") && str_eq path r.path) r (find_post method path rs)

first_if-Mem :
    (b : Bool) (r route : Route) (rs : List Route) (rest : Option Route)
    → (rest ≡ some route → Memᴰ route rs)
    → first_if b r rest ≡ some route
    → Memᴰ route (r ∷ rs)
first_if-Mem true r route rs rest later found = head (cc (found))
first_if-Mem false r route rs rest later found = tail (later found)

find_post-Finds : Finds find_post
unfolding find_post
find_post-Finds method path [] route found = cc (found)
find_post-Finds method path (r ∷ rs) route found =
    first_if-Mem (str_eq method (codes "POST") && str_eq path r.path) r route rs
      (find_post method path rs) (λ later. find_post-Finds method path rs route later) found

abbrev ask_auth : Request
ask_auth = record {
  method = codes "POST";
  path = codes "/user/checkAuth";
  auth_token = ok (codes "abc");
  form_login = err [];
  form_register = err [];
  form_check_auth = ok (record { auth_token = codes "abc" });
  form_logout = ok (record { auth_token = codes "abc" });
  form_push = err [];
  form_room = err [];
  form_count = err [];
  form_room_info = err [];
}

abbrev auth_route : Route
auth_route = record {
  path = codes "/user/checkAuth";
  before = cors ∷ session ∷ [];
  handler = Router.check_auth;
}

logout-serve_example :
    (serve direct
      (λ p. p)
      find_post
      ask_auth
      (logout (record { auth_token = codes "abc" }) session_world).1).0.bodies
    ≡ some session_error ∷ []
unfolding find_post
logout-serve_example =
    logout-serve healthy direct (λ p. p) find_post ask_auth auth_route (codes "abc")
      (codes "userId", itoa (pos 1)) ((codes "userName", codes "demo") ∷ []) session_world
      direct-Serves find_post-Finds refl refl refl refl refl session_there

login-serve_example :
    serve direct (λ p. p) find_post ask_auth (login request (codes "abc") empty_world).1
    ≡ cors_middleware (codes "POST") (
        written (
          handle direct
            (λ p. p)
            Router.check_auth
            ask_auth
            (check_auth
              (record { auth_token = codes "abc" })
              (login request (codes "abc") empty_world).1).1))
unfolding find_post
login-serve_example =
    login-serve healthy direct (λ p. p) find_post ask_auth auth_route request (codes "abc")
      empty_world direct-Serves find_post-Finds refl refl refl refl positive named right_password
      refl apart
