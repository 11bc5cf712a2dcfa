-- ===== src/Api/Router/Guarded.antt =====
-- What stands before each handler of the table of api/router/router.go, and the answers after Login
-- and Logout of the logic layer.
use mathlib.Core.List.{Memᴰ}
use mathlib.Core.List.Memᴰ.{not-nil, cases_cons}
use mathlib.Core.Path.{subst}
use zhibo.Prelude.{
  is_nonpos, is_empty, Bytes, codes, str_eq, Bool, true, false, Option, none, some, List, [], ◌∷◌,
  ◌≡◌, ◌≢◌, refl, sym, ap, ◌∙◌, inl, inr, if◌then◌else◌,
}
use zhibo.Proto.{LoginRequest}
use zhibo.Logic.Exec.{ok}
use zhibo.Logic.Redis.{Redis, IsHealthy, absent, a_hash}
use zhibo.Logic.Keys.{create_session_id, get_session_id_by_user_id, get_session_name}
use zhibo.Logic.World.{Users, World, check_have_user_name}
use zhibo.Logic.Account.{login, logout, check_auth}
use zhibo.Api.Rpc.{LogicRpc}
use zhibo.Api.Response.{Response}
use zhibo.Api.Session.{check_session_id, session_error}
use zhibo.Api.Session.Guard.{Serves, login-check_session_id, logout-check_session_id}
use zhibo.Api.Router.{
  Middleware, cors, session, Handler, Route, routes, Request, cors_middleware, written, handle,
  chain, serve_route, serve,
}

-- The handlers that a request reaches without a session.
abbrev pub is_open : Handler → Bool
is_open Handler.login = true
is_open Handler.register = true
is_open h = false

abbrev before_of : Handler → List Middleware
before_of h = if is_open h then cors ∷ [] else cors ∷ session ∷ []

AllOf : {A : Type 0} → (A → Type 0) → List A → Type 0
AllOf P [] = Unit
AllOf P (x ∷ xs) = P x × AllOf P xs

AllOf-Mem : {A : Type 0} (P : A → Type 0) (x : A) (xs : List A) → AllOf P xs → Memᴰ x xs → P x
unfolding AllOf
AllOf-Mem P x [] all m = absurd (not-nil m)
AllOf-Mem P x (y ∷ xs) (is, all) m = elim (cases_cons m) [
  | inl same ↦ subst P (sym same) is
  | inr later ↦ AllOf-Mem P x xs all later
]

Guards : Route → Type 0
Guards route = route.before ≡ before_of route.handler

routes-Guards : (route : Route) → Memᴰ route routes → Guards route
unfolding Guards AllOf
routes-Guards route m =
    AllOf-Mem Guards route routes (refl, (refl, (refl, (refl, (refl, (refl, (refl, (refl, tt))))))))
      m

-- gin finds only what was added.
abbrev pub Finds : (Bytes → Bytes → List Route → Option Route) → Type 0
Finds find =
    (method path : Bytes) (rs : List Route) (route : Route)
    → find method path rs ≡ some route
    → Memᴰ route rs

module _ {W : Type 0} (c : LogicRpc W) (sha1 : Bytes → Bytes) where
  -- A request for a route that is not open goes through the session check, and so does its answer.
  serve-guarded :
      (find : Bytes → Bytes → List Route → Option Route) (r : Request) (route : Route) (w : W)
      → Finds find
      → find r.method r.path routes ≡ some route
      → is_open route.handler ≡ false
      → serve c sha1 find r w
        ≡ cors_middleware r.method
            (written (check_session_id c r.auth_token (handle c sha1 route.handler r) w))
  unfolding serve serve_route chain Guards
  serve-guarded find r route w finds found closed =
      let before : route.before ≡ cors ∷ session ∷ [] =
        routes-Guards route (finds r.method r.path routes route found)
        ∙ ap (λ b. if b then cors ∷ [] else cors ∷ session ∷ []) closed in
      ap (λ o. serve_route c sha1 o r w) found ∙ ap (λ ms. chain c sha1 ms route.handler r w) before

bodies-written :
    {W : Type 0} (method : Bytes) (x : Response × W)
    → str_eq method (codes "OPTIONS") ≡ false
    → (cors_middleware method (written x)).0.bodies ≡ some x.0 ∷ []
unfolding cors_middleware
bodies-written method (a, w) plain = rw (plain) refl

-- On a healthy Redis with no open transaction, and a client that reaches the logic layer: after
-- Logout of a token that has a session, a request that carries the token, with a method other than
-- OPTIONS, for a route that is neither the one of Login nor that of Register, gets the session error
-- as its only body.
pub logout-serve :
    {R : Redis} {U : Users} (H : IsHealthy R) (c : LogicRpc (World R U)) (sha1 : Bytes → Bytes)
    (find : Bytes → Bytes → List Route → Option Route) (r : Request) (route : Route) (token : Bytes)
    (f : Bytes × Bytes) (fs : List (Bytes × Bytes)) (w : World R U)
    → Serves c
    → Finds find
    → find r.method r.path routes ≡ some route
    → is_open route.handler ≡ false
    → str_eq r.method (codes "OPTIONS") ≡ false
    → r.auth_token ≡ ok token
    → H.queued w.redis ≡ none
    → H.view w.redis (get_session_name token) ≡ a_hash (f ∷ fs)
    → (serve c sha1 find r (logout (record { auth_token = token }) w).1).0.bodies
      ≡ some session_error ∷ []
logout-serve H c sha1 find r route token f fs w serves finds found closed plain carried idle at =
    let s = (logout (record { auth_token = token }) w).1 in
    let next = handle c sha1 route.handler r in
    ap (λ a. a.0.bodies) (serve-guarded c sha1 find r route s finds found closed)
    ∙ bodies-written r.method (check_session_id c r.auth_token next s) plain
    ∙ ap (λ t. some (check_session_id c t next s).0 ∷ []) carried
    ∙ ap (λ e. some e ∷ []) (logout-check_session_id H c serves next token f fs w idle at)

-- On a healthy Redis with no open transaction, and a client that reaches the logic layer: after
-- Login of a user that the table has under a positive id and a name that is not empty, with the
-- right password and a token whose session key is free and is not the user's session map key, a
-- request that carries the token, for a route that is neither the one of Login nor that of Register,
-- is answered by that route's handler, behind the headers for other origins.
pub login-serve :
    {R : Redis} {U : Users} (H : IsHealthy R) (c : LogicRpc (World R U)) (sha1 : Bytes → Bytes)
    (find : Bytes → Bytes → List Route → Option Route) (r : Request) (route : Route)
    (args : LoginRequest) (token : Bytes) (w : World R U)
    → Serves c
    → Finds find
    → find r.method r.path routes ≡ some route
    → is_open route.handler ≡ false
    → r.auth_token ≡ ok token
    → H.queued w.redis ≡ none
    → is_nonpos (check_have_user_name args.name w).id ≡ false
    → is_empty (check_have_user_name args.name w).user_name ≡ false
    → args.password ≡ (check_have_user_name args.name w).password
    → H.view w.redis (create_session_id token) ≡ absent
    → get_session_id_by_user_id (check_have_user_name args.name w).id ≢ create_session_id token
    → let s = (login args token w).1 in
      serve c sha1 find r s
      ≡ cors_middleware r.method
          (written (handle c sha1 route.handler r (check_auth (record { auth_token = token }) s).1))
login-serve H c sha1 find r route args token w serves finds found closed carried idle positive named
      password free ne =
    let s = (login args token w).1 in
    let next = handle c sha1 route.handler r in
    serve-guarded c sha1 find r route s finds found closed
    ∙ ap (λ t. cors_middleware r.method (written (check_session_id c t next s))) carried
    ∙ ap (λ x. cors_middleware r.method (written x))
        (login-check_session_id H c serves next args token w idle positive named password free ne)
