-- ===== src/Api/Router.antt =====
-- Register of api/router/router.go: the routes, what stands before each of them, and the answer to a
-- request. A gin group's Use reaches the routes that are added after it. Which route fits a method
-- and a path is gin's: a parameter.
pub mod Guarded
use zhibo.Prelude.{ℤ, Bytes, codes, str_eq, Option, none, some, List, [], ◌∷◌, ◌++◌, if◌then◌else◌}
use zhibo.Logic.Exec.{Result}
use zhibo.Api.Rpc.{LogicRpc}
use zhibo.Api.Response.{Response, fail_with_msg}
use zhibo.Api.User
use zhibo.Api.User.{FormLogin, FormRegister, FormCheckAuth, FormLogout}
use zhibo.Api.Push
use zhibo.Api.Push.{FormPush, FormRoom, FormCount, FormRoomInfo}
use zhibo.Api.Session.{check_session_id}

pub data Middleware : Type 0 where
  cors session : Middleware

pub data Handler : Type 0 where
  login register check_auth logout push push_room count get_room_info : Handler

pub record Route : Type 0 where
  pub path : Bytes
  pub before : List Middleware
  pub handler : Handler

-- gin.RouterGroup, with the routes that were added to it.
pub record Group : Type 0 where
  pub base_path : Bytes
  pub handlers : List Middleware
  pub routes : List Route

abbrev pub group : Bytes → List Middleware → Group
group path before = record { base_path = path; handlers = before; routes = [] }

abbrev pub use_ : Middleware → Group → Group
use_ m g = record g { handlers = g.handlers ++ m ∷ [] }

abbrev pub post : Bytes → Handler → Group → Group
post path handler g = record g {
  routes =
      g.routes
      ++ record { path = g.base_path ++ path; before = g.handlers; handler = handler } ∷ [];
}

abbrev pub init_user_router : List Middleware → Group
init_user_router r =
    let g = group (codes "/user") r in
    let g = post (codes "/login") login g in
    let g = post (codes "/register") register g in
    let g = use_ session g in
    let g = post (codes "/checkAuth") check_auth g in post (codes "/logout") logout g

abbrev pub init_push_router : List Middleware → Group
init_push_router r =
    let g = group (codes "/push") r in
    let g = use_ session g in
    let g = post (codes "/push") push g in
    let g = post (codes "/pushRoom") push_room g in
    let g = post (codes "/count") count g in post (codes "/getRoomInfo") get_room_info g

-- The engine uses CorsMiddleware before both groups are made.
abbrev pub routes : List Route
routes = (init_user_router (cors ∷ [])).routes ++ (init_push_router (cors ∷ [])).routes

-- A request: its method, its path, and what binding its body to each form gives.
pub record Request : Type 0 where
  pub method : Bytes
  pub path : Bytes
  pub auth_token : Result Bytes
  pub form_login : Result FormLogin
  pub form_register : Result FormRegister
  pub form_check_auth : Result FormCheckAuth
  pub form_logout : Result FormLogout
  pub form_push : Result FormPush
  pub form_room : Result FormRoom
  pub form_count : Result FormCount
  pub form_room_info : Result FormRoomInfo

-- What is written: the headers, and the JSON of each write, where nil is `none`.
pub record Answer : Type 0 where
  pub headers : List (Bytes × Bytes)
  pub bodies : List (Option Response)

abbrev pub cors_headers : List (Bytes × Bytes)
cors_headers =
    (codes "Access-Control-Allow-Origin", codes "*")
    ∷ (codes "Access-Control-Allow-Headers", codes "Origin, X-Requested-With, Content-Type, Accept")
    ∷ (codes "Access-Control-Allow-Methods", codes "GET, OPTIONS, POST, PUT, DELETE")
    ∷ []

abbrev pub with_body : Option Response → Answer → Answer
with_body b a = record a { bodies = b ∷ a.bodies }

-- CorsMiddleware, around the answer of what follows it; what follows it is called for OPTIONS too.
unfoldable pub cors_middleware : {W : Type 0} → Bytes → Answer × W → Answer × W
cors_middleware method (a, w) =
    let out = record a { headers = cors_headers ++ a.headers } in
    (if str_eq method (codes "OPTIONS") then with_body none out else out, w)

abbrev pub written : {W : Type 0} → Response × W → Answer × W
written (r, w) = (record { headers = []; bodies = some r ∷ [] }, w)

module _ {W : Type 0} (c : LogicRpc W) (sha1 : Bytes → Bytes) where
  unfoldable pub handle : Handler → Request → W → Response × W
  handle login r w = User.login c sha1 r.form_login w
  handle register r w = User.register c sha1 r.form_register w
  handle check_auth r w = User.check_auth c r.form_check_auth w
  handle logout r w = User.logout c r.form_logout w
  handle push r w = Push.push c r.form_push w
  handle push_room r w = Push.push_room c r.form_room w
  handle count r w = Push.count c r.form_count w
  handle get_room_info r w = Push.get_room_info c r.form_room_info w

  -- The session check is the last before a handler.
  unfoldable pub chain : List Middleware → Handler → Request → W → Answer × W
  unfolding cors_middleware handle
  chain [] h r w = written (handle h r w)
  chain (cors ∷ ms) h r w = cors_middleware r.method (chain ms h r w)
  chain (session ∷ ms) h r w = written (check_session_id c r.auth_token (handle h r) w)

  -- The handler of NoRoute, behind CorsMiddleware too.
  unfoldable pub no_route : Request → W → Answer × W
  unfolding cors_middleware
  no_route r w =
      cors_middleware r.method (written (fail_with_msg (codes "please check request url !"), w))

  unfoldable pub serve_route : Option Route → Request → W → Answer × W
  unfolding chain no_route
  serve_route none r w = no_route r w
  serve_route (some route) r w = chain route.before route.handler r w

  -- gin's ServeHTTP with this table: `find` gives the route of a method and a path.
  unfoldable pub serve : (Bytes → Bytes → List Route → Option Route) → Request → W → Answer × W
  unfolding serve_route
  serve find r w = serve_route (find r.method r.path routes) r w
