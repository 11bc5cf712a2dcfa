-- ===== src/Logic/Account.antt =====
-- The account handlers of logic/rpc.go: Register, Login, GetUserInfoByUserId, CheckAuth and Logout.
-- A handler that returns an error has left its reply at FailReplyCode and zero values. The random
-- token of tools.GetRandomToken is an argument.
pub mod Saved
pub mod Sessions
pub mod Renewed
pub mod Registered
use zhibo.Prelude.{
  ℤ, pos, int_eq, is_nonpos, not, Bytes, codes, is_empty, str_eq, itoa, Bool, true, false, ◌||◌,
  Option, none, some, List, [], ◌∷◌, ◌++◌, if◌then◌else◌,
}
use zhibo.Prelude.Decimal.{atoi}
use zhibo.Proto.{
  LoginRequest, LoginResponse, RegisterRequest, RegisterReply, GetUserInfoRequest,
  GetUserInfoResponse, CheckAuthRequest, CheckAuthResponse, LogoutRequest, LogoutResponse,
  success_reply_code, fail_reply_code,
}
use zhibo.Logic.Exec.{Result, ok, err, Exec, pure, raise, ◌>>=◌, ◌>>◌}
use zhibo.Logic.Redis.{
  Redis, Command, multi, exec, get, set, del, expire, hmset, hget_all, err_of, string_of, map_of,
  field,
}
use zhibo.Logic.Keys.{create_session_id, get_session_id_by_user_id, get_session_name, get_user_key}
use zhibo.Logic.World.{
  User, Users, World, call, check, check_have_user_name, get_user_name_by_user_id, add,
}

abbrev pub session_time : ℤ
session_time = pos 86400

-- The fields that a session keeps, with the key as go-redis writes an int.
unfoldable pub user_data : ℤ → Bytes → List (Bytes × Bytes)
unfolding itoa
user_data uid name = (codes "userId", itoa uid) ∷ (codes "userName", name) ∷ []

-- CheckAuth's reply from the session's fields; no field is no session.
unfoldable pub auth_reply : List (Bytes × Bytes) → CheckAuthResponse
unfolding field atoi
auth_reply [] = record { code = fail_reply_code; user_id = pos 0; user_name = [] }
auth_reply (f ∷ fs) = record {
  code = success_reply_code;
  user_id = atoi (field (codes "userId") (f ∷ fs));
  user_name = field (codes "userName") (f ∷ fs);
}

module _ {R : Redis} {U : Users} where
  -- The transaction of Register.
  unfoldable pub save_register : Bytes → ℤ → Bytes → Exec (World R U) (Unit {0})
  unfolding call user_data
  save_register session uid name = do
    call multi
    call (hmset session (user_data uid name))
    call (expire session session_time)
    r ← call exec
    check (err_of r)

  unfoldable pub register_user : Bytes → Bytes → ℤ → Exec (World R U) RegisterReply
  unfolding save_register create_session_id
  register_user name token uid =
      if int_eq uid (pos 0) then raise (codes "register userId empty!") else do
        save_register (create_session_id token) uid name
        pure (record { code = success_reply_code; auth_token = token })

  unfoldable pub register : RegisterRequest → Bytes → Exec (World R U) RegisterReply
  unfolding register_user check_have_user_name add
  register args token w =
      if not (is_nonpos (check_have_user_name args.name w).id)
      then (err (codes "this user name already have , please login !!!"), w)
      else (add args.name args.password >>= register_user args.name token) w

  -- `if err != nil { return errors.New("logout user fail!token is:" + token) }`
  abbrev pub logged_out : Bytes → Option Bytes → Exec (World R U) (Unit {0})
  logged_out token none = pure tt
  logged_out token (some e) = raise (codes "logout user fail!token is:" ++ token)

  -- `if token != "" { err := Del(oldSession).Err(); ... }`
  unfoldable pub logout_old : Bytes → Exec (World R U) (Unit {0})
  unfolding call create_session_id
  logout_old token =
      if is_empty token
      then pure tt
      else do r ← call (del (create_session_id token)); logged_out token (err_of r)

  -- The transaction of Login.
  unfoldable pub save_login : Bytes → Bytes → User → Bytes → Exec (World R U) (Unit {0})
  unfolding call user_data
  save_login session sess_map u token = do
    call multi
    call (hmset session (user_data u.id u.user_name))
    call (expire session session_time)
    call (set sess_map token session_time)
    r ← call exec
    check (err_of r)

  -- Login, for the row that the name has.
  unfoldable pub login_user : User → Bytes → Exec (World R U) LoginResponse
  unfolding call logout_old save_login create_session_id get_session_id_by_user_id
  login_user u token = do
    old ← call (get (get_session_id_by_user_id u.id))
    logout_old (string_of old)
    save_login (create_session_id token) (get_session_id_by_user_id u.id) u token
    pure (record { code = success_reply_code; auth_token = token })

  unfoldable pub login : LoginRequest → Bytes → Exec (World R U) LoginResponse
  unfolding login_user check_have_user_name
  login args token w =
      let u = check_have_user_name args.name w in
      if int_eq u.id (pos 0) || not (str_eq args.password u.password)
      then (err (codes "no this user or password error!"), w)
      else login_user u token w

  unfoldable pub get_user_info_by_user_id :
      GetUserInfoRequest → Exec (World R U) GetUserInfoResponse
  unfolding get_user_name_by_user_id
  get_user_info_by_user_id args w = (
    ok (record {
      code = success_reply_code;
      user_id = args.user_id;
      user_name = get_user_name_by_user_id args.user_id w;
    }),
    w,
  )

  unfoldable pub check_auth : CheckAuthRequest → Exec (World R U) CheckAuthResponse
  unfolding call auth_reply get_session_name
  check_auth args = do
    r ← call (hget_all (get_session_name args.auth_token))
    check (err_of r)
    pure (auth_reply (map_of r))

  -- The three deletions of Logout.
  unfoldable pub delete_session : ℤ → Bytes → Exec (World R U) (Unit {0})
  unfolding call get_session_id_by_user_id get_user_key itoa
  delete_session uid session = do
    a ← call (del (get_session_id_by_user_id uid))
    check (err_of a)
    b ← call (del (get_user_key (itoa uid)))
    check (err_of b)
    c ← call (del session)
    check (err_of c)

  unfoldable pub logout_fields : List (Bytes × Bytes) → Bytes → Exec (World R U) LogoutResponse
  unfolding delete_session field atoi
  logout_fields [] session = pure (record { code = fail_reply_code })
  logout_fields (f ∷ fs) session = do
    delete_session (atoi (field (codes "userId") (f ∷ fs))) session
    pure (record { code = success_reply_code })

  unfoldable pub logout : LogoutRequest → Exec (World R U) LogoutResponse
  unfolding call logout_fields get_session_name
  logout args = do
    r ← call (hget_all (get_session_name args.auth_token))
    check (err_of r)
    logout_fields (map_of r) (get_session_name args.auth_token)
