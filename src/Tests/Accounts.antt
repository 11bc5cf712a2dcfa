-- ===== src/Tests/Accounts.antt =====
-- A session in a Redis in memory, and requests with its token.
use zhibo.Prelude.{
  is_nonpos, is_empty, Bytes, false, ℕ, suc, pos, codes, Option, none, some, [], ◌∷◌, ◌≡◌, ◌≢◌,
  refl, str_eq, if◌then◌else◌, itoa,
}
use zhibo.Proto.{CheckAuthResponse, PushRoomMsgRequest, LoginRequest, success_reply_code}
use zhibo.Logic.Exec.{Result, ok, err}
use zhibo.Logic.Redis.{absent, a_hash, a_text, write}
use zhibo.Logic.Keys.{
  get_room_user_key, get_room_online_count_key, create_session_id, get_session_name,
  get_session_id_by_user_id,
}
use zhibo.Logic.World.{User, Users, World, check_have_user_name}
use zhibo.Logic.Account.{login, check_auth, user_data}
use zhibo.Logic.Account.Sessions.{login-check_auth}
use zhibo.Api.Rpc.{LogicRpc}
use zhibo.Api.Response.{Response, no_body}
use zhibo.Api.Session.Guard.{Serves}
use zhibo.Task.{ConnectClients}
use zhibo.Tests.Memory.{memory, healthy}

-- A table whose only row is that of demo.
abbrev demo : User
demo = record { id = pos 1; user_name = codes "demo"; password = codes "111111" }

abbrev nobody : User
nobody = record { id = pos 0; user_name = []; password = [] }

abbrev pub table : Users
table = record {
  Db = Unit {0};
  by_name = λ name db. if str_eq name (codes "demo") then demo else nobody;
  by_user_id = λ uid db. demo;
  create = λ u db. (ok (pos 2), db);
}

abbrev pub empty_world : World memory table
empty_world = record { redis = (λ k. absent, none); users = tt }

abbrev pub request : LoginRequest
request = record { name = codes "demo"; password = codes "111111" }

pub known : (check_have_user_name request.name empty_world).id ≢ pos 0
unfolding check_have_user_name
known e = cc

pub positive : is_nonpos (check_have_user_name request.name empty_world).id ≡ false
unfolding check_have_user_name
positive = refl

pub named : is_empty (check_have_user_name request.name empty_world).user_name ≡ false
unfolding check_have_user_name
named = refl

pub right_password : request.password ≡ (check_have_user_name request.name empty_world).password
unfolding check_have_user_name
right_password = refl

pub apart :
    get_session_id_by_user_id (check_have_user_name request.name empty_world).id
    ≢ create_session_id (codes "abc")
unfolding get_session_id_by_user_id create_session_id check_have_user_name itoa
apart e = cc

login-check_auth_example :
    ((login request (codes "abc") empty_world).0
      ≡ ok (record { code = success_reply_code; auth_token = codes "abc" }))
    × ((check_auth
          (record { auth_token = codes "abc" })
          (login request (codes "abc") empty_world).1).0
        ≡ ok (record {
          code = success_reply_code;
          user_id = (check_have_user_name request.name empty_world).id;
          user_name = (check_have_user_name request.name empty_world).user_name;
        }))
login-check_auth_example =
    login-check_auth healthy request (codes "abc") empty_world refl known right_password refl apart

-- The same with a session of demo.
abbrev pub session_world : World memory table
session_world = record {
  redis = (
    write (get_session_name (codes "abc")) (a_hash (user_data (pos 1) (codes "demo")))
        (λ k. absent),
    none,
  );
  users = tt;
}

pub session_there :
    session_world.redis.0 (get_session_name (codes "abc"))
    ≡ a_hash ((codes "userId", itoa (pos 1)) ∷ (codes "userName", codes "demo") ∷ [])
unfolding write get_session_name user_data
session_there = refl

-- A client that calls the handlers directly. It is asked for CheckAuth only.
abbrev reply_from :
    Result CheckAuthResponse × World memory table
    → Option Bytes × CheckAuthResponse × World memory table
reply_from (ok r, w) = (none, r, w)
reply_from (err e, w) = (some e, record { code = pos 0; user_id = pos 0; user_name = [] }, w)

abbrev pub direct : LogicRpc (World memory table)
direct = record {
  call_login = λ req w. (none, record { code = pos 1; auth_token = [] }, w);
  call_register = λ req w. (none, record { code = pos 1; auth_token = [] }, w);
  call_user_info = λ req w. (none, record { code = pos 1; user_id = pos 0; user_name = [] }, w);
  call_check_auth = λ req w. reply_from (check_auth req w);
  call_logout = λ req w. (none, record { code = pos 1 }, w);
  call_push = λ req w. (none, record { code = pos 1; msg = [] }, w);
  call_push_room = λ req w. (none, record { code = pos 1; msg = [] }, w);
  call_count = λ req w. (none, record { code = pos 1; msg = [] }, w);
  call_room_info = λ req w. (none, record { code = pos 1; msg = [] }, w);
}

reply_from-ok :
    (p : Result CheckAuthResponse × World memory table) (reply : CheckAuthResponse)
    → p.0 ≡ ok reply
    → reply_from p ≡ (none, reply, p.1)
reply_from-ok (ok r, w) reply e = cc
reply_from-ok (err x, w) reply e = cc

pub direct-Serves : Serves direct
direct-Serves req w reply e = reply_from-ok (check_auth req w) reply e

abbrev hello : World memory table → Response × World memory table
hello w = (record { code = pos 0; message = codes "ok"; body = no_body }, w)

-- Two connect servers that count their calls.
abbrev pub counting : ConnectClients ℕ
counting = record {
  ids = codes "a" ∷ codes "b" ∷ [];
  push_single_msg = λ k req n. suc n;
  push_room = λ m k req n. suc n;
}

abbrev to_room : PushRoomMsgRequest
to_room = record {
  room_id = pos 5;
  msg = record { ver = pos 1; operation = pos 3; seq_id = codes "1"; body = codes "hi" };
}

abbrev room5 : Bytes
room5 = get_room_user_key (codes "5")

no_text : (b : Bytes) → empty_world.redis.0 room5 ≢ a_text b
no_text b e = cc

count_apart : get_room_online_count_key (itoa (pos 5)) ≢ room5
unfolding get_room_online_count_key get_room_user_key itoa
count_apart e = cc
