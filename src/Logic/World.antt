-- ===== src/Logic/World.antt =====
-- The stores that the logic layer works on, the data access of logic/dao/user.go over gorm, and the
-- publishing functions of logic/publish.go.
use zhibo.Prelude.{
  ℤ, pos, is_nonpos, not, Bytes, codes, is_empty, ◌||◌, Option, none, some, List, [], if◌then◌else◌,
}
use zhibo.Proto.{
  RedisMsg, queue_name, op_single_send, op_room_send, op_room_count_send, op_room_info_send,
}
use zhibo.Logic.Exec.{Result, ok, err, Exec, ◌>>=◌}
use zhibo.Logic.Redis.{Redis, Command, Reply, err_of, publish}

-- A row of the table `user`; a query that finds nothing leaves the zero row. CreateTime is not kept.
pub record User : Type 0 where
  pub id : ℤ
  pub user_name : Bytes
  pub password : Bytes

-- What gorm does for logic/dao/user.go: `First` by name, `First` by the column user_id, and
-- `Create`, which gives the new row's key or an error.
pub record Users : Type 1 where
  pub Db : Type 0
  pub by_name : Bytes → Db → User
  pub by_user_id : ℤ → Db → User
  pub create : User → Db → Result ℤ × Db

pub record World (R : Redis) (U : Users) : Type 0 where
  pub redis : R.Db
  pub users : U.Db

-- A Redis call: its reply, an error in it being the caller's to look at.
unfoldable pub call : {R : Redis} {U : Users} → Command → Exec (World R U) Reply
call {R} c w = let (r, db) = R.run c w.redis in (ok r, record w { redis = db })

-- `if err != nil { return err }`
abbrev pub check {ℓ} : {S : Type ℓ} → Option Bytes → Exec S (Unit {ℓ})
check none s = (ok tt, s)
check (some e) s = (err e, s)

-- User.CheckHaveUserName and User.GetUserNameByUserId
unfoldable pub check_have_user_name : {R : Redis} {U : Users} → Bytes → World R U → User
check_have_user_name {U = U} name w = U.by_name name w.users

unfoldable pub get_user_name_by_user_id : {R : Redis} {U : Users} → ℤ → World R U → Bytes
get_user_name_by_user_id {U = U} uid w = (U.by_user_id uid w.users).user_name

-- User.Add: the new row's key, or the key of the row that has the name already.
unfoldable pub add : {R : Redis} {U : Users} → Bytes → Bytes → Exec (World R U) ℤ
unfolding check_have_user_name
add {U = U} name password w =
    let old = check_have_user_name name w in
    let (made, db) =
      U.create (record { id = pos 0; user_name = name; password = password }) w.users in
    if is_empty name || is_empty password
    then (err (codes "user_name or password empty!"), w)
    else if not (is_nonpos old.id)
    then (ok old.id, w)
    else (made, record w { users = db })

-- The publishing functions of logic/publish.go; `marshal` is json.Marshal of a RedisMsg.
module _ {R : Redis} {U : Users} (marshal : RedisMsg → Result Bytes) where
  unfoldable pub publish_msg : RedisMsg → Exec (World R U) (Unit {0})
  unfolding call
  publish_msg m = do
    body ← λ w. (marshal m, w)
    r ← call (publish queue_name body)
    check (err_of r)

  unfoldable pub redis_publish_channel : Bytes → ℤ → Bytes → Exec (World R U) (Unit {0})
  unfolding publish_msg
  redis_publish_channel server_id to_user_id msg = publish_msg (record {
    op = op_single_send;
    server_id = server_id;
    room_id = pos 0;
    user_id = to_user_id;
    msg = msg;
    count = pos 0;
    room_user_info = [];
  })

  unfoldable pub redis_publish_room_info :
      ℤ → ℤ → List (Bytes × Bytes) → Bytes → Exec (World R U) (Unit {0})
  unfolding publish_msg
  redis_publish_room_info rid count info msg = publish_msg (record {
    op = op_room_send;
    server_id = [];
    room_id = rid;
    user_id = pos 0;
    msg = msg;
    count = count;
    room_user_info = info;
  })

  unfoldable pub redis_push_room_count : ℤ → ℤ → Exec (World R U) (Unit {0})
  unfolding publish_msg
  redis_push_room_count rid count = publish_msg (record {
    op = op_room_count_send;
    server_id = [];
    room_id = rid;
    user_id = pos 0;
    msg = [];
    count = count;
    room_user_info = [];
  })

  unfoldable pub redis_push_room_info : ℤ → ℤ → List (Bytes × Bytes) → Exec (World R U) (Unit {0})
  unfolding publish_msg
  redis_push_room_info rid count info = publish_msg (record {
    op = op_room_info_send;
    server_id = [];
    room_id = rid;
    user_id = pos 0;
    msg = [];
    count = count;
    room_user_info = info;
  })
