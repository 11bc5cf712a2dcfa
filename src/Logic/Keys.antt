-- ===== src/Logic/Keys.antt =====
-- The keys of Redis: the helpers at the end of logic/publish.go, and those of tools/commom.go.
use zhibo.Prelude.{ℤ, Bytes, codes, itoa, ◌++◌}
use zhibo.Proto.{redis_prefix, redis_room_prefix, redis_room_online_prefix}

abbrev pub session_prefix : Bytes
session_prefix = codes "sess_"

unfoldable pub get_room_user_key : Bytes → Bytes
get_room_user_key auth_key = redis_room_prefix ++ auth_key

unfoldable pub get_room_online_count_key : Bytes → Bytes
get_room_online_count_key auth_key = redis_room_online_prefix ++ auth_key

unfoldable pub get_user_key : Bytes → Bytes
get_user_key auth_key = redis_prefix ++ auth_key

unfoldable pub create_session_id : Bytes → Bytes
create_session_id session_id = session_prefix ++ session_id

unfoldable pub get_session_id_by_user_id : ℤ → Bytes
unfolding itoa
get_session_id_by_user_id uid = codes "sess_map_" ++ itoa uid

unfoldable pub get_session_name : Bytes → Bytes
get_session_name session_id = session_prefix ++ session_id
