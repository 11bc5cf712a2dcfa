-- ===== src/Api/Push.antt =====
-- api/handler/push.go. `Atoi` is that of Prelude/Decimal.
use zhibo.Prelude.{ℤ, pos, int_eq, Bytes, codes, [], if◌then◌else◌}
use zhibo.Prelude.Decimal.{atoi}
use zhibo.Proto.{Send, op_single_send, op_room_send, op_room_count_send, op_room_info_send}
use zhibo.Logic.Exec.{Result, ok, err}
use zhibo.Api.Rpc.{LogicRpc}
use zhibo.Api.Rpc
use zhibo.Api.Response.{Response, no_body, text, code_fail, success_with_msg, fail_with_msg}

pub record FormPush : Type 0 where
  pub msg : Bytes
  pub to_user_id : Bytes
  pub room_id : ℤ
  pub auth_token : Bytes

pub record FormRoom : Type 0 where
  pub auth_token : Bytes
  pub msg : Bytes
  pub room_id : ℤ

pub record FormCount : Type 0 where
  pub room_id : ℤ

pub record FormRoomInfo : Type 0 where
  pub room_id : ℤ

-- A Send that names its room and its kind only.
abbrev pub ask : ℤ → ℤ → Send
ask rid op = record {
  code = pos 0;
  msg = [];
  from_user_id = pos 0;
  from_user_name = [];
  to_user_id = pos 0;
  to_user_name = [];
  room_id = rid;
  op = op;
  create_time = [];
}

module _ {W : Type 0} (c : LogicRpc W) where
  -- The end of Push, from the two names on.
  unfoldable pub push_as : FormPush → Bytes → ℤ → Bytes → W → Response × W
  unfolding Rpc.push success_with_msg fail_with_msg atoi
  push_as form to_user_name from_id from_name w =
      let ((code, msg), w') =
        Rpc.push c
          (record (ask form.room_id op_single_send) {
            msg = form.msg;
            from_user_id = from_id;
            from_user_name = from_name;
            to_user_id = atoi form.to_user_id;
            to_user_name = to_user_name;
          })
          w in
      if int_eq code code_fail
      then (fail_with_msg msg, w')
      else (success_with_msg (codes "ok") no_body, w')

  unfoldable pub push : Result FormPush → W → Response × W
  unfolding push_as Rpc.get_user_name_by_user_id Rpc.check_auth fail_with_msg atoi
  push (err e) w = (fail_with_msg e, w)
  push (ok form) w =
      let ((code, to_name), w1) =
        Rpc.get_user_name_by_user_id c (record { user_id = atoi form.to_user_id }) w in
      let ((auth, from_id, from_name), w2) =
        Rpc.check_auth c (record { auth_token = form.auth_token }) w1 in
      if int_eq code code_fail
      then (fail_with_msg (codes "rpc fail get friend userName"), w1)
      else if int_eq auth code_fail
      then (fail_with_msg (codes "rpc fail get self info"), w2)
      else push_as form to_name from_id from_name w2

  unfoldable pub push_room_as : FormRoom → ℤ → Bytes → W → Response × W
  unfolding Rpc.push_room success_with_msg fail_with_msg
  push_room_as form from_id from_name w =
      let ((code, msg), w') =
        Rpc.push_room c
          (record (ask form.room_id op_room_send) {
            msg = form.msg;
            from_user_id = from_id;
            from_user_name = from_name;
          })
          w in
      if int_eq code code_fail
      then (fail_with_msg (codes "rpc push room msg fail!"), w')
      else (success_with_msg (codes "ok") (text msg), w')

  unfoldable pub push_room : Result FormRoom → W → Response × W
  unfolding push_room_as Rpc.check_auth fail_with_msg
  push_room (err e) w = (fail_with_msg e, w)
  push_room (ok form) w =
      let ((auth, from_id, from_name), w') =
        Rpc.check_auth c (record { auth_token = form.auth_token }) w in
      if int_eq auth code_fail
      then (fail_with_msg (codes "rpc fail get self info"), w')
      else push_room_as form from_id from_name w'

  unfoldable pub count : Result FormCount → W → Response × W
  unfolding Rpc.count success_with_msg fail_with_msg
  count (err e) w = (fail_with_msg e, w)
  count (ok form) w =
      let ((code, msg), w') = Rpc.count c (ask form.room_id op_room_count_send) w in
      if int_eq code code_fail
      then (fail_with_msg (codes "rpc get room count fail!"), w')
      else (success_with_msg (codes "ok") (text msg), w')

  unfoldable pub get_room_info : Result FormRoomInfo → W → Response × W
  unfolding Rpc.get_room_info success_with_msg fail_with_msg
  get_room_info (err e) w = (fail_with_msg e, w)
  get_room_info (ok form) w =
      let ((code, msg), w') = Rpc.get_room_info c (ask form.room_id op_room_info_send) w in
      if int_eq code code_fail
      then (fail_with_msg (codes "rpc get room info fail!"), w')
      else (success_with_msg (codes "ok") (text msg), w')
