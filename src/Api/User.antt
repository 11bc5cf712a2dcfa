-- ===== src/Api/User.antt =====
-- api/handler/user.go. `sha1` is tools.Sha1.
use zhibo.Prelude.{int_eq, is_empty, Bytes, codes, ◌||◌, if◌then◌else◌}
use zhibo.Logic.Exec.{Result, ok, err}
use zhibo.Api.Rpc.{LogicRpc}
use zhibo.Api.Rpc
use zhibo.Api.Response.{Response, no_body, text, user, code_fail, success_with_msg, fail_with_msg}

pub record FormLogin : Type 0 where
  pub user_name : Bytes
  pub password : Bytes

pub record FormRegister : Type 0 where
  pub user_name : Bytes
  pub password : Bytes

pub record FormCheckAuth : Type 0 where
  pub auth_token : Bytes

pub record FormLogout : Type 0 where
  pub auth_token : Bytes

module _ {W : Type 0} (c : LogicRpc W) where
  unfoldable pub login : (Bytes → Bytes) → Result FormLogin → W → Response × W
  unfolding Rpc.login success_with_msg fail_with_msg
  login sha1 (err e) w = (fail_with_msg e, w)
  login sha1 (ok form) w =
      let ((code, token, msg), w') =
        Rpc.login c (record { name = form.user_name; password = sha1 form.password }) w in
      if int_eq code code_fail || is_empty token
      then (fail_with_msg msg, w')
      else (success_with_msg (codes "login success") (text token), w')

  unfoldable pub register : (Bytes → Bytes) → Result FormRegister → W → Response × W
  unfolding Rpc.register success_with_msg fail_with_msg
  register sha1 (err e) w = (fail_with_msg e, w)
  register sha1 (ok form) w =
      let ((code, token, msg), w') =
        Rpc.register c (record { name = form.user_name; password = sha1 form.password }) w in
      if int_eq code code_fail || is_empty token
      then (fail_with_msg msg, w')
      else (success_with_msg (codes "register success") (text token), w')

  unfoldable pub check_auth : Result FormCheckAuth → W → Response × W
  unfolding Rpc.check_auth success_with_msg fail_with_msg
  check_auth (err e) w = (fail_with_msg e, w)
  check_auth (ok form) w =
      let ((code, uid, name), w') = Rpc.check_auth c (record { auth_token = form.auth_token }) w in
      if int_eq code code_fail
      then (fail_with_msg (codes "auth fail"), w')
      else (success_with_msg (codes "auth success") (user uid name), w')

  unfoldable pub logout : Result FormLogout → W → Response × W
  unfolding Rpc.logout success_with_msg fail_with_msg
  logout (err e) w = (fail_with_msg e, w)
  logout (ok form) w =
      let (code, w') = Rpc.logout c (record { auth_token = form.auth_token }) w in
      if int_eq code code_fail
      then (fail_with_msg (codes "logout fail!"), w')
      else (success_with_msg (codes "logout ok!") no_body, w')
