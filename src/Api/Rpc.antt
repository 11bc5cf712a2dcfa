-- ===== src/Api/Rpc.antt =====
-- api/rpc/rpc.go: the calls of the logic layer. A call that fails leaves the reply as it is; most
-- wrappers do not look at the error.
use zhibo.Prelude.{ℤ, Bytes, Option, none, some, []}
use zhibo.Proto.{
  LoginRequest, LoginResponse, RegisterRequest, RegisterReply, GetUserInfoRequest,
  GetUserInfoResponse, CheckAuthRequest, CheckAuthResponse, LogoutRequest, LogoutResponse, Send,
  SuccessReply,
}

-- One method of the logic layer's server: an error, the reply as the call leaves it, the new state.
abbrev pub Call : Type 0 → Type 0 → Type 0 → Type 0
Call W A B = A → W → Option Bytes × B × W

pub record LogicRpc (W : Type 0) : Type 0 where
  pub call_login : Call W LoginRequest LoginResponse
  pub call_register : Call W RegisterRequest RegisterReply
  pub call_user_info : Call W GetUserInfoRequest GetUserInfoResponse
  pub call_check_auth : Call W CheckAuthRequest CheckAuthResponse
  pub call_logout : Call W LogoutRequest LogoutResponse
  pub call_push : Call W Send SuccessReply
  pub call_push_room : Call W Send SuccessReply
  pub call_count : Call W Send SuccessReply
  pub call_room_info : Call W Send SuccessReply

-- `if err != nil { msg = err.Error() }`
abbrev pub message_of : Option Bytes → Bytes
message_of none = []
message_of (some e) = e

module _ {W : Type 0} (c : LogicRpc W) where
  unfoldable pub login : LoginRequest → W → (ℤ × Bytes × Bytes) × W
  login req w =
      let (e, reply, w') = c.call_login req w in ((reply.code, reply.auth_token, message_of e), w')

  unfoldable pub register : RegisterRequest → W → (ℤ × Bytes × Bytes) × W
  register req w =
      let (e, reply, w') = c.call_register req w in
      ((reply.code, reply.auth_token, message_of e), w')

  unfoldable pub get_user_name_by_user_id : GetUserInfoRequest → W → (ℤ × Bytes) × W
  get_user_name_by_user_id req w =
      let (e, reply, w') = c.call_user_info req w in ((reply.code, reply.user_name), w')

  unfoldable pub check_auth : CheckAuthRequest → W → (ℤ × ℤ × Bytes) × W
  check_auth req w =
      let (e, reply, w') = c.call_check_auth req w in
      ((reply.code, reply.user_id, reply.user_name), w')

  unfoldable pub logout : LogoutRequest → W → ℤ × W
  logout req w = let (e, reply, w') = c.call_logout req w in (reply.code, w')

  unfoldable pub push : Send → W → (ℤ × Bytes) × W
  push req w = let (e, reply, w') = c.call_push req w in ((reply.code, reply.msg), w')

  unfoldable pub push_room : Send → W → (ℤ × Bytes) × W
  push_room req w = let (e, reply, w') = c.call_push_room req w in ((reply.code, reply.msg), w')

  unfoldable pub count : Send → W → (ℤ × Bytes) × W
  count req w = let (e, reply, w') = c.call_count req w in ((reply.code, reply.msg), w')

  unfoldable pub get_room_info : Send → W → (ℤ × Bytes) × W
  get_room_info req w = let (e, reply, w') = c.call_room_info req w in ((reply.code, reply.msg), w')
