-- ===== src/Api/Session.antt =====
-- CheckSessionId of api/router/router.go, which stands before every handler but Login and Register.
pub mod Guard
use mathlib.Core.Path.{subst}
use zhibo.Prelude.{
  ℤ, pos, int_eq, is_nonpos, is_empty, Bytes, codes, Bool, true, false, ◌||◌, Option, none, some,
  List, [], ◌∷◌, ◌≡◌, refl, ap, ◌∙◌, ◌⊎◌, inl, inr, Bool-cases, if◌then◌else◌,
}
use zhibo.Proto.{CheckAuthRequest, CheckAuthResponse}
use zhibo.Logic.Exec.{Result, ok, err}
use zhibo.Api.Rpc.{LogicRpc}
use zhibo.Api.Rpc
use zhibo.Api.Response.{Response, no_body, code_fail, code_session_error, response_with_code}

abbrev pub session_error : Response
session_error = response_with_code code_session_error none no_body

-- `code == tools.CodeFail || userId <= 0 || userName == ""`
abbrev pub refused : ℤ × ℤ × Bytes → Bool
refused (code, uid, name) = int_eq code code_fail || is_nonpos uid || is_empty name

module _ {W : Type 0} (c : LogicRpc W) where
  unfoldable pub check_session_id : Result Bytes → (W → Response × W) → W → Response × W
  unfolding Rpc.check_auth
  check_session_id (err e) next w = (session_error, w)
  check_session_id (ok token) next w =
      let (reply, w') = Rpc.check_auth c (record { auth_token = token }) w in
      if refused reply then (session_error, w') else next w'

  -- What the check makes of the reply to its call.
  pub check_session_id-reply :
      (token : Bytes) (next : W → Response × W) (w : W) (t : Option Bytes × CheckAuthResponse × W)
      → c.call_check_auth (record { auth_token = token }) w ≡ t
      → check_session_id (ok token) next w ≡ (
          if refused (t.1.code, t.1.user_id, t.1.user_name) then (session_error, t.2) else next t.2)
  unfolding check_session_id Rpc.check_auth
  check_session_id-reply token next w t e =
      ap
        (λ (x : Option Bytes × CheckAuthResponse × W).
          if refused (x.1.code, x.1.user_id, x.1.user_name) then (session_error, x.2) else next x.2)
        e
