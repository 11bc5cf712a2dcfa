-- ===== src/Api/Response.antt =====
-- tools/response.go: the JSON body of every answer.
use zhibo.Prelude.{
  ℤ, pos, negsuc, int_eq, Bytes, codes, Option, none, some, List, [], ◌∷◌, if◌then◌else◌,
}

abbrev pub code_success : ℤ
code_success = pos 0

abbrev pub code_fail : ℤ
code_fail = pos 1

abbrev pub code_unknown_error : ℤ
code_unknown_error = negsuc 0

abbrev pub code_session_error : ℤ
code_session_error = pos 40000

-- `data`: nil, a string, or the map of CheckAuth.
pub data Body : Type 0 where
  no_body : Body
  text : Bytes → Body
  user : ℤ → Bytes → Body

pub record Response : Type 0 where
  pub code : ℤ
  pub message : Bytes
  pub body : Body

-- MsgCodeMap
abbrev pub msg_code_map : List (ℤ × Bytes)
msg_code_map =
    (code_unknown_error, codes "unKnow error")
    ∷ (code_success, codes "success")
    ∷ (code_fail, codes "fail")
    ∷ (code_session_error, codes "Session error")
    ∷ []

-- The entry of a code, or else what is given.
unfoldable pub msg_of : ℤ → Bytes → List (ℤ × Bytes) → Bytes
msg_of code missing [] = missing
msg_of code missing ((k, m) ∷ ms) = if int_eq k code then m else msg_of code missing ms

unfoldable pub response_with_code : ℤ → Option Bytes → Body → Response
unfolding msg_of
response_with_code code (some msg) body = record { code = code; message = msg; body = body }
response_with_code code none body = record {
  code = code;
  message = msg_of code (msg_of code_unknown_error [] msg_code_map) msg_code_map;
  body = body;
}

unfoldable pub success_with_msg : Bytes → Body → Response
unfolding response_with_code
success_with_msg msg body = response_with_code code_success (some msg) body

unfoldable pub fail_with_msg : Bytes → Response
unfolding response_with_code
fail_with_msg msg = response_with_code code_fail (some msg) no_body
