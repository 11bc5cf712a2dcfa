-- ===== src/Tests/Logins.antt =====
-- A second login, and a registration, with a Redis in memory.
use zhibo.Prelude.{is_nonpos, pos, [], codes, true, ◌≡◌, ◌≢◌, refl}
use zhibo.Proto.{RegisterRequest, success_reply_code, fail_reply_code}
use zhibo.Logic.Exec.{ok}
use zhibo.Logic.Keys.{create_session_id}
use zhibo.Logic.World.{check_have_user_name}
use zhibo.Logic.Account.{login, register, check_auth}
use zhibo.Logic.Account.Renewed.{login-login}
use zhibo.Logic.Account.Registered.{register-check_auth}
use zhibo.Tests.Memory.{healthy}
use zhibo.Tests.Accounts.{empty_world, request, known, right_password, apart}

other_token : create_session_id (codes "abcd") ≢ create_session_id (codes "abc")
unfolding create_session_id
other_token e = cc

login-login_example :
    ((login request (codes "abcd") (login request (codes "abc") empty_world).1).0
      ≡ ok (record { code = success_reply_code; auth_token = codes "abcd" }))
    × ((check_auth
          (record { auth_token = codes "abc" })
          (login request (codes "abcd") (login request (codes "abc") empty_world).1).1).0
        ≡ ok (record { code = fail_reply_code; user_id = pos 0; user_name = [] }))
login-login_example =
    login-login healthy request (codes "abc") (codes "abcd") empty_world refl known right_password
      refl other_token apart

abbrev newcomer : RegisterRequest
newcomer = record { name = codes "ann"; password = codes "222222" }

unknown : is_nonpos (check_have_user_name newcomer.name empty_world).id ≡ true
unfolding check_have_user_name
unknown = refl

register-check_auth_example :
    ((register newcomer (codes "abc") empty_world).0
      ≡ ok (record { code = success_reply_code; auth_token = codes "abc" }))
    × ((check_auth
          (record { auth_token = codes "abc" })
          (register newcomer (codes "abc") empty_world).1).0
        ≡ ok (record { code = success_reply_code; user_id = pos 2; user_name = codes "ann" }))
register-check_auth_example =
    register-check_auth healthy newcomer (codes "abc") empty_world (pos 2) tt refl unknown refl refl
      refl (λ e. cc) refl
