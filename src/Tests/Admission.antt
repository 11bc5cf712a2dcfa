-- ===== src/Tests/Admission.antt =====
-- A join after a login and after a logout, with a Redis in memory and a client that calls the logic
-- layer's Connect directly.
use zhibo.Prelude.{
  ℕ, pos, itoa, Bool, false, Bytes, codes, Option, none, some, [], ◌∷◌, ◌≡◌, refl, arith,
}
use zhibo.Proto.{ConnectReply}
use zhibo.Logic.Exec.{Result, ok, err}
use zhibo.Logic.World.{World, check_have_user_name}
use zhibo.Logic.Account.{login, logout}
use zhibo.Logic.Room
use zhibo.Connect.Bucket.{Bucket, done}
use zhibo.Connect.Server.{State, bucket}
use zhibo.Connect.Session.{LogicClient, next, stop, put_at, read_pump}
use zhibo.Connect.System.{start}
use zhibo.Connect.System.Start.{run}
use zhibo.Connect.System.Admission.{Reaches, logout-read_pump, login-read_pump}
use zhibo.Tests.Buckets.{city, options}
use zhibo.Tests.Sessions.{join_request, decode}
use zhibo.Tests.Memory.{memory, healthy}
use zhibo.Tests.Accounts.{
  table, empty_world, request, known, right_password, apart, session_world, session_there,
}

abbrev reply_from :
    Result ConnectReply × World memory table → Option Bytes × ConnectReply × World memory table
reply_from (ok r, w) = (none, r, w)
reply_from (err e, w) = (some e, record { user_id = pos 0 }, w)

abbrev direct : LogicClient (World memory table)
direct = record {
  connect = λ req w. reply_from (Room.connect req w);
  dis_connect = λ req w. (none, w);
  push_room = λ m w. w;
}

reply_from-ok :
    (p : Result ConnectReply × World memory table) (reply : ConnectReply)
    → p.0 ≡ ok reply
    → reply_from p ≡ (none, reply, p.1)
reply_from-ok (ok r, w) reply e = cc
reply_from-ok (err x, w) reply e = cc

direct-Reaches : Reaches direct
direct-Reaches req w reply e = reply_from-ok (Room.connect req w) reply e

abbrev new_state : State
new_state = run 1 options 10

logout-read_pump_example :
    (w' : World memory table) × (read_pump city direct
        (codes "s1")
        decode
        false
        (some (codes "{}"))
        1
        (new_state, (logout (record { auth_token = codes "abc" }) session_world).1)
      ≡ stop (new_state, w'))
logout-read_pump_example =
    logout-read_pump healthy city direct direct-Reaches (codes "s1") decode
      (codes "userId", itoa (pos 1)) ((codes "userName", codes "demo") ∷ []) session_world
      (codes "{}") join_request 1 new_state refl session_there refl refl

login-read_pump_example :
    (i : ℕ) × (b : Bucket) × (c : Bool) × (w' : World memory table) × (bucket city
        (check_have_user_name request.name empty_world).id
        new_state.server
      ≡ done (i, b))
    × (read_pump city direct
          (codes "s1")
          decode
          false
          (some (codes "{}"))
          1
          (new_state, (login request (codes "abc") empty_world).1)
        ≡ next c (
          (put_at city direct
              (codes "s1")
              (check_have_user_name request.name empty_world).id
              (pos 5)
              1
              new_state
              i
              b).0,
          w',
        ))
login-read_pump_example =
    login-read_pump healthy city direct direct-Reaches (codes "s1") decode 1 options 10 request
      empty_world (codes "{}") join_request 1 new_state (omega arith) (omega arith) (omega arith)
      start refl known right_password refl apart refl refl
