-- ===== src/Tests/Websockets.antt =====
-- Websockets that join room 5, or NoRoom, and are closed, in the server and with the logic layer of
-- Tests/Sessions.
use zhibo.Prelude.{ℕ, pos, negsuc, codes, none, some, [], ◌∷◌, ◌≡◌, refl, true, false, itoa}
use zhibo.Proto.{ConnectRequest}
use zhibo.Connect.Bucket.{Bucket, done, new_bucket}
use zhibo.Connect.Server.{State, new_server, bucket, index, at_index}
use zhibo.Connect.Session.{stop}
use zhibo.Connect.Session.Whole.{read_pump_all}
use zhibo.Connect.Session.Whole.Sessions.{Joins, read_pump_all-leaves, read_pump_all-no_room}
use zhibo.Tests.Buckets.{b0, city}
use zhibo.Tests.Sessions.{logic, start, join_request, decode}

request-Joins :
    Joins city logic
      (codes "s1")
      decode
      (codes "{}")
      join_request
      start
      0
      (record { user_id = pos 7 })
      0
      0
      b0
unfolding bucket index at_index new_server new_bucket itoa
request-Joins = record {
  decoded = refl;
  token = refl;
  answered = refl;
  somebody = refl;
  found = refl;
  left = λ d. refl;
}

read_pump_all-leaves_example :
    (s' : State) × (v : ℕ) × (b' : Bucket) × (read_pump_all city logic
        (codes "s1")
        decode
        1
        ((false, some (codes "{}")) ∷ (true, none) ∷ [])
        (start, 0)
      ≡ stop (s', v))
    × (bucket city (pos 7) s'.server ≡ done (0, b'))
    × (b'.chs (pos 7) ≡ none)
read_pump_all-leaves_example =
    read_pump_all-leaves city logic (codes "s1") decode (codes "{}") join_request 1 start 0
      (record { user_id = pos 7 }) 0 0 b0 request-Joins true refl

-- The room is -1.
abbrev nowhere : ConnectRequest
nowhere = record { auth_token = codes "abc"; room_id = negsuc 0; server_id = [] }

nowhere-Joins :
    Joins city logic
      (codes "s1")
      (λ m. some nowhere)
      (codes "{}")
      nowhere
      start
      0
      (record { user_id = pos 7 })
      0
      0
      b0
unfolding bucket index at_index new_server new_bucket itoa
nowhere-Joins = record {
  decoded = refl;
  token = refl;
  answered = refl;
  somebody = refl;
  found = refl;
  left = λ d. refl;
}

read_pump_all-no_room_example :
    (s' : State) × (b' : Bucket) × (read_pump_all city logic
        (codes "s1")
        (λ m. some nowhere)
        1
        ((false, some (codes "{}")) ∷ (true, none) ∷ [])
        (start, 0)
      ≡ stop (s', 0))
    × (bucket city (pos 7) s'.server ≡ done (0, b'))
    × (b'.chs (pos 7) ≡ some 1)
read_pump_all-no_room_example =
    read_pump_all-no_room city logic (codes "s1") (λ m. some nowhere) (codes "{}") nowhere 1 start 0
      (record { user_id = pos 7 }) 0 0 b0 nowhere-Joins true refl refl
