-- ===== src/Tests/Sockets.antt =====
-- A TCP connection that joins room 5 and ends, in the server and with the logic layer of
-- Tests/Sessions. The JSON of a message is its text.
use zhibo.Prelude.{ℕ, pos, Bytes, codes, none, some, List, [], ◌∷◌, ◌≡◌, refl, arith, false, itoa}
use zhibo.Proto.{SendTcp, op_build_tcp_conn}
use zhibo.StickPackage.{scan}
use zhibo.StickPackage.Frames.{stream}
use zhibo.Connect.Bucket.{Bucket, done, new_bucket}
use zhibo.Connect.Server.{State, new_server, bucket, index, at_index}
use zhibo.Connect.Session.{stop}
use zhibo.Connect.Session.Whole.{read_data_all}
use zhibo.Connect.Session.Whole.Sockets.{Builds, read_data_all-leaves}
use zhibo.Tests.Buckets.{b0, city}
use zhibo.Tests.Sessions.{logic, start}

abbrev build : SendTcp
build = record {
  code = pos 0;
  msg = codes "hi";
  from_user_id = pos 1;
  from_user_name = codes "demo";
  to_user_id = pos 0;
  to_user_name = [];
  room_id = pos 5;
  op = op_build_tcp_conn;
  create_time = [];
  auth_token = codes "abc";
}

build-Builds : Builds city logic (codes "s1") build start 0 (record { user_id = pos 7 }) 0 0 b0
unfolding bucket index at_index new_server new_bucket itoa
build-Builds = record {
  token = refl;
  in_room = refl;
  build = refl;
  answered = refl;
  somebody = refl;
  found = refl;
  left = λ d. refl;
}

read_data_all-leaves_example :
    (ps : List Bytes) × (s' : State) × (v : ℕ) × (b' : Bucket) × (scan 2 (stream (codes "hi" ∷ []))
      ≡ some (ps, []))
    × (read_data_all city logic (codes "s1") 1 (λ t. some build) false ps (start, 0) ≡ stop (s', v))
    × (bucket city (pos 7) s'.server ≡ done (0, b'))
    × (b'.chs (pos 7) ≡ none)
read_data_all-leaves_example =
    read_data_all-leaves city logic (codes "s1") (λ t. some build) (λ m. m.msg) build 1 start 0
      (record { user_id = pos 7 }) 0 0 b0 build-Builds false 2 (omega arith, omega arith, tt) refl
      (omega arith)
