-- ===== src/Tests/Sessions.antt =====
-- A websocket that joins room 5 and a TCP message, with a logic layer that knows every token as
-- user 7's and counts what it is asked to publish.
use zhibo.Prelude.{
  ℕ, suc, pos, Bytes, codes, Option, none, some, List, [], ◌∷◌, arith, ◌≡◌, refl, false, itoa,
}
use zhibo.Proto.{ConnectRequest, SendTcp, op_room_send}
use zhibo.Connect.Bucket.{new_bucket}
use zhibo.Connect.Server.{State, new_server, bucket, index, at_index}
use zhibo.Connect.Session.{
  LogicClient, next, put_at, put_turn, join_in, on_reply, on_request, on_message, read_pump,
}
use zhibo.Connect.Session.Reader.{read_data_from_tcp, serve_all, read_data_from_tcp-stream}
use zhibo.StickPackage.{scan}
use zhibo.StickPackage.Frames.{stream}
use zhibo.Tests.Buckets.{b0, g0, city}

abbrev pub logic : LogicClient ℕ
logic = record {
  connect = λ req w. (none, record { user_id = pos 7 }, w);
  dis_connect = λ req w. (none, w);
  push_room = λ m w. suc w;
}

abbrev pub start : State
start = record { server = new_server (b0 ∷ []); heap = g0 }

abbrev pub join_request : ConnectRequest
join_request = record { auth_token = codes "abc"; room_id = pos 5; server_id = [] }

abbrev pub decode : Bytes → Option ConnectRequest
decode m = some join_request

abbrev pub joined : State
joined = (put_at city logic (codes "s1") (pos 7) (pos 5) 1 start 0 b0).0

pub goes_on :
    read_pump city logic (codes "s1") decode false (some (codes "{}")) 1 (start, 0)
    ≡ next false (joined, 0)
unfolding read_pump on_message on_request on_reply join_in bucket index at_index new_server itoa
    put_at put_turn new_bucket
goes_on = refl

abbrev spoofed : SendTcp
spoofed = record {
  code = pos 0;
  msg = codes "hi";
  from_user_id = pos 1;
  from_user_name = codes "demo";
  to_user_id = pos 0;
  to_user_name = [];
  room_id = pos 5;
  op = op_room_send;
  create_time = [];
  auth_token = codes "x";
}

-- What the JSON of the message is taken to be, and back.
abbrev json_of : SendTcp → Bytes
json_of m = m.msg

abbrev read_json : Bytes → Option SendTcp
read_json b = some spoofed

read_data_from_tcp-stream_example :
    (ps : List Bytes) × (scan 3 (stream (codes "hi" ∷ codes "hi" ∷ [])) ≡ some (ps, []))
    × (read_data_from_tcp city logic (codes "s1") read_json 1 false ps (start, 0)
        ≡ serve_all city logic (codes "s1") read_json 1 (spoofed ∷ spoofed ∷ []) (start, 0))
read_data_from_tcp-stream_example =
    read_data_from_tcp-stream city logic (codes "s1") read_json 1 json_of false
      (spoofed ∷ spoofed ∷ []) 3 (start, 0)
      (omega arith, omega arith, (omega arith, omega arith, tt)) (refl, (refl, tt)) (omega arith)
