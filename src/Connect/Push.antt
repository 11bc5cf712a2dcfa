-- ===== src/Connect/Push.antt =====
-- The methods of RpcConnectPush in connect/rpc.go, which the task layer calls: a message to one user,
-- and messages to a room through every bucket.
use zhibo.Prelude.{ℕ, ℤ, Bytes, Option, none, some, List, [], ◌∷◌}
use zhibo.Proto.{
  Msg, PushMsgRequest, PushRoomMsgRequest, SuccessReply, success_reply_code, success_reply_msg,
}
use zhibo.Connect.Heap.{Ptr, push}
use zhibo.Connect.Bucket.{Bucket, Outcome, done, waits, panics, broadcast_room}
use zhibo.Connect.Server.{State, bucket}

abbrev pub success_reply : SuccessReply
success_reply = record { code = success_reply_code; msg = success_reply_msg }

-- PushSingleMsg, from the bucket of the user on: the reply is set only where there is no channel.
unfoldable pub push_single : Option Ptr → Msg → SuccessReply → State → State × SuccessReply
unfolding push
push_single (some ch) m reply s =
    (record s { heap = record s.heap { channels = push ch m s.heap.channels } }, reply)
push_single none m reply s = (s, success_reply)

unfoldable pub push_in :
    Outcome (ℕ × Bucket) → ℤ → Msg → SuccessReply → State → Outcome (State × SuccessReply)
unfolding push_single
push_in (done (i, b)) uid m reply s = done (push_single (b.chs uid) m reply s)
push_in waits uid m reply s = waits
push_in panics uid m reply s = panics

unfoldable pub push_single_msg :
    (Bytes → ℕ → ℕ) → Option PushMsgRequest → SuccessReply → State → Outcome (State × SuccessReply)
unfolding push_in bucket
push_single_msg hash none reply s = done (s, reply)
push_single_msg hash (some req) reply s =
    push_in (bucket hash req.user_id s.server) req.user_id req.msg reply s

-- The loop `for _, bucket := range DefaultServer.Buckets { bucket.BroadcastRoom(req) }`.
abbrev pub cons_done : Bucket → Outcome (List Bucket) → Outcome (List Bucket)
cons_done b (done bs) = done (b ∷ bs)
cons_done b waits = waits
cons_done b panics = panics

abbrev pub after_first : Outcome Bucket → Outcome (List Bucket) → Outcome (List Bucket)
after_first (done b) rest = cons_done b rest
after_first waits rest = waits
after_first panics rest = panics

unfoldable pub broadcast_all : PushRoomMsgRequest → List Bucket → Outcome (List Bucket)
unfolding broadcast_room
broadcast_all req [] = done []
broadcast_all req (b ∷ bs) = after_first (broadcast_room req b) (broadcast_all req bs)

abbrev pub with_buckets : State → Outcome (List Bucket) → Outcome (State × SuccessReply)
with_buckets s (done bs) =
    done (record s { server = record s.server { buckets = bs } }, success_reply)
with_buckets s waits = waits
with_buckets s panics = panics

-- PushRoomMsg, PushRoomCount and PushRoomInfo have one body.
unfoldable pub push_room_msg : PushRoomMsgRequest → State → Outcome (State × SuccessReply)
unfolding broadcast_all
push_room_msg req s = with_buckets s (broadcast_all req s.server.buckets)

unfoldable pub push_room_count : PushRoomMsgRequest → State → Outcome (State × SuccessReply)
unfolding broadcast_all
push_room_count req s = with_buckets s (broadcast_all req s.server.buckets)

unfoldable pub push_room_info : PushRoomMsgRequest → State → Outcome (State × SuccessReply)
unfolding broadcast_all
push_room_info req s = with_buckets s (broadcast_all req s.server.buckets)
