-- ===== src/Connect/System/Pushing.antt =====
-- PushRoomMsg of connect/rpc.go in the states that a server reaches: the loop over the buckets, which
-- may stop at a bucket that waits, after those before it have taken their steps.
use zhibo.Prelude.{
  ℕ, zero, suc, ◌<◌, ◌≤◌, Option, none, some, List, [], ◌∷◌, ◌++◌, ◌≡◌, ◌⊎◌, length, set, get_elem?,
}
use zhibo.Proto.{PushRoomMsgRequest}
use zhibo.Connect.Bucket.{Bucket, done, waits, next_num}
use zhibo.Connect.Bucket.Routines.{HasRoutines, turn}
use zhibo.Connect.Server.{State}
use zhibo.Connect.Push.{broadcast_all}

-- The queue whose turn is next, and the bucket with a request at its end.
abbrev or_empty : Option (List PushRoomMsgRequest) → List PushRoomMsgRequest
or_empty none = []
or_empty (some q) = q

abbrev pub next_queue : Bucket → List PushRoomMsgRequest
next_queue b = or_empty (get_elem? b.routines (turn b))

abbrev pub queued : PushRoomMsgRequest → Bucket → Bucket
queued req b = record b {
  routines = set b.routines (turn b) (next_queue b ++ req ∷ []);
  routines_num = next_num b;
}

-- The buckets after the first `n` of them have queued a request.
pub queue_first : ℕ → PushRoomMsgRequest → List Bucket → List Bucket
queue_first zero req bs = bs
queue_first (suc n) req [] = []
queue_first (suc n) req (b ∷ bs) = queued req b ∷ queue_first n req bs

-- Each bucket of a list has its routines.
abbrev AllHave : List Bucket → Type 0
AllHave bs = (i : ℕ) (b : Bucket) → get_elem? bs i ≡ some b → HasRoutines b

-- The first `n` buckets have room for a request in the queue whose turn it is.
abbrev pub HaveRoom : ℕ → List Bucket → Type 0
HaveRoom n bs =
    (i : ℕ) (b : Bucket)
    → get_elem? bs i ≡ some b
    → i < n
    → length (next_queue b) < b.bucket_options.routine_size

abbrev pub IsFull : ℕ → List Bucket → Type 0
IsFull n bs =
    (b : Bucket) × (get_elem? bs n ≡ some b)
    × (b.bucket_options.routine_size ≤ length (next_queue b))

-- The loop: the buckets that it gets to, and the one at which it waits.
record Sent (req : PushRoomMsgRequest) (bs : List Bucket) : Type 0 where
  count : ℕ
  within : count ≤ length bs
  room : HaveRoom count bs
  ends :
      ((count ≡ length bs) × (broadcast_all req bs ≡ done (queue_first count req bs)))
      ⊎ ((broadcast_all req bs ≡ waits) × IsFull count bs)

abbrev pub with_queued : ℕ → PushRoomMsgRequest → State → State
with_queued n req s = record s {
  server = record s.server { buckets = queue_first n req s.server.buckets };
}
