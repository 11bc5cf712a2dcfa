-- ===== src/Connect/System.antt =====
-- One connect server as a whole: its buckets over one heap, and the steps that its readers, the
-- task layer's calls and its push goroutines take, in any order, each step as a whole.
pub mod Frame
pub mod Effect
pub mod Leaves
pub mod Joins
pub mod Replaced
pub mod Quiet
pub mod Queued
pub mod Start
pub mod Reachable
pub mod Closing
pub mod Admission
pub mod Pushing
use zhibo.Prelude.{
  ℕ, ◌<◌, ℤ, Bytes, Option, none, some, List, [], ◌∷◌, ◌≡◌, ◌≢◌, set, get_elem?, length, pos,
}
use zhibo.Proto.{PushRoomMsgRequest, PushMsgRequest, SuccessReply}
use zhibo.Connect.Heap.{Ptr, Heap, new_channel}
use zhibo.Connect.Room.{new_room}
use zhibo.Connect.Bucket
use zhibo.Connect.Bucket.{Bucket, BucketOptions, Outcome, done, push_room_round, broadcast_room}
use zhibo.Connect.Bucket.Invariant.{Members, IsBucket}
use zhibo.Connect.Bucket.Routines.{HasRoutines}
use zhibo.Connect.Server.{Server, State, bucket}
use zhibo.Connect.Push.{push_single_msg}

-- A channel that is in no room and that no bucket has for a user.
pub record IsFresh (s : State) (ch : Ptr) : Type 0 where
  pub unplaced : (s.heap.channels ch).room ≡ none
  pub unknown :
      (i : ℕ) (b : Bucket) (u : ℤ) → get_elem? s.server.buckets i ≡ some b → b.chs u ≢ some ch

-- The bucket at an index goes back to its place, and the heap is replaced.
abbrev pub with_bucket : State → ℕ → Bucket → Heap → State
with_bucket s i b h = record s {
  server = record s.server { buckets = set s.server.buckets i b };
  heap = h;
}

-- What the server does next. This is less than the Go program can do: a channel joins only while it
-- is fresh, so never again after it joined a room, though readPump takes further joins of one websocket (Room/Delivery and
-- Session/Whole/Rejoined have what these do); and each step runs as a whole, though Put and a round of a push
-- goroutine take and give back several locks on their way, and DeleteChannel and Room.Push hold theirs
-- for reading only (Bucket/Raced and Room/Interleaved have what can happen in between). A PushRoomMsg
-- is a step in each bucket, so that one that waits has taken those of the buckets before.
pub data Step (hash : Bytes → ℕ → ℕ) (s : State) : State → Type 0 where
  join :
      (uid rid : ℤ) (ch : Ptr) (i : ℕ) (b : Bucket)
      → bucket hash uid s.server ≡ done (i, b)
      → IsFresh s ch
      → Step hash s
          (with_bucket s i (Bucket.put uid rid ch b s.heap).0 (Bucket.put uid rid ch b s.heap).1)
  leave :
      (ch : Ptr) (i : ℕ) (b b' : Bucket) (h : Heap)
      → bucket hash (s.heap.channels ch).user_id s.server ≡ done (i, b)
      → Bucket.delete_channel ch b s.heap ≡ done (b', h)
      → Step hash s (with_bucket s i b' h)
  push_one :
      (req : PushMsgRequest) (reply answer : SuccessReply) (t : State)
      → push_single_msg hash (some req) reply s ≡ done (t, answer)
      → Step hash s t
  broadcast :
      (req : PushRoomMsgRequest) (i : ℕ) (b b' : Bucket)
      → get_elem? s.server.buckets i ≡ some b
      → broadcast_room req b ≡ done b'
      → Step hash s (with_bucket s i b' s.heap)
  deliver :
      (fuel i j : ℕ) (b b' : Bucket) (h : Heap)
      → get_elem? s.server.buckets i ≡ some b
      → push_room_round fuel j b s.heap ≡ done (b', some h)
      → Step hash s (with_bucket s i b' h)

-- The states that the steps lead to.
pub data Reach (hash : Bytes → ℕ → ℕ) (s : State) : State → Type 0 where
  start : Reach hash s s
  later : {t u : State} → Reach hash s t → Step hash t u → Reach hash s u

-- The invariant: each bucket's own, with one family of members for the whole heap, no room in two
-- buckets, and as many buckets as the index counts.
pub record IsState (s : State) (members : Members) : Type 0 where
  pub own : (i : ℕ) (b : Bucket) → get_elem? s.server.buckets i ≡ some b → IsBucket b s.heap members
  pub routines : (i : ℕ) (b : Bucket) → get_elem? s.server.buckets i ≡ some b → HasRoutines b
  pub apart :
      (i j : ℕ) (b c : Bucket) (k l : ℤ) (q : Ptr)
      → get_elem? s.server.buckets i ≡ some b
      → get_elem? s.server.buckets j ≡ some c
      → b.rooms k ≡ some q
      → c.rooms l ≡ some q
      → i ≡ j
  pub sized : s.server.bucket_idx ≡ length s.server.buckets
  pub some_bucket : 0 < s.server.bucket_idx
