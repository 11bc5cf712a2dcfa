-- ===== src/Connect/System/Quiet.antt =====
-- Pushing messages changes the channels' buffers only.
use zhibo.Prelude.{
  ℕ, Bytes, zero, suc, ℤ, Option, none, some, List, [], ◌∷◌, ◌≡◌, inl, inr, refl, sym, ap, ◌∙◌,
  arith, length-set, get_elem?, set, update,
}
use mathlib.Core.Path.{subst}
use zhibo.Proto.{Msg, PushRoomMsgRequest, PushMsgRequest, SuccessReply}
use zhibo.Connect.Heap.{Ptr, Channel, Channels, Room, Heap, push, offer}
use zhibo.Connect.Room.{push_loop, push_room}
use zhibo.Connect.Bucket.{Bucket, Outcome, done, waits, panics, push_to, push_head, push_room_round}
use zhibo.Connect.Bucket.Invariant.{Members, IsBucket}
use zhibo.Connect.Server.{State, bucket}
use zhibo.Connect.Push.{push_single, push_in, push_single_msg}
use zhibo.Connect.System.Effect.{done-injective}
use zhibo.Connect.System.{IsState, with_bucket}
use zhibo.Connect.System.Frame.{Touches, IsBucket-frame}
use zhibo.Connect.System.Replaced.{with_bucket-IsState}

-- The channel has all of its fields but the buffer.
pub record SameButBuffer (a b : Channel) : Type 0 where
  pub next : a.next ≡ b.next
  pub prev : a.prev ≡ b.prev
  pub room : a.room ≡ b.room
  pub user : a.user_id ≡ b.user_id

SameButBuffer-refl : (a : Channel) → SameButBuffer a a
SameButBuffer-refl a = record { next = refl; prev = refl; room = refl; user = refl }

SameButBuffer-trans : (a b c : Channel) → SameButBuffer a b → SameButBuffer b c → SameButBuffer a c
SameButBuffer-trans a b c s t = record {
  next = s.next ∙ t.next;
  prev = s.prev ∙ t.prev;
  room = s.room ∙ t.room;
  user = s.user ∙ t.user;
}

push-SameButBuffer :
    (x : Ptr) (m : Msg) (c : Channels) (y : Ptr) → SameButBuffer (push x m c y) (c y)
unfolding push offer update
push-SameButBuffer x m c y = record {
  next = ground arith;
  prev = ground arith;
  room = ground arith;
  user = ground arith;
}

push_loop-SameButBuffer :
    (fuel : ℕ) (start : Option Ptr) (m : Msg) (c d : Channels)
    → push_loop fuel start m c ≡ some d
    → (y : Ptr) → SameButBuffer (d y) (c y)
unfolding push_loop
push_loop-SameButBuffer fuel none m c d e y =
    let same : c ≡ d = cc in
    subst (λ (k : Channels). SameButBuffer (k y) (c y)) same (SameButBuffer-refl (c y))
push_loop-SameButBuffer zero (some x) m c d e y = cc (e)
push_loop-SameButBuffer (suc fuel) (some x) m c d e y =
    SameButBuffer-trans (d y) (push x m c y) (c y)
      (push_loop-SameButBuffer fuel (push x m c x).next m (push x m c) d e y)
      (push-SameButBuffer x m c y)

pub record IsQuiet (h g : Heap) : Type 0 where
  pub rooms : g.rooms ≡ h.rooms
  pub fresh_room : g.fresh_room ≡ h.fresh_room
  pub channels : (y : Ptr) → SameButBuffer (g.channels y) (h.channels y)

IsQuiet-refl : (h : Heap) → IsQuiet h h
IsQuiet-refl h = record {
  rooms = refl;
  fresh_room = refl;
  channels = λ y. SameButBuffer-refl (h.channels y);
}

pushed-IsQuiet :
    (h g : Heap) (o : Option Channels)
    → ((d : Channels) → o ≡ some d → (y : Ptr) → SameButBuffer (d y) (h.channels y))
    → elim o [ none ↦ none | some c ↦ some (record h { channels = c }) ] ≡ some g
    → IsQuiet h g
pushed-IsQuiet h g none old e = cc (e)
pushed-IsQuiet h g (some d) old e =
    let same : record h { channels = d } ≡ g = cc in
    subst (λ (k : Heap). IsQuiet h k) same
      (record { rooms = refl; fresh_room = refl; channels = old d refl })

pub push_to-IsQuiet :
    (o : Option Ptr) (fuel : ℕ) (req : PushRoomMsgRequest) (h g : Heap)
    → push_to o fuel req h ≡ some g
    → IsQuiet h g
unfolding push_to push_room
push_to-IsQuiet none fuel req h g e =
    let same : h ≡ g = cc in subst (λ (k : Heap). IsQuiet h k) same (IsQuiet-refl h)
push_to-IsQuiet (some r) fuel req h g e =
    pushed-IsQuiet h g (push_loop fuel (h.rooms r).next req.msg h.channels)
      (λ d ran y. push_loop-SameButBuffer fuel (h.rooms r).next req.msg h.channels d ran y) e

pub IsQuiet-Touches :
    (h g : Heap) (members : Members) → IsQuiet h g → Touches h g members members h.fresh_room
IsQuiet-Touches h g members q = record {
  grows = omega (arith, q.fresh_room);
  rooms = λ r ne lt. ap (λ (f : Ptr → Room). f r) q.rooms;
  lists = λ r ne lt. refl;
  links = λ y r e ne. record { next = (q.channels y).next; prev = (q.channels y).prev };
  keeps = λ y r e. (q.channels y).room ∙ e;
}

pub IsQuiet-IsBucket :
    (h g : Heap) (members : Members) (b : Bucket)
    → IsQuiet h g
    → IsBucket b h members
    → IsBucket b g members
IsQuiet-IsBucket h g members b q is =
    IsBucket-frame h g members members h.fresh_room (IsQuiet-Touches h g members q) b is
      (λ k e. let lt = (is.at_room k h.fresh_room e).allocated in absurd (omega arith))
      (λ u x e. ((q.channels x).room, (q.channels x).user))

-- The server's buckets as they were, over a heap with other buffers.
pub IsQuiet-IsState :
    (s : State) (g : Heap) (members : Members)
    → IsQuiet s.heap g
    → IsState s members
    → IsState (record s { heap = g }) members
IsQuiet-IsState s g members q is = record {
  own = λ i b e. IsQuiet-IsBucket s.heap g members b q (is.own i b e);
  routines = is.routines;
  apart = is.apart;
  sized = is.sized;
  some_bucket = is.some_bucket;
}

push_single-IsQuiet :
    (o : Option Ptr) (m : Msg) (reply : SuccessReply) (s : State)
    → (g : Heap) × IsQuiet s.heap g × ((push_single o m reply s).0 ≡ record s { heap = g })
unfolding push_single
push_single-IsQuiet none m reply s = (s.heap, IsQuiet-refl s.heap, refl)
push_single-IsQuiet (some x) m reply s = (
  record s.heap { channels = push x m s.heap.channels },
  record {
    rooms = refl;
    fresh_room = refl;
    channels = λ y. push-SameButBuffer x m s.heap.channels y;
  },
  refl,
)

push_in-IsQuiet :
    (o : Outcome (ℕ × Bucket)) (uid : ℤ) (m : Msg) (reply answer : SuccessReply) (s t : State)
    → push_in o uid m reply s ≡ done (t, answer)
    → (g : Heap) × IsQuiet s.heap g × (t ≡ record s { heap = g })
unfolding push_in
push_in-IsQuiet waits uid m reply answer s t e = cc (e)
push_in-IsQuiet panics uid m reply answer s t e = cc (e)
push_in-IsQuiet (done (i, b)) uid m reply answer s t e =
    let (g, quiet, same) = push_single-IsQuiet (b.chs uid) m reply s in
    (g, quiet, sym (ap (λ (p : State × SuccessReply). p.0) (done-injective e)) ∙ same)

-- A message to one user keeps the invariant.
pub push_single_msg-IsState :
    (hash : Bytes → ℕ → ℕ) (req : PushMsgRequest) (reply answer : SuccessReply) (s t : State)
    (members : Members)
    → push_single_msg hash (some req) reply s ≡ done (t, answer)
    → IsState s members
    → IsState t members
unfolding push_single_msg
push_single_msg-IsState hash req reply answer s t members e is =
    let (g, quiet, same) =
      push_in-IsQuiet (bucket hash req.user_id s.server) req.user_id req.msg reply answer s t e in
    subst (λ (u : State). IsState u members) (sym same) (IsQuiet-IsState s g members quiet is)

-- What a round of a push goroutine that returned did.
record Round (fuel j : ℕ) (b b' : Bucket) (h g : Heap) : Type 0 where
  req : PushRoomMsgRequest
  rest : List PushRoomMsgRequest
  after : b' ≡ record b { routines = set b.routines j rest }
  quiet : IsQuiet h g

push_head-Round :
    (o : Option (List PushRoomMsgRequest)) (fuel j : ℕ) (b b' : Bucket) (h g : Heap)
    → push_head o fuel j b h ≡ done (b', some g)
    → Round fuel j b b' h g
unfolding push_head
push_head-Round none fuel j b b' h g e = cc (e)
push_head-Round (some []) fuel j b b' h g e = cc (e)
push_head-Round (some (req ∷ rest)) fuel j b b' h g e =
    let same = done-injective e in
    record {
      req = req;
      rest = rest;
      after = sym (ap (λ (p : Bucket × Option Heap). p.0) same);
      quiet =
          push_to-IsQuiet (b.rooms req.room_id) fuel req h g
            (ap (λ (p : Bucket × Option Heap). p.1) same);
    }

-- A round of a push goroutine that returns keeps the invariant.
pub push_room_round-IsState :
    (fuel i j : ℕ) (b b' : Bucket) (g : Heap) (s : State) (members : Members)
    → get_elem? s.server.buckets i ≡ some b
    → push_room_round fuel j b s.heap ≡ done (b', some g)
    → IsState s members
    → IsState (with_bucket s i b' g) members
unfolding push_room_round
push_room_round-IsState fuel i j b b' g s members at e is =
    let round = push_head-Round (get_elem? b.routines j) fuel j b b' s.heap g e in
    let c : Bucket = record b { routines = set b.routines j round.rest } in
    let own = IsQuiet-IsBucket s.heap g members b round.quiet (is.own i b at) in
    subst (λ (x : Bucket). IsState (with_bucket s i x g) members) (sym round.after)
      (with_bucket-IsState s members members i b c g is at
        (record { at_room = own.at_room; online = own.online; joined = own.joined })
        (record {
          room = s.heap.fresh_room;
          touched = IsQuiet-Touches s.heap g members round.quiet;
          mine = inr refl;
          rooms = λ k q e'. inl e';
          options = refl;
          amount = length-set b.routines j round.rest;
        })
        (λ k d u x ne old e'. ((round.quiet.channels x).room, (round.quiet.channels x).user)))
