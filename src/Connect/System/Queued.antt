-- ===== src/Connect/System/Queued.antt =====
-- BroadcastRoom queues its request in its bucket, and changes nothing else.
use zhibo.Prelude.{
  ℕ, ℤ, Option, none, some, List, [], ◌∷◌, ◌++◌, ◌≡◌, refl, sym, ap, ◌∙◌, arith, Bool, true, false,
  zero, suc, ◌==◌, ◌%◌, length, length-set, get_elem?, set, if◌then◌else◌,
}
use mathlib.Core.Path.{subst}
use zhibo.Proto.{PushRoomMsgRequest}
use zhibo.Connect.Heap.{Ptr, Heap}
use zhibo.Connect.Bucket.{
  Bucket, BucketOptions, Outcome, done, panics, enqueue, next_num, broadcast_room,
}
use zhibo.Connect.Bucket.Invariant.{Members, IsBucket}
use zhibo.Connect.Bucket.Routines.{HasRoutines}
use zhibo.Connect.Server.{State}
use zhibo.Connect.System.{IsState, with_bucket}

-- The buckets differ in their queues only.
record SameButQueues (b c : Bucket) : Type 0 where
  chs : c.chs ≡ b.chs
  rooms : c.rooms ≡ b.rooms
  options : c.bucket_options ≡ b.bucket_options
  amount : length c.routines ≡ length b.routines

SameButQueues-refl : (b : Bucket) → SameButQueues b b
SameButQueues-refl b = record { chs = refl; rooms = refl; options = refl; amount = refl }

enqueue-SameButQueues :
    (req : PushRoomMsgRequest) (b c : Bucket) (i : ℕ) (o : Option (List PushRoomMsgRequest))
    → enqueue req b i o ≡ done c
    → SameButQueues b c
unfolding enqueue
enqueue-SameButQueues req b c i none e = cc (e)
enqueue-SameButQueues req b c i (some q) e = record {
  chs = ground arith;
  rooms = ground arith;
  options = ground arith;
  amount = ground (arith, length-set b.routines i (q ++ req ∷ []));
}

if_panics :
    (t : Bool) (o : Outcome Bucket) (c : Bucket) → (if t then panics else o) ≡ done c → o ≡ done c
if_panics true o c e = cc (e)
if_panics false o c e = e

broadcast_room-SameButQueues :
    (req : PushRoomMsgRequest) (b c : Bucket) → broadcast_room req b ≡ done c → SameButQueues b c
unfolding broadcast_room
broadcast_room-SameButQueues req b c e =
    let i = next_num b % b.bucket_options.routine_amount in
    enqueue-SameButQueues req b c i (get_elem? b.routines i)
      (if_panics (b.bucket_options.routine_amount == 0) _ c e)

-- The buckets of `cs` at each place are those of `bs`, up to their queues.
record Matches (bs cs : List Bucket) : Type 0 where
  same_length : length cs ≡ length bs
  each :
      (i : ℕ) (c : Bucket)
      → get_elem? cs i ≡ some c
      → (b : Bucket) × (get_elem? bs i ≡ some b) × SameButQueues b c

SameButQueues-IsBucket :
    (b c : Bucket) (h : Heap) (members : Members)
    → SameButQueues b c
    → IsBucket b h members
    → IsBucket c h members
SameButQueues-IsBucket b c h members same is = record {
  at_room = λ k q e. is.at_room k q (ap (λ (f : ℤ → Option Ptr). f k) (sym same.rooms) ∙ e);
  online = λ u x e. is.online u x (ap (λ (f : ℤ → Option Ptr). f u) (sym same.chs) ∙ e);
  joined = λ u x q e m.
      let j = is.joined u x q (ap (λ (f : ℤ → Option Ptr). f u) (sym same.chs) ∙ e) m in
      (j.0, ap (λ (f : ℤ → Option Ptr). f (h.rooms q).id) same.rooms ∙ j.1);
}

SameButQueues-HasRoutines : (b c : Bucket) → SameButQueues b c → HasRoutines b → HasRoutines c
SameButQueues-HasRoutines b c same r = record {
  some_routine = ground (arith, r.some_routine, same.options);
  amount = same.amount ∙ r.amount ∙ sym (ap (λ (o : BucketOptions). o.routine_amount) same.options);
}

Matches-IsState :
    (s : State) (cs : List Bucket) (members : Members)
    → Matches s.server.buckets cs
    → IsState s members
    → IsState (record s { server = record s.server { buckets = cs } }) members
Matches-IsState s cs members m is = record {
  own = λ i c e.
      let (b, at, same) = m.each i c e in
      SameButQueues-IsBucket b c s.heap members same (is.own i b at);
  routines = λ i c e.
      let (b, at, same) = m.each i c e in SameButQueues-HasRoutines b c same (is.routines i b at);
  apart = λ i j c d k l q e f in_c in_d.
      let (b, at, same) = m.each i c e in
      let (a, there, same') = m.each j d f in
      is.apart i j b a k l q at there (ap (λ (g : ℤ → Option Ptr). g k) (sym same.rooms) ∙ in_c)
        (ap (λ (g : ℤ → Option Ptr). g l) (sym same'.rooms) ∙ in_d);
  sized = is.sized ∙ sym m.same_length;
  some_bucket = is.some_bucket;
}

set-Matches-each :
    (bs : List Bucket) (i : ℕ) (b c : Bucket)
    → get_elem? bs i ≡ some b
    → SameButQueues b c
    → (j : ℕ) (d : Bucket) → get_elem? (set bs i c) j ≡ some d
    → (a : Bucket) × (get_elem? bs j ≡ some a) × SameButQueues a d
set-Matches-each [] i b c at same j d e = cc (at)
set-Matches-each (x ∷ bs) zero b c at same zero d e =
    let eq : c ≡ d = cc in (b, at, subst (λ (y : Bucket). SameButQueues b y) eq same)
set-Matches-each (x ∷ bs) zero b c at same (suc j) d e = (d, e, SameButQueues-refl d)
set-Matches-each (x ∷ bs) (suc i) b c at same zero d e =
    let eq : x ≡ d = cc in
    (x, refl, subst (λ (y : Bucket). SameButQueues x y) eq (SameButQueues-refl x))
set-Matches-each (x ∷ bs) (suc i) b c at same (suc j) d e = set-Matches-each bs i b c at same j d e

-- A broadcast in one bucket keeps the invariant.
pub broadcast_room-IsState :
    (req : PushRoomMsgRequest) (i : ℕ) (b c : Bucket) (s : State) (members : Members)
    → get_elem? s.server.buckets i ≡ some b
    → broadcast_room req b ≡ done c
    → IsState s members
    → IsState (with_bucket s i c s.heap) members
broadcast_room-IsState req i b c s members at ran is =
    Matches-IsState s (set s.server.buckets i c) members
      (record {
        same_length = length-set s.server.buckets i c;
        each =
            set-Matches-each s.server.buckets i b c at (broadcast_room-SameButQueues req b c ran);
      })
      is
