-- ===== src/Connect/System/Reachable.antt =====
-- Every state that a connect server reaches by the steps of Step keeps the invariant, and what follows from that.
use zhibo.Prelude.{
  ℕ, ◌<◌, ◌%◌, ◌^◌, ℤ, Bytes, Option, none, some, List, ◌∷◌, ◌≡◌, ◌≢◌, refl, sym, ap, ◌∙◌, arith,
  Bool, true, false, ◌==◌, ==_iff, length, get_elem?, get_elem?-lt, set, if◌then◌else◌, Bool-cases,
  inl, inr, has, itoa,
}
use mathlib.Core.Path.{subst}
use native.Mathlib.Nat.{mod-lt}
use zhibo.Proto.{PushRoomMsgRequest}
use zhibo.Connect.Heap.{Ptr, Heap, offer}
use zhibo.Connect.Bucket
use zhibo.Connect.Bucket.{
  Bucket, BucketOptions, Outcome, done, waits, panics, delete_channel, push_room_round,
}
use zhibo.Connect.Bucket.Invariant.{Members, IsBucket}
use zhibo.Connect.Bucket.Put.{after_put, put-IsBucket}
use zhibo.Connect.Bucket.Routines.{members_of, push_room_round-members}
use zhibo.Connect.Server.{Server, State, bucket, index, at_index}
use zhibo.Connect.System.{
  IsFresh, with_bucket, Step, join, leave, push_one, broadcast, deliver, Reach, start, later,
  IsState,
}
use zhibo.Connect.System.Effect.{done-injective}
use zhibo.Connect.System.Leaves.{delete_channel-Deleted}
use zhibo.Connect.System.Joins.{OtherUsers, put-PutEffect}
use zhibo.Connect.System.Replaced.{SameElsewhere, with_bucket-IsState}
use zhibo.Connect.System.Quiet.{push_single_msg-IsState, push_room_round-IsState}
use zhibo.Connect.System.Queued.{broadcast_room-IsState}
use zhibo.Connect.System.Start.{run, run-IsState}

at_index-done :
    (hash : Bytes → ℕ → ℕ) (j : ℕ) (o : Option Bucket) (i : ℕ) (b : Bucket)
    → at_index hash j o ≡ done (i, b)
    → (j ≡ i) × (o ≡ some b)
unfolding at_index
at_index-done hash j none i b e = cc (e)
at_index-done hash j (some c) i b e =
    let same = done-injective e in
    (ap (λ (p : ℕ × Bucket). p.0) same, ap (λ (p : ℕ × Bucket). some p.1) same)

found_in :
    (hash : Bytes → ℕ → ℕ) (t : Bool) (j : ℕ) (bs : List Bucket) (i : ℕ) (b : Bucket)
    → (if t then panics else at_index hash j (get_elem? bs j)) ≡ done (i, b)
    → get_elem? bs i ≡ some b
found_in hash true j bs i b e = cc (e)
found_in hash false j bs i b e =
    let (same, at) = at_index-done hash j (get_elem? bs j) i b e in
    ap (λ (k : ℕ). get_elem? bs k) (sym same) ∙ at

-- The bucket that is found stands at the index that is given with it.
pub bucket-get :
    (hash : Bytes → ℕ → ℕ) (uid : ℤ) (s : Server) (i : ℕ) (b : Bucket)
    → bucket hash uid s ≡ done (i, b)
    → get_elem? s.buckets i ≡ some b
unfolding bucket
bucket-get hash uid s i b e = found_in hash (s.bucket_idx == 0) (index hash uid s) s.buckets i b e

join-SameElsewhere :
    (s : State) (ch : Ptr) (i : ℕ) (g : Heap)
    → IsFresh s ch
    → OtherUsers ch s.heap g
    → SameElsewhere s i g
join-SameElsewhere s ch i g fresh others j c u x ne old e = elim (Bool-cases (x == ch)) [
  | inl same ↦ absurd (fresh.unknown j c u old (e ∙ ap some ((==_iff x ch).0 same)))
  | inr other ↦ others x other
]

leave-IsState :
    (ch : Ptr) (i : ℕ) (b b' : Bucket) (h : Heap) (s : State) (members : Members)
    → IsState s members
    → get_elem? s.server.buckets i ≡ some b
    → delete_channel ch b s.heap ≡ done (b', h)
    → (members' : Members) × IsState (with_bucket s i b' h) members'
leave-IsState ch i b b' h s members is at ran =
    let d = delete_channel-Deleted b s.heap members (is.own i b at) ch in
    let same = done-injective (sym d.ran ∙ ran) in
    (
      d.members',
      subst (λ (p : Bucket × Heap). IsState (with_bucket s i p.0 p.1) d.members') same
          (with_bucket-IsState s members d.members' i b d.b' d.h' is at d.own d.effect
            (λ j c u x ne old e. d.users x)),
    )

module _ (hash : Bytes → ℕ → ℕ) where
  -- Each step keeps the invariant.
  pub Step-IsState :
      {s t : State} (members : Members)
      → Step hash s t
      → IsState s members
      → (members' : Members) × IsState t members'
  Step-IsState {s} members (join uid rid ch i b found fresh) is =
      let at = bucket-get hash uid s.server i b found in
      let own = is.own i b at in
      let unused = λ (u : ℤ). fresh.unknown i b u at in
      let (effect, others) = put-PutEffect b s.heap members uid rid ch own fresh.unplaced unused in
      (
        after_put rid ch b s.heap members,
        with_bucket-IsState s members (after_put rid ch b s.heap members) i b
            (Bucket.put uid rid ch b s.heap).0 (Bucket.put uid rid ch b s.heap).1 is at
            (put-IsBucket b s.heap members uid rid ch own fresh.unplaced unused).0 effect
            (join-SameElsewhere s ch i (Bucket.put uid rid ch b s.heap).1 fresh others),
      )
  Step-IsState {s} members (leave ch i b b' h found ran) is =
      leave-IsState ch i b b' h s members is
        (bucket-get hash (s.heap.channels ch).user_id s.server i b found) ran
  Step-IsState {s} members (push_one req reply answer t ran) is =
      (members, push_single_msg-IsState hash req reply answer s t members ran is)
  Step-IsState {s} members (broadcast req i b c at ran) is =
      (members, broadcast_room-IsState req i b c s members at ran is)
  Step-IsState {s} members (deliver fuel i j b b' h at ran) is =
      (members, push_room_round-IsState fuel i j b b' h s members at ran is)

  Reach-kept :
      {s t : State} (members : Members)
      → Reach hash s t
      → IsState s members
      → (members' : Members) × IsState t members'
  Reach-kept members start is = (members, is)
  Reach-kept members (later reach step) is =
      let (members', is') = Reach-kept members reach is in Step-IsState members' step is'

  pub bucket-total :
      (uid : ℤ) (s : Server)
      → s.bucket_idx ≡ length s.buckets
      → 0 < s.bucket_idx
      → (i : ℕ) × (b : Bucket) × (bucket hash uid s ≡ done (i, b))
        × (get_elem? s.buckets i ≡ some b)
  unfolding bucket index at_index
  bucket-total uid s sized positive =
      let i = index hash uid s in
      let below : i < length s.buckets =
        omega (arith, mod-lt (hash (itoa uid) (length (itoa uid) % 2 ^ 32)) positive) in
      let (b, at) = get_elem?-lt s.buckets i below in
      let some_bucket : (s.bucket_idx == 0) ≡ false = ground arith in
      (i, b, rw some_bucket (ap (at_index hash i) at), at)

-- A channel whose Room is not the bucket's room is none of the room's members.
not_member :
    (h : Heap) (members : Members) (b : Bucket)
    → IsBucket b h members
    → (k : ℤ) (y : Ptr) (o : Option Ptr) → b.rooms k ≡ o
    → ((r : Ptr) → (h.channels y).room ≡ some r → b.rooms k ≢ some r)
    → has y (members_of members o) ≡ false
not_member h members b own k y none e away = refl
not_member h members b own k y (some r) e away = elim (Bool-cases (has y (members r))) [
  | inl member ↦ absurd (away r ((own.at_room k r e).inside y member) e)
  | inr outside ↦ outside
]

-- What the server was started with: at least one bucket and one routine each.
module _ (hash : Bytes → ℕ → ℕ) (cpu_num : ℕ) (options : BucketOptions) (broadcast_size : ℕ)
    (some_cpu : 0 < cpu_num) (few : cpu_num < 2 ^ 32) (positive : 0 < options.routine_amount)
    {s : State} (reach : Reach hash (run cpu_num options broadcast_size) s) where
  -- A new server keeps the invariant, for some family of members, in every state that it reaches by
  -- these steps, in any order: Put of a channel that has no Room and that no bucket has for a user,
  -- DeleteChannel of any channel, PushSingleMsg, BroadcastRoom in one bucket, and a round of a push
  -- goroutine, where each of them runs as a whole. A further join of a channel is not among them.
  pub Reach-IsState : (members : Members) × IsState s members
  Reach-IsState =
      Reach-kept hash _ reach (run-IsState cpu_num options broadcast_size some_cpu few positive)

  -- In such a state the bucket of every channel's user is found, and its DeleteChannel of the channel
  -- returns.
  pub Reach-leave :
      (ch : Ptr)
      → (i : ℕ) × (b : Bucket) × (b' : Bucket) × (h : Heap) × (bucket hash
            (s.heap.channels ch).user_id
            s.server
          ≡ done (i, b))
        × (delete_channel ch b s.heap ≡ done (b', h))
  Reach-leave ch =
      let (members, is) = Reach-IsState in
      let (i, b, found, at) =
        bucket-total hash (s.heap.channels ch).user_id s.server is.sized is.some_bucket in
      let d = delete_channel-Deleted b s.heap members (is.own i b at) ch in
      (i, b, d.b', d.h', found, d.ran)

  -- In every state that a new server reaches by the steps of Step, in which a channel joins only while
  -- it has no Room and no bucket has it for a user, and in which a Put, a DeleteChannel and a round of
  -- a push goroutine each run as a whole, a request at the head of a queue is delivered by the next
  -- round of its goroutine, which is one of these steps: with enough fuel the round ends,
  -- having offered the message once to the channel of each user that the bucket has in the request's
  -- room, and having left every channel alone whose Room is not the room that the bucket has for the
  -- request.
  pub Reach-deliver :
      (i j : ℕ) (b : Bucket) (req : PushRoomMsgRequest) (rest : List PushRoomMsgRequest)
      → get_elem? s.server.buckets i ≡ some b
      → get_elem? b.routines j ≡ some (req ∷ rest)
      → (fuel : ℕ) × (g : Heap) × (push_room_round fuel j b s.heap
          ≡ done (record b { routines = set b.routines j rest }, some g))
        × ((u : ℤ) (x r : Ptr)
            → b.chs u ≡ some x
            → (s.heap.channels x).room ≡ some r
            → (s.heap.rooms r).id ≡ req.room_id
            → g.channels x ≡ offer req.msg (s.heap.channels x))
        × ((y : Ptr)
            → ((r : Ptr) → (s.heap.channels y).room ≡ some r → b.rooms req.room_id ≢ some r)
            → g.channels y ≡ s.heap.channels y)
  Reach-deliver i j b req rest at head =
      let (members, is) = Reach-IsState in
      let own = is.own i b at in
      let xs = members_of members (b.rooms req.room_id) in
      let (g, ran, sent, _) =
        push_room_round-members b s.heap members (length xs) j req rest own head (omega arith) in
      (
        length xs,
        g,
        ran,
        λ u x r e room named.
            let joined = own.joined u x r e room in
            let found = ap b.rooms (sym named) ∙ joined.1 in
            sent x
            ∙ ap (λ (t : Bool). if t then offer req.msg (s.heap.channels x) else s.heap.channels x)
                (ap (λ (o : Option Ptr). has x (members_of members o)) found ∙ joined.0),
        λ y away.
            sent y
            ∙ ap (λ (t : Bool). if t then offer req.msg (s.heap.channels y) else s.heap.channels y)
                (not_member s.heap members b own req.room_id y (b.rooms req.room_id) refl away),
      )
