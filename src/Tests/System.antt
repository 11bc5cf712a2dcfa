-- ===== src/Tests/System.antt =====
-- A server of one bucket that a user joins and to whose room a message is pushed.
use zhibo.Prelude.{
  ℕ, ℤ, pos, none, some, sym, ap, ◌∙◌, [], ◌∷◌, ◌≡◌, ◌≢◌, ◌⊎◌, refl, arith, Bool, true, false,
  int_eq, codes, set, itoa, update, update_key,
}
use zhibo.Proto.{PushMsgRequest, SuccessReply}
use zhibo.Connect.Heap.{Ptr, Heap, offer}
use zhibo.Connect.Room
use zhibo.Connect.Bucket
use zhibo.Connect.Bucket.{
  Bucket, Outcome, done, new_bucket, register, register_when, find_room, open_room, set_user,
  set_room, enter_room, broadcast_room, push_to, enqueue, push_room_round, leave_room, delete_known,
  delete_found,
}
use zhibo.Connect.Bucket.Invariant.{Members}
use zhibo.Connect.Server.{State, new_server, bucket, index, at_index}
use zhibo.Connect.Session.{read_pump, close, next, stop}
use zhibo.Connect.System.{IsFresh, with_bucket, join, broadcast, Reach, start, later, IsState}
use zhibo.Connect.System.Start.{run, run_server, empty_heap, get_elem?-replicate}
use zhibo.Connect.System.Reachable.{Reach-IsState, Reach-deliver}
use zhibo.Connect.System.Closing.{Skipped, Closed, Reach-close, Reach-read_pump}
use zhibo.Tests.Buckets.{city, options, to_room}
use zhibo.Tests.Sessions.{logic, decode, join_request}
use zhibo.Tests.Sessions

abbrev s0 : State
s0 = run 1 options 10

abbrev new : Bucket
new = new_bucket options

abbrev joined_bucket : Bucket
joined_bucket = (Bucket.put (pos 7) (pos 5) 1 new s0.heap).0

abbrev s1 : State
s1 = with_bucket s0 0 joined_bucket (Bucket.put (pos 7) (pos 5) 1 new s0.heap).1

abbrev queued : Bucket
queued = record joined_bucket { routines = [] ∷ (to_room ∷ []) ∷ []; routines_num = 1 }

abbrev s2 : State
s2 = record s1 { server = record s1.server { buckets = queued ∷ [] } }

home : bucket city (pos 7) s0.server ≡ done (0, new)
unfolding run run_server bucket index at_index new_server itoa
home = refl

new-IsFresh : IsFresh s0 1
unfolding run empty_heap run_server new_server new_bucket
new-IsFresh = record {
  unplaced = refl;
  unknown = λ i b u e f.
      let same = get_elem?-replicate 1 i new b e in
      let none_there : none ≡ some 1 = ap (λ (x : Bucket). x.chs u) (sym same) ∙ f in
      cc (none_there);
}

pushed : broadcast_room to_room joined_bucket ≡ done queued
unfolding broadcast_room enqueue run run_server new_server empty_heap new_bucket Bucket.put register
    register_when find_room open_room set_user set_room enter_room Room.put update update_key
pushed = refl

reached : Reach city s0 s2
unfolding run
reached =
    later (later start (join (pos 7) (pos 5) 1 0 new home new-IsFresh))
      (broadcast to_room 0 joined_bucket queued refl pushed)

Reach-IsState_example : (members : Members) × IsState s2 members
Reach-IsState_example =
    Reach-IsState city 1 options 10 (omega arith) (omega arith) (omega arith) reached

Reach-deliver_example :
    (fuel : ℕ) × (g : Heap) × (push_room_round fuel 1 queued s2.heap
      ≡ done (record queued { routines = set queued.routines 1 [] }, some g))
    × ((u : ℤ) (x r : Ptr)
        → queued.chs u ≡ some x
        → (s2.heap.channels x).room ≡ some r
        → (s2.heap.rooms r).id ≡ to_room.room_id
        → g.channels x ≡ offer to_room.msg (s2.heap.channels x))
    × ((y : Ptr)
        → ((r : Ptr) → (s2.heap.channels y).room ≡ some r → queued.rooms to_room.room_id ≢ some r)
        → g.channels y ≡ s2.heap.channels y)
Reach-deliver_example =
    Reach-deliver city 1 options 10 (omega arith) (omega arith) (omega arith) reached 0 1 queued
      to_room [] refl refl

start-IsFresh : IsFresh Sessions.start 1
unfolding new_bucket new_server
start-IsFresh = record {
  unplaced = refl;
  unknown = λ i b u e f.
      let same = get_elem?-replicate 1 i new b e in
      let none_there : none ≡ some 1 = ap (λ (x : Bucket). x.chs u) (sym same) ∙ f in
      cc (none_there);
}

Reach-close_example :
    (s' : State) × (w' : ℕ) × (close city logic (codes "s1") 1 (s2, 0) ≡ stop (s', w'))
    × Reach city s0 s'
    × (Skipped 1 s2 s' 0 w' ⊎ Closed city logic 1 s2 s' 0 w')
Reach-close_example =
    Reach-close city logic (codes "s1") 1 options 10 (omega arith) (omega arith) (omega arith)
      reached 1 0 (λ req. refl)

Reach-read_pump_example :
    let result = read_pump city logic (codes "s1") decode false (some (codes "{}")) 1 (s0, 0) in
    ((false ≡ true) × (result ≡ stop (s0, 0)))
    ⊎ ((false ≡ false) × (int_eq (pos 7) (pos 0) ≡ true) × (result ≡ stop (s0, 0)))
    ⊎ ((false ≡ false)
        × (int_eq (pos 7) (pos 0) ≡ false)
        × ((c : Bool) × (i : ℕ) × (b : Bucket) × (bucket city (pos 7) s0.server ≡ done (i, b))
            × (let (b', h, error) = Bucket.put (pos 7) (pos 5) 1 b s0.heap in
                (result ≡ next c (with_bucket s0 i b' h, 0))
                × Reach city s0 (with_bucket s0 i b' h))))
Reach-read_pump_example =
    Reach-read_pump city logic (codes "s1") 1 options 10 (omega arith) (omega arith) (omega arith)
      start decode (codes "{}") join_request 1 0 refl new-IsFresh refl

abbrev to_user : PushMsgRequest
to_user = record { user_id = pos 7; msg = to_room.msg }

abbrev no_reply : SuccessReply
no_reply = record { code = pos 0; msg = [] }
