-- ===== src/Connect/System/Start.antt =====
-- The server as connect/connect.go starts it: Run and RunTcp make the buckets and the server alike.
use zhibo.Prelude.{
  refl, ℕ, zero, suc, ◌<◌, ◌^◌, pos, none, some, [], ◌≡◌, sym, ap, ◌∙◌, arith, length-replicate,
  get_elem?, replicate,
}
use mathlib.Core.Path.{subst}
use zhibo.Connect.Heap.{Heap, new_channel}
use zhibo.Connect.Room.{new_room}
use zhibo.Connect.Bucket.{Bucket, BucketOptions, new_bucket}
use zhibo.Connect.Bucket.Invariant.{Members, IsBucket}
use zhibo.Connect.Bucket.Routines.{HasRoutines}
use zhibo.Connect.Server.{Server, State, new_server}
use zhibo.Connect.System.{IsState}

-- Before any connection: every channel is a new one of this buffer size, and no room was made.
unfoldable pub empty_heap : ℕ → Heap
empty_heap size = record {
  channels = λ _. new_channel size;
  rooms = λ _. new_room (pos 0);
  fresh_room = 0;
}

-- `cpu_num` new buckets, and the server over them.
unfoldable pub run_server : ℕ → BucketOptions → Server
unfolding new_server new_bucket
run_server cpu_num options = new_server (replicate cpu_num (new_bucket options))

unfoldable pub run : ℕ → BucketOptions → ℕ → State
unfolding run_server empty_heap
run cpu_num options broadcast_size = record {
  server = run_server cpu_num options;
  heap = empty_heap broadcast_size;
}

-- RunTcp writes the same out once more.
unfoldable run_tcp_server : ℕ → BucketOptions → Server
unfolding new_server new_bucket
run_tcp_server cpu_num options = new_server (replicate cpu_num (new_bucket options))

unfoldable run_tcp : ℕ → BucketOptions → ℕ → State
unfolding run_tcp_server empty_heap
run_tcp cpu_num options broadcast_size = record {
  server = run_tcp_server cpu_num options;
  heap = empty_heap broadcast_size;
}

-- So what a TCP server reaches is what a websocket server reaches.
run_tcp-run :
    (cpu_num : ℕ) (options : BucketOptions) (broadcast_size : ℕ)
    → run_tcp cpu_num options broadcast_size ≡ run cpu_num options broadcast_size
unfolding run run_tcp run_server run_tcp_server
run_tcp-run cpu_num options broadcast_size = refl

abbrev pub nobody : Members
nobody r = []

new_bucket-IsBucket : (options : BucketOptions) (h : Heap) → IsBucket (new_bucket options) h nobody
unfolding new_bucket
new_bucket-IsBucket options h = record {
  at_room = λ k q e. cc;
  online = λ u x e. cc;
  joined = λ u x q e m. cc;
}

new_bucket-HasRoutines :
    (options : BucketOptions) → 0 < options.routine_amount → HasRoutines (new_bucket options)
unfolding new_bucket
new_bucket-HasRoutines options positive = record {
  some_routine = positive;
  amount = length-replicate options.routine_amount [];
}

pub get_elem?-replicate {ℓ} :
    {A : Type ℓ} (n i : ℕ) (x a : A) → get_elem? (replicate n x) i ≡ some a → a ≡ x
get_elem?-replicate zero i x a e = cc
get_elem?-replicate (suc n) zero x a e = cc
get_elem?-replicate (suc n) (suc i) x a e = get_elem?-replicate n i x a e

-- A new server satisfies the invariant.
pub run-IsState :
    (cpu_num : ℕ) (options : BucketOptions) (broadcast_size : ℕ)
    → 0 < cpu_num
    → cpu_num < 2 ^ 32
    → 0 < options.routine_amount
    → IsState (run cpu_num options broadcast_size) nobody
unfolding run run_server new_server
run-IsState cpu_num options size some_cpu few positive =
    let new = new_bucket options in
    let amount = length-replicate cpu_num new in
    record {
      own = λ i b e.
          subst (λ (x : Bucket). IsBucket x (empty_heap size) nobody)
            (sym (get_elem?-replicate cpu_num i new b e))
            (new_bucket-IsBucket options (empty_heap size));
      routines = λ i b e.
          subst (λ (x : Bucket). HasRoutines x) (sym (get_elem?-replicate cpu_num i new b e))
            (new_bucket-HasRoutines options positive);
      apart = λ i j b c k l q e f in_b in_c.
          let none_there : none ≡ some q =
            ap (λ (x : Bucket). x.rooms k) (sym (get_elem?-replicate cpu_num i new b e)) ∙ in_b in
          cc (none_there);
      sized = omega (arith, amount);
      some_bucket = omega (arith, amount);
    }
