-- ===== src/Task/Running/Fifo.antt =====
-- What the push channels of task/push.go hold after any events.
use zhibo.Prelude.{
  ℕ, suc, ◌==◌, Bytes, Bool, true, false, Option, none, some, List, [], ◌∷◌, ◌++◌, if◌then◌else◌,
  ◌≤◌, ◌≡◌, refl, sym, ap, ◌∙◌, arith, drop, get_elem?, set, get_elem?-set_found,
  get_elem?-set_other, length,
}
use mathlib.Core.List.{append-nil, append_assoc}
use zhibo.Proto.{RedisRoomInfo, RedisRoomCountMsg}
use zhibo.Connect.Bucket.{Outcome, done, waits, panics}
use zhibo.Logic.Exec.{Result}
use zhibo.Task.{PushParams, ConnectClients, push_single_to_connect}
use zhibo.Task.Queue.{Queues, process_head, process_single_push, with_queues}
use zhibo.Task.Running.{Event, take, work, step, and_run, run}
use zhibo.Task.Running.Sent.{added, sent_to, worked, take-added}

-- What one event leaves of a channel that held `q`: everything, or all but the head.
record Kept (b : Bool) (q : List PushParams) (qs' : Queues) (i : ℕ) : Type 0 where
  left : List PushParams
  there : get_elem? qs' i ≡ some left
  behind :
      (rest : List PushParams) (n : ℕ)
      → drop (if b then suc n else n) (q ++ rest) ≡ drop n (left ++ rest)
  enough :
      (rest : List PushParams) (n : ℕ)
      → n ≤ length (left ++ rest)
      → (if b then suc n else n) ≤ length (q ++ rest)

with_queues-eq :
    {W : Type 0} (o : Outcome W) (qs qs' : Queues) (w' : W)
    → with_queues qs o ≡ done (qs', w')
    → qs ≡ qs'
with_queues-eq (done w) qs qs' w' e = cc (e)
with_queues-eq waits qs qs' w' e = cc (e)
with_queues-eq panics qs qs' w' e = cc (e)

module _ {W : Type 0} (clients : ConnectClients W) where
  work-head :
      (seq : Bytes) (j i : ℕ) (q : List PushParams) (qs qs' : Queues) (w w' : W)
      (o : Option (List PushParams))
      → get_elem? qs j ≡ o
      → get_elem? qs i ≡ some q
      → process_head clients seq j qs o w ≡ done (qs', w')
      → (b : Bool) → (j == i) ≡ b
      → Kept b q qs' i
  work-head seq j i q qs qs' w w' none at here e b t = cc (e)
  work-head seq j i q qs qs' w w' (some []) at here e b t = cc (e)
  work-head seq j i q qs qs' w w' (some (p ∷ ps)) at here e false apart =
      let put = with_queues-eq (push_single_to_connect clients seq p w) (set qs j ps) qs' w' e in
      record {
        left = q;
        there = ap (λ ys. get_elem? ys i) (sym put) ∙ get_elem?-set_other qs j i ps apart ∙ here;
        behind = λ rest n. refl;
        enough = λ rest n some_left. some_left;
      }
  work-head seq j i q qs qs' w w' (some (p ∷ ps)) at here e true same =
      let put = with_queues-eq (push_single_to_connect clients seq p w) (set qs j ps) qs' w' e in
      let eq : j ≡ i = ground (arith, same) in
      let both : some q ≡ some (p ∷ ps) = sym here ∙ ap (get_elem? qs) (sym eq) ∙ at in
      let whole : q ≡ p ∷ ps = cc (both) in
      record {
        left = ps;
        there =
            ap (λ ys. get_elem? ys i) (sym put)
            ∙ ap (get_elem? (set qs j ps)) (sym eq)
            ∙ get_elem?-set_found qs j (p ∷ ps) ps at;
        behind = λ rest n. ap (λ xs. drop (suc n) (xs ++ rest)) whole;
        enough = λ rest n some_left. omega (arith, some_left, ap (λ xs. length (xs ++ rest)) whole);
      }

and_run-done :
    {W : Type 0} (rest : Queues × W → Outcome (Queues × W)) (o : Outcome (Queues × W))
    (t : Queues × W)
    → and_run rest o ≡ done t
    → (u : Queues × W) × (o ≡ done u) × (rest u ≡ done t)
and_run-done rest (done u) t e = (u, refl, e)
and_run-done rest waits t e = cc (e)
and_run-done rest panics t e = cc (e)

module _ {W : Type 0} (clients : ConnectClients W)
    (marshal_count : RedisRoomCountMsg → Result Bytes) (marshal_info : RedisRoomInfo → Result Bytes)
    (push_chan size : ℕ) where
  -- After any events that the task layer got through, a push channel that held some entries holds
  -- these and then all that the messages for one user among the events sent to it, in their order,
  -- less as many from the front as its goroutine took; and it took no more than there were. So each
  -- entry is taken once, in the order of the queue, and none is lost.
  pub run-channel :
      (es : List Event) (i : ℕ) (q : List PushParams) (qs qs' : Queues) (w w' : W)
      → get_elem? qs i ≡ some q
      → run clients marshal_count marshal_info push_chan size es (qs, w) ≡ done (qs', w')
      → (get_elem? qs' i ≡ some (drop (worked i es) (q ++ sent_to push_chan i es)))
        × (worked i es ≤ length (q ++ sent_to push_chan i es))
  unfolding run worked sent_to step process_single_push
  run-channel [] i q qs qs' w w' here e =
      let same : qs ≡ qs' = cc (e) in
      (ap (λ ys. get_elem? ys i) (sym same) ∙ here ∙ ap some (sym (append-nil q)), omega arith)
  run-channel (take seq rand m ∷ es) i q qs qs' w w' here e =
      let ((qs1, w1), stepped, ran) =
        and_run-done (run clients marshal_count marshal_info push_chan size es)
          (step clients marshal_count marshal_info push_chan size (take seq rand m) (qs, w))
          (qs', w') e in
      let found =
        take-added clients marshal_count marshal_info push_chan size seq rand m i q qs qs1 w w1 here
          stepped in
      let (there, enough) =
        run-channel es i (q ++ added push_chan i rand m) qs1 qs' w1 w' found ran in
      let same = append_assoc q (added push_chan i rand m) (sent_to push_chan i es) in
      (there ∙ ap (λ xs. some (drop (worked i es) xs)) same, omega (arith, enough, ap length same))
  run-channel (work seq j ∷ es) i q qs qs' w w' here e =
      let ((qs1, w1), stepped, ran) =
        and_run-done (run clients marshal_count marshal_info push_chan size es)
          (step clients marshal_count marshal_info push_chan size (work seq j) (qs, w)) (qs', w')
          e in
      let kept =
        work-head clients seq j i q qs qs1 w w1 (get_elem? qs j) refl here stepped (j == i) refl in
      let (there, enough) = run-channel es i kept.left qs1 qs' w1 w' kept.there ran in
      (
        there ∙ ap some (sym (kept.behind (sent_to push_chan i es) (worked i es))),
        kept.enough (sent_to push_chan i es) (worked i es) enough,
      )
