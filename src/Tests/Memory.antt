-- ===== src/Tests/Memory.antt =====
-- A Redis in memory that does as documented.
use zhibo.Prelude.{codes, Option, none, some, List, [], ◌∷◌, ◌++◌, ◌≡◌, ◌≢◌, refl}
use zhibo.Logic.Redis.{
  failed, Redis, Command, Reply, Data, status, answer, apply, apply_all, IsHealthy, multi, exec,
  get, set, del, expire, hmset, hset, hget, hget_all, hdel, incr, decr, publish,
}

-- The data, and the commands of an open transaction.
abbrev pub Db : Type 0
Db = Data × Option (List Command)

abbrev pub run : Command → Db → Reply × Db
run multi (d, none) = (status, (d, some []))
run multi (d, some q) = (failed (codes "ERR MULTI calls can not be nested"), (d, some q))
run exec (d, none) = (answer exec d, (apply exec d, none))
run exec (d, some q) = (status, (apply_all q d, none))
run (get k) (d, none) = (answer (get k) d, (apply (get k) d, none))
run (get k) (d, some q) = (status, (d, some (q ++ (get k) ∷ [])))
run (set k v n) (d, none) = (answer (set k v n) d, (apply (set k v n) d, none))
run (set k v n) (d, some q) = (status, (d, some (q ++ (set k v n) ∷ [])))
run (del k) (d, none) = (answer (del k) d, (apply (del k) d, none))
run (del k) (d, some q) = (status, (d, some (q ++ (del k) ∷ [])))
run (expire k n) (d, none) = (answer (expire k n) d, (apply (expire k n) d, none))
run (expire k n) (d, some q) = (status, (d, some (q ++ (expire k n) ∷ [])))
run (hmset k fs) (d, none) = (answer (hmset k fs) d, (apply (hmset k fs) d, none))
run (hmset k fs) (d, some q) = (status, (d, some (q ++ (hmset k fs) ∷ [])))
run (hset k f v) (d, none) = (answer (hset k f v) d, (apply (hset k f v) d, none))
run (hset k f v) (d, some q) = (status, (d, some (q ++ (hset k f v) ∷ [])))
run (hget k f) (d, none) = (answer (hget k f) d, (apply (hget k f) d, none))
run (hget k f) (d, some q) = (status, (d, some (q ++ (hget k f) ∷ [])))
run (hget_all k) (d, none) = (answer (hget_all k) d, (apply (hget_all k) d, none))
run (hget_all k) (d, some q) = (status, (d, some (q ++ (hget_all k) ∷ [])))
run (hdel k f) (d, none) = (answer (hdel k f) d, (apply (hdel k f) d, none))
run (hdel k f) (d, some q) = (status, (d, some (q ++ (hdel k f) ∷ [])))
run (incr k) (d, none) = (answer (incr k) d, (apply (incr k) d, none))
run (incr k) (d, some q) = (status, (d, some (q ++ (incr k) ∷ [])))
run (decr k) (d, none) = (answer (decr k) d, (apply (decr k) d, none))
run (decr k) (d, some q) = (status, (d, some (q ++ (decr k) ∷ [])))
run (publish c m) (d, none) = (answer (publish c m) d, (apply (publish c m) d, none))
run (publish c m) (d, some q) = (status, (d, some (q ++ (publish c m) ∷ [])))

abbrev pub memory : Redis
memory = record { Db = Db; run = run }

pub memory-answers : (c : Command) (db : Db) → db.1 ≡ none → (run c db).0 ≡ answer c db.0
unfolding answer
memory-answers c (d, some q) e = cc
memory-answers multi (d, none) e = refl
memory-answers exec (d, none) e = refl
memory-answers (get k) (d, none) e = refl
memory-answers (set k v n) (d, none) e = refl
memory-answers (del k) (d, none) e = refl
memory-answers (expire k n) (d, none) e = refl
memory-answers (hmset k fs) (d, none) e = refl
memory-answers (hset k f v) (d, none) e = refl
memory-answers (hget k f) (d, none) e = refl
memory-answers (hget_all k) (d, none) e = refl
memory-answers (hdel k f) (d, none) e = refl
memory-answers (incr k) (d, none) e = refl
memory-answers (decr k) (d, none) e = refl
memory-answers (publish c m) (d, none) e = refl

pub memory-applies : (c : Command) (db : Db) → db.1 ≡ none → (run c db).1.0 ≡ apply c db.0
unfolding apply
memory-applies c (d, some q) e = cc
memory-applies multi (d, none) e = refl
memory-applies exec (d, none) e = refl
memory-applies (get k) (d, none) e = refl
memory-applies (set k v n) (d, none) e = refl
memory-applies (del k) (d, none) e = refl
memory-applies (expire k n) (d, none) e = refl
memory-applies (hmset k fs) (d, none) e = refl
memory-applies (hset k f v) (d, none) e = refl
memory-applies (hget k f) (d, none) e = refl
memory-applies (hget_all k) (d, none) e = refl
memory-applies (hdel k f) (d, none) e = refl
memory-applies (incr k) (d, none) e = refl
memory-applies (decr k) (d, none) e = refl
memory-applies (publish c m) (d, none) e = refl

pub memory-stays : (c : Command) (db : Db) → db.1 ≡ none → c ≢ multi → (run c db).1.1 ≡ none
memory-stays c (d, some q) e ne = cc
memory-stays multi (d, none) e ne = absurd (ne refl)
memory-stays exec (d, none) e ne = refl
memory-stays (get k) (d, none) e ne = refl
memory-stays (set k v n) (d, none) e ne = refl
memory-stays (del k) (d, none) e ne = refl
memory-stays (expire k n) (d, none) e ne = refl
memory-stays (hmset k fs) (d, none) e ne = refl
memory-stays (hset k f v) (d, none) e ne = refl
memory-stays (hget k f) (d, none) e ne = refl
memory-stays (hget_all k) (d, none) e ne = refl
memory-stays (hdel k f) (d, none) e ne = refl
memory-stays (incr k) (d, none) e ne = refl
memory-stays (decr k) (d, none) e ne = refl
memory-stays (publish c m) (d, none) e ne = refl

pub memory-begins : (db : Db) → db.1 ≡ none → (run multi db).1.1 ≡ some []
memory-begins (d, none) e = refl
memory-begins (d, some q) e = cc

pub memory-queues :
    (c : Command) (db : Db) (q : List Command)
    → db.1 ≡ some q
    → c ≢ exec
    → c ≢ multi
    → ((run c db).1.0 ≡ db.0) × ((run c db).1.1 ≡ some (q ++ c ∷ []))
memory-queues c (d, none) q e ne nm = cc
memory-queues multi (d, some p) q e ne nm = absurd (nm refl)
memory-queues exec (d, some p) q e ne nm = absurd (ne refl)
memory-queues (get k) (d, some p) q e ne nm = (refl, cc)
memory-queues (set k v n) (d, some p) q e ne nm = (refl, cc)
memory-queues (del k) (d, some p) q e ne nm = (refl, cc)
memory-queues (expire k n) (d, some p) q e ne nm = (refl, cc)
memory-queues (hmset k fs) (d, some p) q e ne nm = (refl, cc)
memory-queues (hset k f v) (d, some p) q e ne nm = (refl, cc)
memory-queues (hget k f) (d, some p) q e ne nm = (refl, cc)
memory-queues (hget_all k) (d, some p) q e ne nm = (refl, cc)
memory-queues (hdel k f) (d, some p) q e ne nm = (refl, cc)
memory-queues (incr k) (d, some p) q e ne nm = (refl, cc)
memory-queues (decr k) (d, some p) q e ne nm = (refl, cc)
memory-queues (publish c m) (d, some p) q e ne nm = (refl, cc)

pub memory-commits :
    (db : Db) (q : List Command)
    → db.1 ≡ some q
    → ((run exec db).0 ≡ status)
      × ((run exec db).1.0 ≡ apply_all q db.0)
      × ((run exec db).1.1 ≡ none)
memory-commits (d, none) q e = cc
memory-commits (d, some p) q e = (refl, cc, refl)

abbrev pub healthy : IsHealthy memory
healthy = record {
  view = λ db. db.0;
  queued = λ db. db.1;
  answers = memory-answers;
  applies = memory-applies;
  stays = memory-stays;
  begins = memory-begins;
  queues = memory-queues;
  commits = memory-commits;
}
