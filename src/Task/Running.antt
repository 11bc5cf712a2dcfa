-- ===== src/Task/Running.antt =====
-- The task layer while it runs: the loop of task/subscribe.go, which gives the messages of the queue to
-- Push one after the other, and the goroutines of task/push.go over the push channels, in any order.
pub mod Sent
pub mod Fifo
use zhibo.Prelude.{
  ℕ, zero, suc, ◌%◌, ◌==◌, int_eq, pos, Bytes, Bool, Option, none, some, List, [], ◌∷◌,
  if◌then◌else◌, ◌&&◌,
}
use zhibo.Proto.{RedisMsg, RedisRoomInfo, RedisRoomCountMsg, op_single_send}
use zhibo.Connect.Bucket.{Outcome, done, waits, panics}
use zhibo.Logic.Exec.{Result}
use zhibo.Task.{PushParams, ConnectClients, push}
use zhibo.Task.Queue.{Queues, send_params, process_single_push, with_queues}

-- The subscriber takes a message, with what rand.Int() and tools.GetSnowflakeId() give then; or the
-- goroutine of a push channel takes its next entry.
pub data Event : Type 0 where
  take : Bytes → ℕ → RedisMsg → Event
  work : Bytes → ℕ → Event

module _ {W : Type 0} where
  abbrev pub and_world : W → Outcome Queues → Outcome (Queues × W)
  and_world w (done qs) = done (qs, w)
  and_world w waits = waits
  and_world w panics = panics

  abbrev pub and_run :
      (Queues × W → Outcome (Queues × W)) → Outcome (Queues × W) → Outcome (Queues × W)
  and_run rest (done t) = rest t
  and_run rest waits = waits
  and_run rest panics = panics

module _ {W : Type 0} (clients : ConnectClients W)
    (marshal_count : RedisRoomCountMsg → Result Bytes) (marshal_info : RedisRoomInfo → Result Bytes)
    (push_chan size : ℕ) where
  -- The channel that Push sends to, where the message is for one user.
  abbrev pub send_one : ℕ → Queues → Option PushParams × W → Outcome (Queues × W)
  send_one rand qs (none, w) = done (qs, w)
  send_one rand qs (some p, w) = and_world w (send_params rand push_chan size p qs)

  unfoldable pub step : Event → Queues × W → Outcome (Queues × W)
  unfolding push send_params process_single_push
  step (take seq rand m) (qs, w) =
      send_one rand qs (push clients marshal_count marshal_info seq m w)
  step (work seq i) (qs, w) = process_single_push clients seq i qs w

  unfoldable pub run : List Event → Queues × W → Outcome (Queues × W)
  unfolding step
  run [] t = done t
  run (e ∷ es) t = and_run (run es) (step e t)
