-- ===== src/Tests/Channels.antt =====
-- Three messages for one user to two push channels, and the goroutine of the first channel, with the
-- clients that count their calls.
use zhibo.Prelude.{ℕ, ◌≤◌, pos, codes, some, List, [], ◌∷◌, ◌≡◌, refl, get_elem?}
use zhibo.Proto.{RedisMsg, op_single_send}
use zhibo.Connect.Bucket.{done}
use zhibo.Logic.Exec.{ok}
use zhibo.Task.{PushParams, member, message, push, push_single_to_connect}
use zhibo.Task.Queue.{send_params, process_single_push}
use zhibo.Task.Running.{Event, take, work, step, run}
use zhibo.Task.Running.Fifo.{run-channel}
use zhibo.Task.Running.Sent.{sent_to, worked}
use zhibo.Tests.Accounts.{counting}

abbrev to_user : ℕ → RedisMsg
to_user n = record {
  op = op_single_send;
  server_id = codes "a";
  room_id = pos 0;
  user_id = pos n;
  msg = codes "hi";
  count = pos 0;
  room_user_info = [];
}

abbrev entry : ℕ → PushParams
entry n = record { server_id = codes "a"; user_id = pos n; msg = codes "hi"; room_id = pos 0 }

abbrev events : List Event
events = take [] 0 (to_user 1) ∷ take [] 3 (to_user 2) ∷ take [] 2 (to_user 3) ∷ work [] 0 ∷ []

two_channels-run :
    run counting (λ m. ok []) (λ m. ok []) 2 50 events ([] ∷ [] ∷ [], 0)
    ≡ done ((entry 3 ∷ []) ∷ (entry 2 ∷ []) ∷ [], 1)
unfolding run step push send_params process_single_push push_single_to_connect member message
two_channels-run = refl

run-channel_example :
    (get_elem? ((entry 3 ∷ []) ∷ (entry 2 ∷ []) ∷ []) 0 ≡ some (entry 3 ∷ [])) × (1 ≤ 2)
unfolding sent_to worked
run-channel_example =
    run-channel counting (λ m. ok []) (λ m. ok []) 2 50 events 0 [] ([] ∷ [] ∷ [])
      ((entry 3 ∷ []) ∷ (entry 2 ∷ []) ∷ []) 0 1 refl two_channels-run
