-- ===== src/Tests/Listeners.antt =====
-- Three connections to the TCP listener of config/dev, the last of which cannot be set up.
use zhibo.Prelude.{
  Bytes, codes, none, some, List, [], ◌∷◌, ◌≡◌, refl, ◌<◌, ◌%◌, str_eq, if◌then◌else◌, get_elem?,
}
use zhibo.Logic.Exec.{ok}
use zhibo.Connect.Listener.{Net, set_up, next_number, max_int, accept_tcp}
use zhibo.Connect.Listener.Numbered.{accept_tcp-numbers}
use zhibo.Tests.Clients.{dev}

-- A connection is its name; `bad` has no keep-alive. The state is what was set.
abbrev net : Net (List Bytes) Bytes Bytes Bytes
net = record {
  resolve = λ a w. (ok a, w);
  listen = λ a w. (ok a, w);
  set_keep_alive = λ k c w. (if str_eq c (codes "bad") then some (codes "closed") else none, c ∷ w);
  set_read_buffer = λ n c w. (none, w);
  set_write_buffer = λ n c w. (none, w);
}

accept_tcp-numbers_example :
    (get_elem? (ok (codes "a") ∷ ok (codes "b") ∷ ok (codes "bad") ∷ []) 1 ≡ some (ok (codes "b")))
    × (1 ≡ 1 % max_int)
    × (1 < max_int)
unfolding accept_tcp set_up next_number
accept_tcp-numbers_example =
    accept_tcp-numbers net dev.connect.connect_tcp 1
      (ok (codes "a") ∷ ok (codes "b") ∷ ok (codes "bad") ∷ []) [] (codes "b") 1 refl
