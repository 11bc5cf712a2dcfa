-- ===== src/Connect/Session/Whole.antt =====
-- The readers as a whole, with the deferred function after them: readPump of connect/server.go with
-- its loop over what ReadMessage gives, and readDataFromTcp of connect/server_tcp.go.
pub mod Ended
pub mod Rejoined
pub mod Sessions
pub mod Sockets
use zhibo.Prelude.{ℕ, ℤ, Bytes, Bool, Option, none, some, List, [], ◌∷◌}
use zhibo.Proto.{ConnectRequest, SendTcp}
use zhibo.Connect.Heap.{Ptr}
use zhibo.Connect.Server.{State}
use zhibo.Connect.Session.{LogicClient, Turn, next, stop, wait, crash, exit, read_pump, close}
use zhibo.Connect.Session.Reader.{read_data_from_tcp}

module _ {W : Type 0} (hash : Bytes → ℕ → ℕ) (client : LogicClient W) (server_id : Bytes)
    (ch : Ptr) where
  -- A panic runs the deferred function too, and then ends the process all the same.
  abbrev pub and_close : Turn (State × W) → Turn (State × W)
  and_close (next closed t) = next closed t
  and_close (stop t) = close hash client server_id ch t
  and_close wait = wait
  and_close crash = crash
  and_close exit = exit

  -- readDataFromTcp with its deferred function.
  unfoldable pub read_data_all :
      (Bytes → Option SendTcp) → Bool → List Bytes → State × W → Turn (State × W)
  unfolding read_data_from_tcp close
  read_data_all decode failed ps t =
      and_close (read_data_from_tcp hash client server_id decode ch failed ps t)

module _ {W : Type 0} (hash : Bytes → ℕ → ℕ) (client : LogicClient W) (server_id : Bytes)
    (decode : Bytes → Option ConnectRequest) (ch : Ptr) where
  abbrev pub then_read : (State × W → Turn (State × W)) → Turn (State × W) → Turn (State × W)
  then_read rest (next closed t) = rest t
  then_read rest (stop t) = stop t
  then_read rest wait = wait
  then_read rest crash = crash
  then_read rest exit = exit

  -- Each read is whether its error is an unexpected close, and the message. After the last one the
  -- next ReadMessage waits.
  unfoldable pub read_messages : List (Bool × Option Bytes) → State × W → Turn (State × W)
  unfolding read_pump
  read_messages [] t = wait
  read_messages ((unexpected, message) ∷ ms) t =
      then_read (read_messages ms) (read_pump hash client server_id decode unexpected message ch t)

  unfoldable pub read_pump_all : List (Bool × Option Bytes) → State × W → Turn (State × W)
  unfolding read_messages close
  read_pump_all ms t = and_close hash client server_id ch (read_messages ms t)
