-- ===== src/Connect/Listener.antt =====
-- The TCP listeners: InitTcpServer, acceptTcp and ServeTcp of connect/server_tcp.go, and serveWs of
-- connect/websocket.go. The net package and the websocket upgrade are libraries: parameters.
pub mod Numbered
use zhibo.Prelude.{
  ℕ, zero, suc, ◌+◌, ◌-◌, ◌^◌, ◌==◌, ℤ, pos, negsuc, Bytes, Bool, Option, none, some, List, [], ◌∷◌,
  ◌++◌, if◌then◌else◌, replicate,
}
use zhibo.Config.{Config, ConnectTcp}
use zhibo.Connect.Heap.{Channel, new_channel}
use zhibo.Logic.Exec.{Result, ok, err}
use zhibo.Registry.{split_by}

-- net.ResolveTCPAddr, net.ListenTCP, and what acceptTcp sets of a connection, over a state `W` of the
-- system: an error, or what is asked for.
pub record Net (W L A C : Type 0) : Type 0 where
  pub resolve : Bytes → W → Result A × W
  pub listen : A → W → Result L × W
  pub set_keep_alive : Bool → C → W → Option Bytes × W
  pub set_read_buffer : ℤ → C → W → Option Bytes × W
  pub set_write_buffer : ℤ → C → W → Option Bytes × W

-- The goroutines `go c.acceptTcp(listener)` that were started, with the error that ended InitTcpServer.
pub record Listening (L : Type 0) : Type 0 where
  pub acceptors : List L
  pub error : Option Bytes

-- The loop `for i := 0; i < cpuNum; i++`.
abbrev pub rounds : ℤ → ℕ
rounds (pos n) = n
rounds (negsuc n) = 0

-- A connection that acceptTcp serves, with its number; and how the loop stands: with an error it
-- returned, and else it waits for the next connection.
pub record Accepting (C : Type 0) : Type 0 where
  pub served : List (C × ℕ)
  pub error : Option Bytes

abbrev pub max_int : ℕ
max_int = 2 ^ 31 - 1

-- `if r++; r == maxInt { r = 0 }`
unfoldable pub next_number : ℕ → ℕ
next_number r = if suc r == max_int then 0 else suc r

-- The channel that ServeTcp and serveWs make for a connection; both pumps are started for it.
abbrev pub serve_tcp : ℕ → Channel
serve_tcp broadcast_size = new_channel broadcast_size

-- serveWs: no channel where the upgrade fails.
abbrev pub serve_ws : {C : Type 0} → ℕ → Result C → Option (C × Channel)
serve_ws broadcast_size (err e) = none
serve_ws broadcast_size (ok conn) = some (conn, new_channel broadcast_size)

module _ {W L A C : Type 0} (net : Net W L A C) where
  abbrev pub accepting : ℕ → L → Listening L × W → Listening L × W
  accepting n l (s, w) = (record s { acceptors = replicate n l ++ s.acceptors }, w)

  abbrev pub after_listen : ℕ → (W → Listening L × W) → Result L × W → Listening L × W
  after_listen n rest (err e, w) = (record { acceptors = []; error = some e }, w)
  after_listen n rest (ok l, w) = accepting n l (rest w)

  abbrev pub after_resolve : ℕ → (W → Listening L × W) → Result A × W → Listening L × W
  after_resolve n rest (err e, w) = (record { acceptors = []; error = some e }, w)
  after_resolve n rest (ok a, w) = after_listen n rest (net.listen a w)

  -- The loop over the addresses.
  unfoldable pub listen_each : ℕ → List Bytes → W → Listening L × W
  listen_each n [] w = (record { acceptors = []; error = none }, w)
  listen_each n (ip_port ∷ rest) w = after_resolve n (listen_each n rest) (net.resolve ip_port w)

  unfoldable pub init_tcp_server : Config → W → Listening L × W
  unfolding listen_each split_by
  init_tcp_server conf w =
      listen_each (rounds conf.connect.connect_bucket.cpu_num)
        (split_by b',' conf.connect.connect_tcp.bind) w

  abbrev pub and_set : (W → Option Bytes × W) → Option Bytes × W → Option Bytes × W
  and_set set (some e, w) = (some e, w)
  and_set set (none, w) = set w

  -- The three settings of a connection; the first error is that of the connection.
  unfoldable pub set_up : ConnectTcp → C → W → Option Bytes × W
  set_up conf conn w = and_set (net.set_write_buffer conf.send_buf conn) (
      and_set (net.set_read_buffer conf.receive_buf conn)
        (net.set_keep_alive conf.keep_alive conn w))

  abbrev pub serving : C × ℕ → Accepting C × W → Accepting C × W
  serving c (s, w) = (record s { served = c ∷ s.served }, w)

  abbrev pub after_set_up : (W → Accepting C × W) → C × ℕ → Option Bytes × W → Accepting C × W
  after_set_up rest c (some e, w) = (record { served = []; error = some e }, w)
  after_set_up rest c (none, w) = serving c (rest w)

  -- acceptTcp from the number `r` on, on what AcceptTCP gives one after the other.
  unfoldable pub accept_tcp : ConnectTcp → ℕ → List (Result C) → W → Accepting C × W
  unfolding next_number set_up
  accept_tcp conf r [] w = (record { served = []; error = none }, w)
  accept_tcp conf r (err e ∷ rest) w = (record { served = []; error = some e }, w)
  accept_tcp conf r (ok conn ∷ rest) w =
      after_set_up (accept_tcp conf (next_number r) rest) (conn, r) (set_up conf conn w)
