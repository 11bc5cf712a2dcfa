-- ===== src/Connect/Writer.antt =====
-- The writers of both connections: writePump of connect/server.go and writeDataToTcp of
-- connect/server_tcp.go. The connection is an interface: what its calls answer, and what they make
-- of it. A ticker and the Go channel are what `select` chooses from, so a list of choices is a run.
pub mod Frames
pub mod Messages
use zhibo.Prelude.{ℕ, Bytes, codes, Option, none, some, List, [], ◌∷◌, ◌/◌, ◌%◌}
use zhibo.Proto.{Msg}
use zhibo.Connect.Heap.{Channel}
use zhibo.StickPackage.{StickPackage, version_content, with_length}

-- `select` takes a message from the channel's buffer, for which it waits on an empty one, or the
-- ticker fires, or the Go channel is closed.
pub data Choice : Type 0 where
  received : Choice
  ticked : Choice
  closed : Choice

-- A writer that waits for the next choice, or that returned.
pub data Written {ℓ} (A : Type ℓ) : Type ℓ where
  waiting : A → Written A
  returned : A → Written A

abbrev pub final {ℓ} : {A : Type ℓ} → Written A → A
final (waiting a) = a
final (returned a) = a

-- A net.TCPConn: Write answers an error or none.
pub record TcpConn (C : Type 0) : Type 0 where
  pub write : Bytes → C → Option Bytes × C
  pub close_conn : C → C

-- Pack to a connection: each binary.Write's error replaces the one before.
unfoldable pub pack_to : {C : Type 0} → TcpConn C → StickPackage → C → Option Bytes × C
pack_to conn p c =
    let (_, c1) = conn.write (p.version.0 ∷ p.version.1 ∷ []) c in
    let (_, c2) = conn.write ((p.len / 256) ∷ (p.len % 256) ∷ []) c1 in conn.write p.msg c2

abbrev pub ping_msg : Bytes
ping_msg = codes "ping msg"

module _ {C : Type 0} (conn : TcpConn C) where
  -- `pack.Msg = ...; pack.Length = pack.GetPackageLength(); pack.Pack(ch.connTcp)`
  unfoldable pub send : Bytes → StickPackage → C → StickPackage × Option Bytes × C
  unfolding with_length pack_to
  send body p c =
      let q = with_length (record p { msg = body }) in let (e, c') = pack_to conn q c in (q, e, c')

  -- On an error the writer returns, and its deferred function closes the connection.
  abbrev pub go_on :
      (StickPackage → C → Written (Channel × C))
      → Channel
      → StickPackage × Option Bytes × C
      → Written (Channel × C)
  go_on loop ch (p, none, c) = loop p c
  go_on loop ch (p, some e, c) = returned (ch, conn.close_conn c)

  -- `message := <-ch.broadcast`, and what is done with it.
  abbrev pub take_message :
      (Channel → StickPackage → C → Written (Channel × C))
      → List Msg
      → Channel
      → StickPackage
      → C
      → Written (Channel × C)
  take_message loop [] ch p c = waiting (ch, c)
  take_message loop (m ∷ ms) ch p c =
      let ch' = record ch { broadcast = ms } in go_on (loop ch') ch' (send m.body p c)

  unfoldable pub write_loop : List Choice → Channel → StickPackage → C → Written (Channel × C)
  unfolding send
  write_loop [] ch p c = waiting (ch, c)
  write_loop (received ∷ es) ch p c = take_message (write_loop es) ch.broadcast ch p c
  write_loop (ticked ∷ es) ch p c = go_on (write_loop es ch) ch (send ping_msg p c)
  write_loop (closed ∷ es) ch p c = returned (ch, conn.close_conn (conn.close_conn c))

  -- writeDataToTcp
  unfoldable pub write_data_to_tcp : List Choice → Channel → C → Written (Channel × C)
  unfolding write_loop
  write_data_to_tcp es ch c =
      write_loop es ch (record { version = version_content; len = 0; msg = [] }) c

-- The types of a websocket's messages.
abbrev pub text_message : ℕ
text_message = 1

abbrev pub close_message : ℕ
close_message = 8

abbrev pub ping_message : ℕ
ping_message = 9

-- A websocket.Conn, with the writer that NextWriter opens.
pub record WebsocketConn (C : Type 0) : Type 0 where
  pub set_write_deadline : C → C
  pub next_writer : ℕ → C → Option Bytes × C
  pub write : Bytes → C → C
  pub close_writer : C → Option Bytes × C
  pub write_message : ℕ → Bytes → C → Option Bytes × C
  pub close_conn : C → C

module _ {C : Type 0} (conn : WebsocketConn C) where
  -- `if err != nil { return }`, with the deferred function.
  abbrev pub unless_failed :
      (C → Written (Channel × C)) → Channel → Option Bytes × C → Written (Channel × C)
  unless_failed go ch (none, c) = go c
  unless_failed go ch (some e, c) = returned (ch, conn.close_conn c)

  -- What is done with a message.
  unfoldable pub write_body :
      (C → Written (Channel × C)) → Channel → Bytes → C → Written (Channel × C)
  write_body go ch body c =
      unless_failed (λ w. unless_failed go ch (conn.close_writer (conn.write body w))) ch
        (conn.next_writer text_message (conn.set_write_deadline c))

  abbrev pub take_text :
      (Channel → C → Written (Channel × C)) → List Msg → Channel → C → Written (Channel × C)
  take_text loop [] ch c = waiting (ch, c)
  take_text loop (m ∷ ms) ch c =
      let ch' = record ch { broadcast = ms } in write_body (loop ch') ch' m.body c

  -- writePump
  unfoldable pub write_pump : List Choice → Channel → C → Written (Channel × C)
  unfolding write_body
  write_pump [] ch c = waiting (ch, c)
  write_pump (received ∷ es) ch c = take_text (write_pump es) ch.broadcast ch c
  write_pump (ticked ∷ es) ch c =
      unless_failed (write_pump es ch) ch
        (conn.write_message ping_message [] (conn.set_write_deadline c))
  write_pump (closed ∷ es) ch c =
      let (_, c') = conn.write_message close_message [] (conn.set_write_deadline c) in
      returned (ch, conn.close_conn c')
