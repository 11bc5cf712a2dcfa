-- ===== src/Tests/Writers.antt =====
-- The writers on connections that keep what is sent.
use zhibo.Prelude.{
  ℕ, Bytes, codes, false, none, some, List, [], ◌∷◌, ◌++◌, ◌≡◌, refl, arith, map, pos,
}
use zhibo.Connect.Heap.{Channel, new_channel}
use zhibo.StickPackage.{new_package, unpack, unpacked, scan}
use zhibo.StickPackage.Frames.{packet}
use zhibo.Connect.Writer.{
  Choice, received, ticked, closed, final, TcpConn, write_data_to_tcp, WebsocketConn, write_pump,
}
use zhibo.Connect.Writer.Frames.{IsReliable, bodies, write_data_to_tcp-scan}
use zhibo.Connect.Writer.Messages.{IsOpen, wire, write_pump-messages}

abbrev two_queued : Channel
two_queued = record (new_channel 10) {
  broadcast =
      record { ver = pos 1; operation = pos 3; seq_id = []; body = codes "hi" }
      ∷ record { ver = pos 1; operation = pos 3; seq_id = []; body = codes "you" }
      ∷ [];
}

-- The first message, a ping, the second one, and then the writer waits.
abbrev choices : List Choice
choices = received ∷ ticked ∷ received ∷ received ∷ []

abbrev wire_of_bytes : TcpConn Bytes
wire_of_bytes = record { write = λ b c. (none, c ++ b); close_conn = λ c. c }

abbrev wire_of_bytes-IsReliable : IsReliable wire_of_bytes
wire_of_bytes-IsReliable = record {
  sent = λ c. c;
  accepts = λ b c. refl;
  appends = λ b c. refl;
  keeps = λ c. refl;
}

write_data_to_tcp-scan_example :
    (frames : List Bytes) × (scan 4
        (final (write_data_to_tcp wire_of_bytes choices two_queued [])).1
      ≡ some (frames, []))
    × (map (unpack new_package) frames
        ≡ map (λ m. unpacked (packet m) false) (bodies choices two_queued.broadcast))
unfolding bodies
write_data_to_tcp-scan_example =
    write_data_to_tcp-scan wire_of_bytes-IsReliable choices two_queued [] 4 refl
      (omega arith, omega arith, (omega arith, omega arith, (omega arith, omega arith, tt)))
      (omega arith)

-- What was sent, and the message that is being written.
abbrev Open : Type 0
Open = List (ℕ × Bytes) × ℕ × Bytes

abbrev websocket : WebsocketConn Open
websocket = record {
  set_write_deadline = λ c. c;
  next_writer = λ t c. (none, (c.0, t, []));
  write = λ b c. (c.0, c.1, c.2 ++ b);
  close_writer = λ c. (none, (c.0 ++ (c.1, c.2) ∷ [], c.1, []));
  write_message = λ t b c. (none, (c.0 ++ (t, b) ∷ [], c.1, c.2));
  close_conn = λ c. c;
}

abbrev websocket-IsOpen : IsOpen websocket
websocket-IsOpen = record {
  messages = λ c. c.0;
  deadline = λ c. refl;
  opens = λ t c. refl;
  ends = λ b c. refl;
  sends = λ t b c. refl;
  writes = λ t b c. (refl, refl);
  keeps = λ c. refl;
}

write_pump-messages_example :
    (final (
      write_pump websocket (received ∷ ticked ∷ received ∷ closed ∷ []) two_queued ([], 0, []))).1.0
    ≡ wire (received ∷ ticked ∷ received ∷ closed ∷ []) two_queued.broadcast
unfolding wire
write_pump-messages_example =
    write_pump-messages websocket-IsOpen (received ∷ ticked ∷ received ∷ closed ∷ []) two_queued
      ([], 0, [])
