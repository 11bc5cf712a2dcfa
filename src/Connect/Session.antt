-- ===== src/Connect/Session.antt =====
-- The sessions of connect/server.go (readPump), connect/server_tcp.go (readDataFromTcp) and
-- connect/operator.go: what a connection's reader does with each message, and at its end. The logic
-- layer's RPC server is the interface `LogicClient`; `decode` is json.Unmarshal, `hash` CityHash32.
pub mod Gate
pub mod Reader
pub mod Whole
use zhibo.Prelude.{
  ℕ, ℤ, pos, int_eq, is_nonpos, Bytes, str_eq, is_empty, Bool, true, false, not, ◌||◌, Option, none,
  some, List, [], ◌∷◌, ◌≡◌, refl, ap, ◌∙◌, arith, set, if◌then◌else◌, Bool-cases, inl, inr,
}
use zhibo.Proto.{
  ConnectRequest, ConnectReply, DisConnectRequest, Send, SendTcp, op_room_send, op_build_tcp_conn,
}
use zhibo.Connect.Heap.{Ptr, Heap, Channel}
use zhibo.Connect.Room.{PutError}
use zhibo.Connect.Bucket
use zhibo.Connect.Bucket.{Bucket, Outcome, done, waits, panics}
use zhibo.Connect.Server.{Server, State, bucket}

-- The calls of the logic layer, over a state that is not ours: an error, or the reply.
pub record LogicClient (W : Type 0) : Type 0 where
  pub connect : ConnectRequest → W → Option Bytes × ConnectReply × W
  pub dis_connect : DisConnectRequest → W → Option Bytes × W
  pub push_room : Send → W → W

-- One round of a reader. `next` goes on, with the connection closed where the flag says so; `stop`
-- leaves the loop for the deferred function; `wait` blocks; `crash` is a panic and `exit` is logrus.Fatalf, which
-- both end the process.
pub data Turn (A : Type 0) : Type 0 where
  next : Bool → A → Turn A
  stop : A → Turn A
  wait : Turn A
  crash : Turn A
  exit : Turn A

module _ {W : Type 0} (hash : Bytes → ℕ → ℕ) (client : LogicClient W) (server_id : Bytes) where
  -- `s.Bucket(userId).Put(...)`; the bucket goes back to its place.
  unfoldable pub put_at : ℤ → ℤ → Ptr → State → ℕ → Bucket → State × Option PutError
  unfolding Bucket.put
  put_at uid rid ch s i b =
      let (b', h', e) = Bucket.put uid rid ch b s.heap in
      (record { server = record s.server { buckets = set s.server.buckets i b' }; heap = h' }, e)

  -- What follows Put: a websocket that fails is closed and read on, a TCP reader returns.
  unfoldable pub put_turn : Bool → State × Option PutError → W → Turn (State × W)
  put_turn tcp (s, none) w = next false (s, w)
  put_turn true (s, some e) w = stop (s, w)
  put_turn false (s, some e) w = next true (s, w)

  unfoldable pub join_in : Bool → Outcome (ℕ × Bucket) → ℤ → ℤ → Ptr → State → W → Turn (State × W)
  unfolding put_at put_turn
  join_in tcp (done (i, b)) uid rid ch s w = put_turn tcp (put_at uid rid ch s i b) w
  join_in tcp waits uid rid ch s w = wait
  join_in tcp panics uid rid ch s w = crash

  -- What the logic layer answered to Connect: RpcConnect.Connect ends the process on an error.
  unfoldable pub on_reply :
      Bool → ℤ → Ptr → State → Option Bytes × ConnectReply × W → Turn (State × W)
  unfolding join_in bucket
  on_reply tcp rid ch s (some e, reply, w) = exit
  on_reply tcp rid ch s (none, reply, w) =
      if int_eq reply.user_id (pos 0)
      then stop (s, w)
      else join_in tcp (bucket hash reply.user_id s.server) reply.user_id rid ch s w

  -- A decoded websocket message; a nil request is dereferenced.
  unfoldable pub on_request : Option ConnectRequest → Ptr → State × W → Turn (State × W)
  unfolding on_reply
  on_request none ch (s, w) = crash
  on_request (some req) ch (s, w) =
      if is_empty req.auth_token
      then stop (s, w)
      else on_reply false req.room_id ch s (client.connect (record req { server_id = server_id }) w)

  unfoldable pub on_message :
      (Bytes → Option ConnectRequest) → Option Bytes → Ptr → State × W → Turn (State × W)
  unfolding on_request
  on_message decode none ch t = stop t
  on_message decode (some m) ch t = on_request (decode m) ch t

  -- The body of readPump's loop. `unexpected` is IsUnexpectedCloseError of the read.
  unfoldable pub read_pump :
      (Bytes → Option ConnectRequest) → Bool → Option Bytes → Ptr → State × W → Turn (State × W)
  unfolding on_message
  read_pump decode unexpected message ch t =
      if unexpected then stop t else on_message decode message ch t

  -- The request that a TCP message asks the logic layer to publish.
  abbrev pub send_of : SendTcp → Send
  send_of m = record {
    code = pos 0;
    msg = m.msg;
    from_user_id = m.from_user_id;
    from_user_name = m.from_user_name;
    to_user_id = pos 0;
    to_user_name = [];
    room_id = m.room_id;
    op = op_room_send;
    create_time = [];
  }

  abbrev pub connect_of : SendTcp → ConnectRequest
  connect_of m = record { auth_token = m.auth_token; room_id = m.room_id; server_id = server_id }

  -- The body of readDataFromTcp's loop, from the decoded message on.
  unfoldable pub read_tcp : SendTcp → Ptr → State × W → Turn (State × W)
  unfolding on_reply
  read_tcp m ch (s, w) =
      if is_empty m.auth_token || is_nonpos m.room_id
      then stop (s, w)
      else if int_eq m.op op_build_tcp_conn
      then on_reply true m.room_id ch s (client.connect (connect_of m) w)
      else if int_eq m.op op_room_send
      then next false (s, client.push_room (send_of m) w)
      else next false (s, w)

  -- The deferred function of both readers; the connection is closed in each case.
  unfoldable pub delete_at : Ptr → State → Outcome (ℕ × Bucket) → Outcome State
  unfolding Bucket.delete_channel
  delete_at ch s (done (i, b)) = elim (Bucket.delete_channel ch b s.heap) [
    | done t ↦
        done
          (record { server = record s.server { buckets = set s.server.buckets i t.0 }; heap = t.1 })
    | waits ↦ waits
    | panics ↦ panics
  ]
  delete_at ch s waits = waits
  delete_at ch s panics = panics

  unfoldable pub disconnected : DisConnectRequest → W → Outcome State → Turn (State × W)
  disconnected req w waits = wait
  disconnected req w panics = crash
  disconnected req w (done s) =
      let (e, w') = client.dis_connect req w in elim e [ some _ ↦ exit | none ↦ stop (s, w') ]

  unfoldable pub close_in : Option Ptr → Ptr → State × W → Turn (State × W)
  unfolding delete_at disconnected bucket
  close_in none ch (s, w) = stop (s, w)
  close_in (some r) ch (s, w) =
      let uid = (s.heap.channels ch).user_id in
      if int_eq uid (pos 0)
      then stop (s, w)
      else disconnected (record { room_id = (s.heap.rooms r).id; user_id = uid }) w
          (delete_at ch s (bucket hash uid s.server))

  unfoldable pub close : Ptr → State × W → Turn (State × W)
  unfolding close_in
  close ch (s, w) = close_in (s.heap.channels ch).room ch (s, w)
