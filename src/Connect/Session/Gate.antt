-- ===== src/Connect/Session/Gate.antt =====
-- What has to hold before a reader changes the connection layer's state.
use zhibo.Prelude.{
  ℕ, ℤ, pos, int_eq, int_eq_iff, is_nonpos, Bytes, is_empty, Bool, true, false, Option, none, some,
  ◌≡◌, ◌≢◌, refl, arith, if◌then◌else◌,
}
use zhibo.Proto.{ConnectRequest, ConnectReply, SendTcp, op_room_send}
use zhibo.Connect.Heap.{Ptr}
use zhibo.Connect.Room.{PutError}
use zhibo.Connect.Bucket.{Bucket, Outcome, done, waits, panics}
use zhibo.Connect.Server.{State, bucket}
use zhibo.Connect.Session.{
  LogicClient, Turn, next, stop, put_at, put_turn, join_in, on_reply, on_request, on_message,
  read_pump, read_tcp, send_of,
}

pub if_stop :
    {A : Type 0} (b : Bool) (x : A) (t : Turn A) (c : Bool) (y : A)
    → (if b then stop x else t) ≡ next c y
    → (b ≡ false) × (t ≡ next c y)
if_stop true x t c y e = cc
if_stop false x t c y e = (refl, e)

module _ {W : Type 0} (hash : Bytes → ℕ → ℕ) (client : LogicClient W) (server_id : Bytes) where
  -- The state `s'` is `s` with the channel put into the bucket of the user that the logic layer
  -- gave, without an error and not 0, for the request's token, which is not empty.
  pub record Joined (ch : Ptr) (s : State) (w : W) (s' : State) (w' : W) : Type 0 where
    pub req : ConnectRequest
    pub token : is_empty req.auth_token ≡ false
    pub no_error : (client.connect (record req { server_id = server_id }) w).0 ≡ none
    pub user : (client.connect (record req { server_id = server_id }) w).1.user_id ≢ pos 0
    pub index : ℕ
    pub home : Bucket
    pub found :
        bucket hash (client.connect (record req { server_id = server_id }) w).1.user_id s.server
        ≡ done (index, home)
    pub state :
        s'
        ≡ (put_at hash client server_id
            (client.connect (record req { server_id = server_id }) w).1.user_id
            req.room_id
            ch
            s
            index
            home).0
    pub world : w' ≡ (client.connect (record req { server_id = server_id }) w).2

  put_turn-next :
      (tcp c : Bool) (r : State × Option PutError) (w w' : W) (s' : State)
      → put_turn hash client server_id tcp r w ≡ next c (s', w')
      → (s' ≡ r.0) × (w' ≡ w)
  unfolding put_turn
  put_turn-next tcp c (s, none) w w' s' e = ground arith
  put_turn-next true c (s, some x) w w' s' e = ground arith
  put_turn-next false c (s, some x) w w' s' e = ground arith

  pub join_in-next :
      (tcp c : Bool) (o : Outcome (ℕ × Bucket)) (uid rid : ℤ) (ch : Ptr) (s : State) (w w' : W)
      (s' : State)
      → join_in hash client server_id tcp o uid rid ch s w ≡ next c (s', w')
      → (i : ℕ) × (b : Bucket) × (o ≡ done (i, b))
        × (s' ≡ (put_at hash client server_id uid rid ch s i b).0)
        × (w' ≡ w)
  unfolding join_in
  join_in-next tcp c (done (i, b)) uid rid ch s w w' s' e =
      let (st, wo) =
        put_turn-next tcp c (put_at hash client server_id uid rid ch s i b) w w' s' e in
      (i, b, refl, st, wo)
  join_in-next tcp c waits uid rid ch s w w' s' e = cc
  join_in-next tcp c panics uid rid ch s w w' s' e = cc

  pub on_reply-next :
      (tcp c : Bool) (rid : ℤ) (ch : Ptr) (s : State) (r : Option Bytes × ConnectReply × W) (w' : W)
      (s' : State)
      → on_reply hash client server_id tcp rid ch s r ≡ next c (s', w')
      → (r.0 ≡ none)
        × (int_eq r.1.user_id (pos 0) ≡ false)
        × (join_in hash client server_id tcp
              (bucket hash r.1.user_id s.server)
              r.1.user_id
              rid
              ch
              s
              r.2
            ≡ next c (s', w'))
  unfolding on_reply
  on_reply-next tcp c rid ch s (some x, reply, w) w' s' e = cc
  on_reply-next tcp c rid ch s (none, reply, w) w' s' e =
      let g = if_stop (int_eq reply.user_id (pos 0)) _ _ c _ e in (refl, g.0, g.1)

  on_request-Joined :
      (c : Bool) (o : Option ConnectRequest) (ch : Ptr) (s : State) (w w' : W) (s' : State)
      → on_request hash client server_id o ch (s, w) ≡ next c (s', w')
      → Joined ch s w s' w'
  unfolding on_request
  on_request-Joined c none ch s w w' s' e = cc
  on_request-Joined c (some req) ch s w w' s' e =
      let token = if_stop (is_empty req.auth_token) _ _ c _ e in
      let reply = client.connect (record req { server_id = server_id }) w in
      let (ok, user, into) = on_reply-next false c req.room_id ch s reply w' s' token.1 in
      let (i, b, found, st, wo) =
        join_in-next false c _ reply.1.user_id req.room_id ch s reply.2 w' s' into in
      record {
        req = req;
        token = token.0;
        no_error = ok;
        user = λ z. ground (arith, int_eq_iff reply.1.user_id (pos 0));
        index = i;
        home = b;
        found = found;
        state = st;
        world = wo;
      }

  on_message-Joined :
      (decode : Bytes → Option ConnectRequest) (c : Bool) (o : Option Bytes) (ch : Ptr) (s : State)
      (w w' : W) (s' : State)
      → on_message hash client server_id decode o ch (s, w) ≡ next c (s', w')
      → Joined ch s w s' w'
  unfolding on_message
  on_message-Joined decode c none ch s w w' s' e = cc
  on_message-Joined decode c (some m) ch s w w' s' e = on_request-Joined c (decode m) ch s w w' s' e

  -- A websocket reader goes on to its next message only after the logic layer gave a user that is
  -- not 0, without an error, for a token that is not empty, and what it changed is the put of its
  -- channel into that user's bucket.
  pub read_pump-Joined :
      (decode : Bytes → Option ConnectRequest) (unexpected closed : Bool) (message : Option Bytes)
      (ch : Ptr) (s : State) (w w' : W) (s' : State)
      → read_pump hash client server_id decode unexpected message ch (s, w) ≡ next closed (s', w')
      → Joined ch s w s' w'
  unfolding read_pump
  read_pump-Joined decode unexpected c message ch s w w' s' e =
      on_message-Joined decode c message ch s w w' s' (if_stop unexpected _ _ c _ e).1

  -- A TCP message that asks for a room send, with any token that is not empty and a positive room,
  -- is published under the sender that it names itself: the logic layer is not asked for the token.
  pub read_tcp-push_room :
      (m : SendTcp) (ch : Ptr) (s : State) (w : W)
      → is_empty m.auth_token ≡ false
      → is_nonpos m.room_id ≡ false
      → m.op ≡ op_room_send
      → (read_tcp hash client server_id m ch (s, w)
          ≡ next false (s, client.push_room (send_of hash client server_id m) w))
        × ((send_of hash client server_id m).from_user_id ≡ m.from_user_id)
  unfolding read_tcp
  read_tcp-push_room m ch s w token room op = (rw (token, room, op) refl, refl)
