-- ===== src/Connect/Session/Whole/Sessions.antt =====
-- A websocket that joins and is closed, from its first read to the end of the deferred function.
use zhibo.Prelude.{
  ℕ, ℤ, pos, int_eq, Bytes, is_empty, Bool, true, false, Option, none, some, [], ◌∷◌, ◌≡◌, refl, ap,
  ◌∙◌,
}
use zhibo.Proto.{ConnectRequest, ConnectReply, DisConnectRequest}
use zhibo.Connect.Heap.{Ptr, Heap}
use zhibo.Connect.Bucket
use zhibo.Connect.Bucket.{Bucket, Outcome, done, no_room}
use zhibo.Connect.Server.{State, bucket}
use zhibo.Connect.Session.{
  LogicClient, next, stop, put_at, join_in, on_reply, on_request, on_message, read_pump, delete_at,
  disconnected, close_in, close,
}
use zhibo.Connect.Session.Whole.{then_read, read_messages, and_close, read_pump_all}
use zhibo.Connect.Session.Whole.Ended.{
  Noted, put-Noted, put-Noted-no_room, delete_channel-gone, bucket-set,
}
use zhibo.Connect.System.{with_bucket}
use zhibo.Connect.System.Closing.{put_turn-next, delete_at-done, disconnected-stops}

module _ {W : Type 0} (hash : Bytes → ℕ → ℕ) (client : LogicClient W) (server_id : Bytes)
    (ch : Ptr) where
  read_pump-ends :
      (decode : Bytes → Option ConnectRequest) (unexpected : Bool) (t : State × W)
      → read_pump hash client server_id decode unexpected none ch t ≡ stop t
  unfolding read_pump on_message
  read_pump-ends decode true t = refl
  read_pump-ends decode false t = refl

  -- The deferred function takes the channel's user out of the map.
  pub close-gone :
      (t : State) (v : W) (uid : ℤ) (i : ℕ) (b : Bucket) (r : Ptr)
      → bucket hash uid t.server ≡ done (i, b)
      → Noted b t.heap uid ch
      → (t.heap.channels ch).room ≡ some r
      → int_eq uid (pos 0) ≡ false
      → ((d : DisConnectRequest) → (client.dis_connect d v).0 ≡ none)
      → (b' : Bucket) × (h' : Heap) × (v' : W) × (close hash client server_id ch (t, v)
          ≡ stop (with_bucket t i b' h', v'))
        × (b'.chs uid ≡ none)
  unfolding close close_in
  close-gone t v uid i b r found is room somebody left =
      let (b', h', ran, gone) = delete_channel-gone ch b t.heap uid is in
      let user = (t.heap.channels ch).user_id in
      let d : DisConnectRequest = record { room_id = (t.heap.rooms r).id; user_id = user } in
      (
        b',
        h',
        (client.dis_connect d v).1,
        ap (λ o. close_in hash client server_id o ch (t, v)) room
            ∙ rw (ap (λ u. int_eq u (pos 0)) is.user ∙ somebody) (
                ap
                  (λ o.
                    disconnected hash client server_id d v (delete_at hash client server_id ch t o))
                  (ap (λ u. bucket hash u t.server) is.user ∙ found)
                ∙ ap (disconnected hash client server_id d v)
                    (delete_at-done hash client server_id ch t i b b' h' ran)
                ∙ disconnected-stops hash client server_id d v (with_bucket t i b' h') (left d)),
        gone,
      )

-- What a session starts from: the message is a request with a token, the logic layer answers with a
-- user, whose bucket is there, and answers DisConnect without an error.
pub record Joins {W : Type 0} (hash : Bytes → ℕ → ℕ) (client : LogicClient W) (server_id : Bytes)
    (decode : Bytes → Option ConnectRequest) (m : Bytes) (req : ConnectRequest) (s : State) (w : W)
    (reply : ConnectReply) (w' : W) (i : ℕ) (b : Bucket) : Type 0 where
  pub decoded : decode m ≡ some req
  pub token : is_empty req.auth_token ≡ false
  pub answered : client.connect (record req { server_id = server_id }) w ≡ (none, reply, w')
  pub somebody : int_eq reply.user_id (pos 0) ≡ false
  pub found : bucket hash reply.user_id s.server ≡ done (i, b)
  pub left : (d : DisConnectRequest) → (client.dis_connect d w').0 ≡ none

module _ {W : Type 0} (hash : Bytes → ℕ → ℕ) (client : LogicClient W) (server_id : Bytes)
    (decode : Bytes → Option ConnectRequest) (m : Bytes) (req : ConnectRequest) (ch : Ptr)
    (s : State) (w : W) (reply : ConnectReply) (w' : W) (i : ℕ) (b : Bucket)
    (is : Joins hash client server_id decode m req s w reply w' i b) where
  abbrev joined : State
  joined =
      let (b', h', e) = Bucket.put reply.user_id req.room_id ch b s.heap in with_bucket s i b' h'

  read_pump-joins :
      (c : Bool) × (read_pump hash client server_id decode false (some m) ch (s, w)
        ≡ next c (joined, w'))
  unfolding read_pump on_message on_request on_reply join_in put_at
  read_pump-joins =
      let (c, turned) =
        put_turn-next hash client server_id
          (put_at hash client server_id reply.user_id req.room_id ch s i b) w' in
      (c, rw (is.decoded, is.token, is.answered, is.somebody, is.found) turned)

  read_messages-joins :
      (unexpected : Bool)
      → read_messages hash client server_id decode ch
          ((false, some m) ∷ (unexpected, none) ∷ [])
          (s, w)
        ≡ stop (joined, w')
  unfolding read_messages
  read_messages-joins unexpected =
      let (c, goes) = read_pump-joins in
      ap
        (then_read hash client server_id decode ch
          (read_messages hash client server_id decode ch ((unexpected, none) ∷ [])))
        goes
      ∙ ap
          (then_read hash client server_id decode ch
            (read_messages hash client server_id decode ch []))
          (read_pump-ends hash client server_id ch decode unexpected (joined, w'))

  joined-bucket :
      (b' : Bucket) → bucket hash reply.user_id (with_bucket s i b' s.heap).server ≡ done (i, b')
  joined-bucket b' = bucket-set hash reply.user_id s.server i b b' is.found

  -- A websocket whose first message is a request with a token for a room other than NoRoom, and which
  -- then ends. The logic layer answers with a user other than 0, who has a bucket, and answers
  -- DisConnect without an error. Then the reader comes to the end of the deferred function, and the
  -- user has no channel in the bucket.
  pub read_pump_all-leaves :
      (unexpected : Bool)
      → int_eq req.room_id no_room ≡ false
      → (s' : State) × (v : W) × (b' : Bucket) × (read_pump_all hash client server_id decode ch
            ((false, some m) ∷ (unexpected, none) ∷ [])
            (s, w)
          ≡ stop (s', v))
        × (bucket hash reply.user_id s'.server ≡ done (i, b'))
        × (b'.chs reply.user_id ≡ none)
  unfolding read_pump_all
  read_pump_all-leaves unexpected a_room =
      let uid = reply.user_id in
      let (noted, (r, room)) = put-Noted uid req.room_id ch b s.heap a_room in
      let b1 = (Bucket.put uid req.room_id ch b s.heap).0 in
      let (b2, h2, v, closes, gone) =
        close-gone hash client server_id ch joined w' uid i b1 r (joined-bucket b1) noted room
          is.somebody is.left in
      (
        with_bucket joined i b2 h2,
        v,
        b2,
        ap (and_close hash client server_id ch) (read_messages-joins unexpected) ∙ closes,
        bucket-set hash uid joined.server i b1 b2 (joined-bucket b1),
        gone,
      )

  -- The same with the room NoRoom, for a channel without a Room: the reader ends too, without calling
  -- DisConnect, and the user has the channel of the closed connection in the bucket.
  pub read_pump_all-no_room :
      (unexpected : Bool)
      → int_eq req.room_id no_room ≡ true
      → (s.heap.channels ch).room ≡ none
      → (s' : State) × (b' : Bucket) × (read_pump_all hash client server_id decode ch
            ((false, some m) ∷ (unexpected, none) ∷ [])
            (s, w)
          ≡ stop (s', w'))
        × (bucket hash reply.user_id s'.server ≡ done (i, b'))
        × (b'.chs reply.user_id ≡ some ch)
  unfolding read_pump_all close close_in
  read_pump_all-no_room unexpected nowhere unplaced =
      let uid = reply.user_id in
      let (noted, room) = put-Noted-no_room uid req.room_id ch b s.heap nowhere in
      let b1 = (Bucket.put uid req.room_id ch b s.heap).0 in
      (
        joined,
        b1,
        ap (and_close hash client server_id ch) (read_messages-joins unexpected)
            ∙ ap (λ o. close_in hash client server_id o ch (joined, w')) (room ∙ unplaced),
        joined-bucket b1,
        noted.online,
      )
