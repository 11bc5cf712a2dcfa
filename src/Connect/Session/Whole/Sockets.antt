-- ===== src/Connect/Session/Whole/Sockets.antt =====
-- A TCP connection that joins and ends, from the bytes of its message to the end of the deferred
-- function.
use zhibo.Prelude.{
  ℕ, ◌<◌, ℤ, pos, negsuc, int_eq, is_nonpos, Bytes, is_empty, Bool, true, false, Option, none, some,
  List, [], ◌∷◌, ◌≡◌, refl, ap, ◌∙◌,
}
use zhibo.Proto.{ConnectReply, DisConnectRequest, SendTcp, op_build_tcp_conn}
use zhibo.StickPackage.{scan}
use zhibo.StickPackage.Frames.{stream, AllFit}
use zhibo.Connect.Heap.{Ptr}
use zhibo.Connect.Room.{PutError}
use zhibo.Connect.Bucket
use zhibo.Connect.Bucket.{Bucket, done, no_room}
use zhibo.Connect.Server.{State, bucket}
use zhibo.Connect.Session.{
  LogicClient, stop, put_at, put_turn, join_in, on_reply, read_tcp, connect_of,
}
use zhibo.Connect.Session.Reader.{serve_all, then_serve, read_data_from_tcp-stream}
use zhibo.Connect.Session.Whole.{and_close, read_data_all}
use zhibo.Connect.Session.Whole.Ended.{put-Noted, bucket-set}
use zhibo.Connect.Session.Whole.Sessions.{close-gone}
use zhibo.Connect.System.{with_bucket}

-- What a connection starts from: its message asks to build a connection in a room with a positive id,
-- with a token, the logic layer answers with a user, whose bucket is there, and answers DisConnect
-- without an error.
pub record Builds {W : Type 0} (hash : Bytes → ℕ → ℕ) (client : LogicClient W) (server_id : Bytes)
    (m : SendTcp) (s : State) (w : W) (reply : ConnectReply) (w' : W) (i : ℕ) (b : Bucket)
    : Type 0 where
  pub token : is_empty m.auth_token ≡ false
  pub in_room : is_nonpos m.room_id ≡ false
  pub build : int_eq m.op op_build_tcp_conn ≡ true
  pub answered : client.connect (connect_of hash client server_id m) w ≡ (none, reply, w')
  pub somebody : int_eq reply.user_id (pos 0) ≡ false
  pub found : bucket hash reply.user_id s.server ≡ done (i, b)
  pub left : (d : DisConnectRequest) → (client.dis_connect d w').0 ≡ none

positive-a_room : (rid : ℤ) → is_nonpos rid ≡ false → int_eq rid no_room ≡ false
positive-a_room (pos n) positive = refl
positive-a_room (negsuc n) positive = cc (positive)

module _ {W : Type 0} (hash : Bytes → ℕ → ℕ) (client : LogicClient W) (server_id : Bytes)
    (decode : Bytes → Option SendTcp) (encode : SendTcp → Bytes) (m : SendTcp) (ch : Ptr)
    (s : State) (w : W) (reply : ConnectReply) (w' : W) (i : ℕ) (b : Bucket)
    (is : Builds hash client server_id m s w reply w' i b) where
  abbrev joined : State
  joined = let (b', h', e) = Bucket.put reply.user_id m.room_id ch b s.heap in with_bucket s i b' h'

  put_turn-stops :
      (r : State × Option PutError)
      → then_serve hash client server_id decode ch
          (serve_all hash client server_id decode ch [])
          (put_turn hash client server_id true r w')
        ≡ stop (r.0, w')
  unfolding put_turn serve_all
  put_turn-stops (t, none) = refl
  put_turn-stops (t, some e) = refl

  serve_all-joins : serve_all hash client server_id decode ch (m ∷ []) (s, w) ≡ stop (joined, w')
  unfolding serve_all read_tcp on_reply join_in put_at
  serve_all-joins =
      rw (is.token, is.in_room, is.build, is.answered, is.somebody, is.found)
        (put_turn-stops (put_at hash client server_id reply.user_id m.room_id ch s i b))

  -- A TCP connection sends one packed message, whose JSON is neither empty nor over 32763 bytes and is
  -- read back as the message. It asks to build a connection in a room with a positive id, with a
  -- token; the logic layer answers with a user other than 0, who has a bucket, and answers DisConnect
  -- without an error. Then the scanner takes the message from the stream, the reader comes to the
  -- end of the deferred function, and the user has no channel in the bucket.
  pub read_data_all-leaves :
      (failed : Bool) (fuel : ℕ)
      → AllFit (encode m ∷ [])
      → decode (encode m) ≡ some m
      → 1 < fuel
      → (ps : List Bytes) × (s' : State) × (v : W) × (b' : Bucket) × (scan fuel
            (stream (encode m ∷ []))
          ≡ some (ps, []))
        × (read_data_all hash client server_id ch decode failed ps (s, w) ≡ stop (s', v))
        × (bucket hash reply.user_id s'.server ≡ done (i, b'))
        × (b'.chs reply.user_id ≡ none)
  unfolding read_data_all
  read_data_all-leaves failed fuel fits reads enough =
      let uid = reply.user_id in
      let (ps, scanned, read) =
        read_data_from_tcp-stream hash client server_id decode ch encode failed (m ∷ []) fuel (s, w)
          fits (reads, tt) enough in
      let (noted, (r, room)) =
        put-Noted uid m.room_id ch b s.heap (positive-a_room m.room_id is.in_room) in
      let b1 = (Bucket.put uid m.room_id ch b s.heap).0 in
      let found = bucket-set hash uid s.server i b b1 is.found in
      let (b2, h2, v, closes, gone) =
        close-gone hash client server_id ch joined w' uid i b1 r found noted room is.somebody
          is.left in
      (
        ps,
        with_bucket joined i b2 h2,
        v,
        b2,
        scanned,
        ap (and_close hash client server_id ch) (read ∙ serve_all-joins) ∙ closes,
        bucket-set hash uid joined.server i b1 b2 found,
        gone,
      )
