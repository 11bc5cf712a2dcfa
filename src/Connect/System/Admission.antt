-- ===== src/Connect/System/Admission.antt =====
-- A websocket's join over the sessions of logic/rpc.go: readPump of connect/server.go asks Connect of
-- the logic layer for the token's user.
use mathlib.Core.Path.{subst}
use zhibo.Prelude.{
  ℕ, ◌<◌, ◌^◌, ℤ, pos, int_ne, Bytes, codes, is_empty, Option, none, some, List, ◌∷◌, ◌≡◌, ◌≢◌,
  refl, sym, ap, ◌∙◌, Bool, false,
}
use zhibo.Prelude.Decimal.{atoi}
use zhibo.Proto.{ConnectRequest, ConnectReply, LoginRequest, LogoutResponse, success_reply_code}
use zhibo.Logic.Exec.{Result, ok, pure, and_then-ok}
use zhibo.Logic.Redis.{Redis, absent, a_hash, hget_all, field, IsHealthy}
use zhibo.Logic.Keys.{create_session_id, get_session_id_by_user_id, get_session_name}
use zhibo.Logic.World.{Users, World, call, check_have_user_name}
use zhibo.Logic.Account.{login, logout, logout_fields, delete_session, user_data}
use zhibo.Logic.Account.Sessions.{login_user-session, delete_session-absent, hget_all-hash}
use zhibo.Logic.Account.Renewed.{login-login_user}
use zhibo.Logic.Room
use zhibo.Logic.Room.Admitted.{connect-session, connect-no_session}
use zhibo.Connect.Heap.{Ptr}
use zhibo.Connect.Bucket.{Bucket, BucketOptions, done}
use zhibo.Connect.Server.{State, bucket}
use zhibo.Connect.Session.{
  LogicClient, next, stop, put_at, join_in, on_reply, on_request, on_message, read_pump,
}
use zhibo.Connect.System.{Reach}
use zhibo.Connect.System.Start.{run}
use zhibo.Connect.System.Reachable.{bucket-total, Reach-IsState}
use zhibo.Connect.System.Closing.{put_turn-next}

-- The RPC client reaches the logic layer: a Connect that returns without an error gives the caller
-- its reply, on the state that it leaves.
abbrev pub Reaches : {R : Redis} {U : Users} → LogicClient (World R U) → Type 0
Reaches {R} {U} c =
    (req : ConnectRequest) (w : World R U) (reply : ConnectReply)
    → (Room.connect req w).0 ≡ ok reply
    → c.connect req w ≡ (none, reply, (Room.connect req w).1)

module _ {R : Redis} {U : Users} (H : IsHealthy R) where
  login-stored :
      (args : LoginRequest) (token : Bytes) (w : World R U)
      → H.queued w.redis ≡ none
      → (check_have_user_name args.name w).id ≢ pos 0
      → args.password ≡ (check_have_user_name args.name w).password
      → H.view w.redis (create_session_id token) ≡ absent
      → get_session_id_by_user_id (check_have_user_name args.name w).id ≢ create_session_id token
      → let r = login args token w in
        let u = check_have_user_name args.name w in
        (H.view r.1.redis (get_session_name token) ≡ a_hash (user_data u.id u.user_name))
        × (H.queued r.1.redis ≡ none)
  unfolding get_session_name create_session_id
  login-stored args token w idle known password free apart =
      let u = check_have_user_name args.name w in
      let (_, saved, still) = login_user-session H u token w idle free apart in
      subst
        (λ (r : World R U).
          (H.view r.redis (get_session_name token) ≡ a_hash (user_data u.id u.user_name))
          × (H.queued r.redis ≡ none))
        (sym (ap (λ r. r.1) (login-login_user H args token w known password))) (saved, still)

  logout-removed :
      (token : Bytes) (f : Bytes × Bytes) (fs : List (Bytes × Bytes)) (w : World R U)
      → H.queued w.redis ≡ none
      → H.view w.redis (get_session_name token) ≡ a_hash (f ∷ fs)
      → let r = logout (record { auth_token = token }) w in
        (H.view r.1.redis (get_session_name token) ≡ absent) × (H.queued r.1.redis ≡ none)
  unfolding logout logout_fields call
  logout-removed token f fs w idle at =
      let session = get_session_name token in
      let w1 : World R U = record w { redis = (R.run (hget_all session) w.redis).1 } in
      let idle1 = H.stays (hget_all session) w.redis idle (λ e. cc) in
      let uid = atoi (field (codes "userId") (f ∷ fs)) in
      let (ok1, gone, idle2) = delete_session-absent H uid session w1 idle1 in
      let reply : LogoutResponse = record { code = success_reply_code } in
      let runs = and_then-ok (delete_session uid session w1) tt (λ _. pure reply) ok1 in
      rw (hget_all-hash H w session (f ∷ fs) idle at) (
        subst
          (λ (r : Result LogoutResponse × World R U).
            (H.view r.1.redis session ≡ absent) × (H.queued r.1.redis ≡ none))
          (sym runs) (gone, idle2))

module _ {W : Type 0} (hash : Bytes → ℕ → ℕ) (client : LogicClient W) (server_id : Bytes) where
  on_reply-no_user :
      (rid : ℤ) (ch : Ptr) (s : State) (w : W)
      → on_reply hash client server_id false rid ch s (none, record { user_id = pos 0 }, w)
        ≡ stop (s, w)
  unfolding on_reply
  on_reply-no_user rid ch s w = refl

  on_reply-user :
      (rid uid : ℤ) (ch : Ptr) (s : State) (w : W) (i : ℕ) (b : Bucket)
      → uid ≢ pos 0
      → bucket hash uid s.server ≡ done (i, b)
      → (c : Bool) × (on_reply hash client server_id false rid ch s
            (none, record { user_id = uid }, w)
          ≡ next c ((put_at hash client server_id uid rid ch s i b).0, w))
  unfolding on_reply join_in
  on_reply-user rid uid ch s w i b some_id found =
      let (c, turned) =
        put_turn-next hash client server_id (put_at hash client server_id uid rid ch s i b) w in
      (
        c,
        rw (int_ne uid (pos 0) some_id)
            (ap (λ o. join_in hash client server_id false o uid rid ch s w) found ∙ turned),
      )

  read_pump-connect :
      (decode : Bytes → Option ConnectRequest) (m : Bytes) (req : ConnectRequest) (ch : Ptr)
      (s : State) (w : W) (r : Option Bytes × ConnectReply × W)
      → decode m ≡ some req
      → is_empty req.auth_token ≡ false
      → client.connect (record req { server_id = server_id }) w ≡ r
      → read_pump hash client server_id decode false (some m) ch (s, w)
        ≡ on_reply hash client server_id false req.room_id ch s r
  unfolding read_pump on_message on_request
  read_pump-connect decode m req ch s w r decoded token answer =
      rw decoded (rw token (ap (on_reply hash client server_id false req.room_id ch s) answer))

module _ {R : Redis} {U : Users} (H : IsHealthy R) (hash : Bytes → ℕ → ℕ)
    (client : LogicClient (World R U)) (reaches : Reaches client) (server_id : Bytes)
    (decode : Bytes → Option ConnectRequest) where
  -- On a healthy Redis with no open transaction, and a client that reaches the logic layer: after
  -- Logout of a token that has a session, a websocket reader that gets a join request with the token
  -- stops, and the connect server is as it was.
  pub logout-read_pump :
      (f : Bytes × Bytes) (fs : List (Bytes × Bytes)) (w : World R U) (m : Bytes)
      (req : ConnectRequest) (ch : Ptr) (s : State)
      → H.queued w.redis ≡ none
      → H.view w.redis (get_session_name req.auth_token) ≡ a_hash (f ∷ fs)
      → decode m ≡ some req
      → is_empty req.auth_token ≡ false
      → let r = (logout (record { auth_token = req.auth_token }) w).1 in
        (w' : World R U) × (read_pump hash client server_id decode false (some m) ch (s, r)
          ≡ stop (s, w'))
  logout-read_pump f fs w m req ch s idle at decoded token =
      let r = (logout (record { auth_token = req.auth_token }) w).1 in
      let (gone, still) = logout-removed H req.auth_token f fs w idle at in
      let asked = record req { server_id = server_id } in
      let answer = reaches asked r _ (connect-no_session H asked r still gone) in
      (
        (Room.connect asked r).1,
        read_pump-connect hash client server_id decode m req ch s r _ decoded token answer
            ∙ on_reply-no_user hash client server_id req.room_id ch s (Room.connect asked r).1,
      )

  -- On a healthy Redis with no open transaction, and a client that reaches the logic layer: after
  -- Login of a user that the table has, with the right password and a token that is not empty, whose
  -- session key is free and is not the user's session map key, a websocket reader that gets a join
  -- request with the token, in a state that a new server reaches by the steps of Step, finds the bucket of the user's id,
  -- calls its Put of the channel with the user's id and the request's room, and goes on.
  pub login-read_pump :
      (cpu_num : ℕ) (options : BucketOptions) (broadcast_size : ℕ) (args : LoginRequest)
      (w : World R U) (m : Bytes) (req : ConnectRequest) (ch : Ptr) (s : State)
      → 0 < cpu_num
      → cpu_num < 2 ^ 32
      → 0 < options.routine_amount
      → Reach hash (run cpu_num options broadcast_size) s
      → H.queued w.redis ≡ none
      → (check_have_user_name args.name w).id ≢ pos 0
      → args.password ≡ (check_have_user_name args.name w).password
      → H.view w.redis (create_session_id req.auth_token) ≡ absent
      → get_session_id_by_user_id (check_have_user_name args.name w).id
        ≢ create_session_id req.auth_token
      → decode m ≡ some req
      → is_empty req.auth_token ≡ false
      → let r = (login args req.auth_token w).1 in
        let uid = (check_have_user_name args.name w).id in
        (i : ℕ) × (b : Bucket) × (c : Bool) × (w' : World R U) × (bucket hash uid s.server
          ≡ done (i, b))
        × (read_pump hash client server_id decode false (some m) ch (s, r)
            ≡ next c ((put_at hash client server_id uid req.room_id ch s i b).0, w'))
  login-read_pump cpu_num options size args w m req ch s some_cpu few positive reach idle known
        password free apart decoded token =
      let r = (login args req.auth_token w).1 in
      let u = check_have_user_name args.name w in
      let (saved, still) = login-stored H args req.auth_token w idle known password free apart in
      let asked = record req { server_id = server_id } in
      let answer =
        reaches asked r _ (connect-session H asked u.id u.user_name r still known saved) in
      let (members, is) = Reach-IsState hash cpu_num options size some_cpu few positive reach in
      let (i, b, found, _) = bucket-total hash u.id s.server is.sized is.some_bucket in
      let (c, goes) =
        on_reply-user hash client server_id req.room_id u.id ch s (Room.connect asked r).1 i b known
          found in
      (
        i,
        b,
        c,
        (Room.connect asked r).1,
        found,
        read_pump-connect hash client server_id decode m req ch s r _ decoded token answer ∙ goes,
      )
