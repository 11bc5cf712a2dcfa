-- ===== src/Connect/System/Closing.antt =====
-- The readers of connect/server.go and connect/server_tcp.go in the states that a server reaches.
use zhibo.Prelude.{
  ℕ, ◌<◌, ◌^◌, ℤ, pos, int_eq, Bytes, is_empty, Option, none, some, ◌≡◌, ◌⊎◌, inl, inr, refl, ap,
  ◌∙◌, Bool, true, false, Bool-cases, Option-cases, if◌then◌else◌, update_key, int_eq_iff, sym,
}
use zhibo.Proto.{ConnectRequest, ConnectReply, DisConnectRequest}
use zhibo.Connect.Heap.{Ptr, Heap}
use zhibo.Connect.Room.{PutError}
use zhibo.Connect.Bucket
use zhibo.Connect.Bucket.{Bucket, BucketOptions, Outcome, done}
use zhibo.Connect.Server.{State, bucket}
use zhibo.Connect.Session.{
  LogicClient, next, stop, put_at, put_turn, join_in, on_reply, on_request, on_message, read_pump,
  delete_at, disconnected, close_in, close,
}
use zhibo.Connect.Session.Whole.Ended.{leave_room-chs, bucket-set}
use zhibo.Connect.System.Effect.{done-injective}
use zhibo.Connect.System.{IsFresh, join, leave, with_bucket, Reach, later}
use zhibo.Connect.System.Start.{run}
use zhibo.Connect.System.Reachable.{bucket-get, bucket-total, Reach-IsState, Reach-leave}

-- What the deferred function asks of the logic layer.
abbrev pub leaving : Ptr → Ptr → State → DisConnectRequest
leaving ch r s = record { room_id = (s.heap.rooms r).id; user_id = (s.heap.channels ch).user_id }

module _ {W : Type 0} (hash : Bytes → ℕ → ℕ) (client : LogicClient W) (server_id : Bytes) where
  pub delete_at-done :
      (ch : Ptr) (s : State) (i : ℕ) (b b' : Bucket) (h : Heap)
      → Bucket.delete_channel ch b s.heap ≡ done (b', h)
      → delete_at hash client server_id ch s (done (i, b)) ≡ done (with_bucket s i b' h)
  unfolding delete_at
  delete_at-done ch s i b b' h ran = rw (delete_at, ran) refl

  pub disconnected-stops :
      (req : DisConnectRequest) (w : W) (s : State)
      → (client.dis_connect req w).0 ≡ none
      → disconnected hash client server_id req w (done s) ≡ stop (s, (client.dis_connect req w).1)
  unfolding disconnected
  disconnected-stops req w s no_error = rw (disconnected, no_error) refl

  -- The deferred function returns where the user's bucket is found and DeleteChannel returns.
  close_in-stops :
      (r ch : Ptr) (s : State) (w : W) (i : ℕ) (b b' : Bucket) (h : Heap)
      → int_eq (s.heap.channels ch).user_id (pos 0) ≡ false
      → bucket hash (s.heap.channels ch).user_id s.server ≡ done (i, b)
      → Bucket.delete_channel ch b s.heap ≡ done (b', h)
      → ((req : DisConnectRequest) → (client.dis_connect req w).0 ≡ none)
      → close_in hash client server_id (some r) ch (s, w)
        ≡ stop (with_bucket s i b' h, (client.dis_connect (leaving ch r s) w).1)
  unfolding close_in
  close_in-stops r ch s w i b b' h somebody found ran no_error =
      let req = leaving ch r s in
      rw somebody (
        ap (λ o. disconnected hash client server_id req w (delete_at hash client server_id ch s o))
          found
        ∙ ap (disconnected hash client server_id req w) (delete_at-done ch s i b b' h ran)
        ∙ disconnected-stops req w (with_bucket s i b' h) (no_error req))

  close_in-skips :
      (o : Option Ptr) (ch : Ptr) (s : State) (w : W)
      → (o ≡ none) ⊎ (int_eq (s.heap.channels ch).user_id (pos 0) ≡ true)
      → close_in hash client server_id o ch (s, w) ≡ stop (s, w)
  unfolding close_in
  close_in-skips none ch s w out = refl
  close_in-skips (some r) ch s w (inl unplaced) = cc (unplaced)
  close_in-skips (some r) ch s w (inr nobody) = rw nobody refl

  pub put_turn-next :
      (r : State × Option PutError) (w : W)
      → (c : Bool) × (put_turn hash client server_id false r w ≡ next c (r.0, w))
  unfolding put_turn
  put_turn-next (s, none) w = (false, refl)
  put_turn-next (s, some e) w = (true, refl)

  -- A websocket's request is answered with a user: Put is called, and the reader goes on.
  on_reply-joins :
      (rid : ℤ) (ch : Ptr) (s : State) (r : Option Bytes × ConnectReply × W) (i : ℕ) (b : Bucket)
      → r.0 ≡ none
      → int_eq r.1.user_id (pos 0) ≡ false
      → bucket hash r.1.user_id s.server ≡ done (i, b)
      → (c : Bool) × (on_reply hash client server_id false rid ch s r
          ≡ next c ((put_at hash client server_id r.1.user_id rid ch s i b).0, r.2))
  unfolding on_reply join_in
  on_reply-joins rid ch s (some e, reply, w) i b no_error somebody found = cc (no_error)
  on_reply-joins rid ch s (none, reply, w) i b no_error somebody found =
      let (c, turned) = put_turn-next (put_at hash client server_id reply.user_id rid ch s i b) w in
      (
        c,
        rw somebody (
            ap (λ o. join_in hash client server_id false o reply.user_id rid ch s w) found
            ∙ turned),
      )

  on_reply-stops :
      (rid : ℤ) (ch : Ptr) (s : State) (r : Option Bytes × ConnectReply × W)
      → r.0 ≡ none
      → int_eq r.1.user_id (pos 0) ≡ true
      → on_reply hash client server_id false rid ch s r ≡ stop (s, r.2)
  unfolding on_reply
  on_reply-stops rid ch s (some e, reply, w) no_error nobody = cc (no_error)
  on_reply-stops rid ch s (none, reply, w) no_error nobody = rw nobody refl

-- The deferred function had nothing to do; the channel's user was taken out.
abbrev pub Skips : Ptr → State → Type 0
Skips ch s =
    ((s.heap.channels ch).room ≡ none) ⊎ (int_eq (s.heap.channels ch).user_id (pos 0) ≡ true)

abbrev pub Skipped : {W : Type 0} → Ptr → State → State → W → W → Type 0
Skipped ch s s' w w' = Skips ch s × (s' ≡ s) × (w' ≡ w)

skipped-or :
    (ch : Ptr) (s : State)
    → Skips ch s
      ⊎ ((r : Ptr) × ((s.heap.channels ch).room ≡ some r)
          × (int_eq (s.heap.channels ch).user_id (pos 0) ≡ false))
skipped-or ch s = elim (Option-cases (s.heap.channels ch).room) [
  | inl unplaced ↦ inl (inl unplaced)
  | inr (r, room) ↦ elim (Bool-cases (int_eq (s.heap.channels ch).user_id (pos 0))) [
    | inl nobody ↦ inl (inr nobody)
    | inr somebody ↦ inr (r, room, somebody)
  ]
]

pub record Closed {W : Type 0} (hash : Bytes → ℕ → ℕ) (client : LogicClient W) (ch : Ptr)
    (s s' : State) (w w' : W) : Type 0 where
  pub room : Ptr
  pub index : ℕ
  pub before : Bucket
  pub after : Bucket
  pub placed : (s.heap.channels ch).room ≡ some room
  pub somebody : int_eq (s.heap.channels ch).user_id (pos 0) ≡ false
  pub told : w' ≡ (client.dis_connect (leaving ch room s) w).1
  pub found : bucket hash (s.heap.channels ch).user_id s.server ≡ done (index, before)
  pub kept : bucket hash (s.heap.channels ch).user_id s'.server ≡ done (index, after)
  pub users :
      (u : ℤ) → after.chs u ≡ (if int_eq u (s.heap.channels ch).user_id then none else before.chs u)

-- DeleteChannel of a channel takes the channel's user out of the map, and nobody else.
delete_channel-users :
    (ch : Ptr) (b b' : Bucket) (h h' : Heap) (o : Option Ptr)
    → ((u : ℤ) (x : Ptr) → b.chs u ≡ some x → (h.channels x).user_id ≡ u)
    → b.chs (h.channels ch).user_id ≡ o
    → Bucket.delete_channel ch b h ≡ done (b', h')
    → (u : ℤ) → b'.chs u ≡ (if int_eq u (h.channels ch).user_id then none else b.chs u)
unfolding Bucket.delete_channel Bucket.delete_known Bucket.delete_found update_key
delete_channel-users ch b b' h h' none online at ran u =
    let same : (b, h) ≡ (b', h') =
      done-injective (sym (ap (λ q. Bucket.delete_known q b h) at) ∙ ran) in
    let there : b'.chs u ≡ b.chs u = ap (λ (p : Bucket × Heap). p.0.chs u) (sym same) in
    elim (Bool-cases (int_eq u (h.channels ch).user_id)) [
      | inl own ↦ rw own (there ∙ ap b.chs ((int_eq_iff u (h.channels ch).user_id).0 own) ∙ at)
      | inr other ↦ rw other there
    ]
delete_channel-users ch b b' h h' (some c) online at ran u =
    let uid = (h.channels ch).user_id in
    let own : (h.channels c).user_id ≡ uid = online uid c at in
    let out : Bucket = record b { chs = update_key b.chs (h.channels c).user_id none } in
    let went =
      ap (λ q. Bucket.delete_known q b h) at
      ∙ ap (λ q. Bucket.delete_found q c b h) (ap b.chs own ∙ at) in
    let same = done-injective (sym went ∙ ran) in
    ap (λ (p : Bucket × Heap). p.0.chs u) (sym same)
    ∙ ap (λ f. f u) (leave_room-chs (h.channels c).room c out h)
    ∙ ap (λ k. if int_eq u k then none else b.chs u) own

module _ {W : Type 0} (hash : Bytes → ℕ → ℕ) (client : LogicClient W) (server_id : Bytes)
    (cpu_num : ℕ) (options : BucketOptions) (broadcast_size : ℕ) (some_cpu : 0 < cpu_num)
    (few : cpu_num < 2 ^ 32) (positive : 0 < options.routine_amount) {s : State}
    (reach : Reach hash (run cpu_num options broadcast_size) s) where
  -- In every state that a new server reaches by the steps of Step, in which a channel joins only while
  -- it has no Room and no bucket has it for a user, and each step runs as a whole, when the logic layer
  -- answers DisConnect without an error: the deferred function of a reader does not panic, and ends in
  -- a state that the server reaches by these steps. Where the channel has no Room, or its user is 0,
  -- nothing changes and the logic layer is not called. Else the logic layer is told the Room's id and
  -- the user, and in the user's bucket the user has no channel any more, while every other user's entry
  -- is as it was.
  pub Reach-close :
      (ch : Ptr) (w : W)
      → ((req : DisConnectRequest) → (client.dis_connect req w).0 ≡ none)
      → (s' : State) × (w' : W) × (close hash client server_id ch (s, w) ≡ stop (s', w'))
        × Reach hash (run cpu_num options broadcast_size) s'
        × (Skipped ch s s' w w' ⊎ Closed hash client ch s s' w w')
  unfolding close
  Reach-close ch w no_error =
      let (members, is) =
        Reach-IsState hash cpu_num options broadcast_size some_cpu few positive reach in
      let (i, b, b', h, found, ran) =
        Reach-leave hash cpu_num options broadcast_size some_cpu few positive reach ch in
      let at = bucket-get hash (s.heap.channels ch).user_id s.server i b found in
      elim (skipped-or ch s) [
        | inl out ↦ (
          s,
          w,
          close_in-skips hash client server_id (s.heap.channels ch).room ch s w out,
          reach,
          inl (out, refl, refl),
        )
        | inr (r, room, somebody) ↦ (
          with_bucket s i b' h,
          (client.dis_connect (leaving ch r s) w).1,
          ap (λ o. close_in hash client server_id o ch (s, w)) room
              ∙ close_in-stops hash client server_id r ch s w i b b' h somebody found ran no_error,
          later reach (leave ch i b b' h found ran),
          inr (record {
            room = r;
            index = i;
            before = b;
            after = b';
            placed = room;
            somebody = somebody;
            told = refl;
            found = found;
            kept = bucket-set hash (s.heap.channels ch).user_id s.server i b b' found;
            users =
                delete_channel-users ch b b' s.heap h (b.chs (s.heap.channels ch).user_id)
                  (is.own i b at).online refl ran;
          }),
        )
      ]

  -- In a state that a new server reaches by the steps of Step, a websocket message that is a request,
  -- from a channel that has no Room and that no bucket has for a user, when the logic layer answers
  -- Connect without an error: without a token the reader stops, and neither the
  -- server nor the logic layer has done anything; for a token that the logic layer answers with the
  -- user 0 the reader stops and the server is as it was; and else the reader goes on, after Put of
  -- the channel, with the user of the answer and the room of the request, in the user's bucket, in a
  -- state that the server reaches by these steps.
  pub Reach-read_pump :
      (decode : Bytes → Option ConnectRequest) (m : Bytes) (req : ConnectRequest) (ch : Ptr) (w : W)
      → decode m ≡ some req
      → IsFresh s ch
      → (client.connect (record req { server_id = server_id }) w).0 ≡ none
      → let (e, reply, w') = client.connect (record req { server_id = server_id }) w in
        let result = read_pump hash client server_id decode false (some m) ch (s, w) in
        ((is_empty req.auth_token ≡ true) × (result ≡ stop (s, w)))
        ⊎ ((is_empty req.auth_token ≡ false)
            × (int_eq reply.user_id (pos 0) ≡ true)
            × (result ≡ stop (s, w')))
        ⊎ ((is_empty req.auth_token ≡ false)
            × (int_eq reply.user_id (pos 0) ≡ false)
            × ((c : Bool) × (i : ℕ) × (b : Bucket) × (bucket hash reply.user_id s.server
                  ≡ done (i, b))
                × (let (b', h, error) = Bucket.put reply.user_id req.room_id ch b s.heap in
                    (result ≡ next c (with_bucket s i b' h, w'))
                    × Reach hash (run cpu_num options broadcast_size) (with_bucket s i b' h))))
  unfolding read_pump on_message on_request put_at
  Reach-read_pump decode m req ch w decoded fresh no_error =
      let (members, is) =
        Reach-IsState hash cpu_num options broadcast_size some_cpu few positive reach in
      let r = client.connect (record req { server_id = server_id }) w in
      let (i, b, found, _) = bucket-total hash r.1.user_id s.server is.sized is.some_bucket in
      rw decoded (elim (Bool-cases (is_empty req.auth_token)) [
        | inl no_token ↦ inl (no_token, rw no_token refl)
        | inr token ↦ inr (elim (Bool-cases (int_eq r.1.user_id (pos 0))) [
          | inl nobody ↦ inl (
            token,
            nobody,
            rw token (on_reply-stops hash client server_id req.room_id ch s r no_error nobody),
          )
          | inr somebody ↦
              let (c, goes) =
                on_reply-joins hash client server_id req.room_id ch s r i b no_error somebody
                  found in
              inr (
                token,
                somebody,
                (
                  c,
                  i,
                  b,
                  found,
                  (rw token goes, later reach (join r.1.user_id req.room_id ch i b found fresh)),
                ),
              )
        ])
      ])
