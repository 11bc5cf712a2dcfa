-- ===== src/Logic/Room/Admitted.antt =====
-- Connect of logic/rpc.go with a token that has a session, and with one that has none.
use zhibo.Prelude.{
  ℤ, pos, int_ne, Bytes, codes, is_empty, itoa, none, List, ◌≡◌, ◌≢◌, refl, ap, ◌∙◌, Bool-cases,
  inl, inr,
}
use zhibo.Prelude.Decimal.{atoi-itoa}
use zhibo.Proto.{ConnectRequest, redis_base_valid_time}
use zhibo.Logic.Exec.{ok, and_then-ok}
use zhibo.Logic.Redis.{
  Redis, absent, a_hash, set, hget, hget_all, string_of, field, answer, IsHealthy,
}
use zhibo.Logic.Keys.{get_session_name, get_user_key, get_room_user_key}
use zhibo.Logic.World.{Users, World, call}
use zhibo.Logic.Account.{user_data}
use zhibo.Logic.Account.Sessions.{hget_all-hash, hget_all-absent}
use zhibo.Logic.Room.{enter_room, connect_user, connect_info, connect}

enter_room-returns :
    {R : Redis} {U : Users} (key : Bytes) (rid uid : ℤ) (name : Bytes) (w : World R U)
    → (enter_room key rid uid name w).0 ≡ ok tt
unfolding enter_room call
enter_room-returns {R} key rid uid name w =
    elim (Bool-cases (is_empty (string_of (R.run (hget key (itoa uid)) w.redis).0))) [
      | inl unknown ↦ rw unknown refl
      | inr known ↦ rw known refl
    ]

module _ {R : Redis} {U : Users} (H : IsHealthy R) where
  connect_user-returns :
      (args : ConnectRequest) (uid : ℤ) (info : List (Bytes × Bytes)) (w : World R U)
      → H.queued w.redis ≡ none
      → uid ≢ pos 0
      → (connect_user args uid info w).0 ≡ ok (record { user_id = uid })
  unfolding connect_user call answer
  connect_user-returns args uid info w idle some_id =
      let c1 = set (get_user_key (itoa uid)) args.server_id redis_base_valid_time in
      let w1 : World R U = record w { redis = (R.run c1 w.redis).1 } in
      let entered =
        enter_room-returns (get_room_user_key (itoa args.room_id)) args.room_id uid
          (field (codes "userName") info) w1 in
      rw (int_ne uid (pos 0) some_id)
        (ap (λ r. r.0) (and_then-ok _ tt _ entered) ∙ rw (H.answers c1 w.redis idle) refl)

  pub connect-session :
      (args : ConnectRequest) (uid : ℤ) (name : Bytes) (w : World R U)
      → H.queued w.redis ≡ none
      → uid ≢ pos 0
      → H.view w.redis (get_session_name args.auth_token) ≡ a_hash (user_data uid name)
      → (connect args w).0 ≡ ok (record { user_id = uid })
  unfolding connect connect_info call user_data field
  connect-session args uid name w idle some_id at =
      let key = get_session_name args.auth_token in
      rw (hget_all-hash H w key (user_data uid name) idle at) (
        let w1 : World R U = record w { redis = (R.run (hget_all key) w.redis).1 } in
        ap (λ (i : ℤ). (connect_user args i (user_data uid name) w1).0) (atoi-itoa uid)
        ∙ connect_user-returns args uid (user_data uid name) w1
            (H.stays (hget_all key) w.redis idle (λ e. cc)) some_id)

  pub connect-no_session :
      (args : ConnectRequest) (w : World R U)
      → H.queued w.redis ≡ none
      → H.view w.redis (get_session_name args.auth_token) ≡ absent
      → (connect args w).0 ≡ ok (record { user_id = pos 0 })
  unfolding connect connect_info call
  connect-no_session args w idle at =
      rw (hget_all-absent H w (get_session_name args.auth_token) idle at) refl
