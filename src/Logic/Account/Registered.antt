-- ===== src/Logic/Account/Registered.antt =====
-- Register of logic/rpc.go, and CheckAuth of the token that it gives.
use mathlib.Core.Path.{subst}
use zhibo.Prelude.{
  ℤ, pos, int_ne, is_nonpos, Bytes, is_empty, true, false, none, [], ◌∷◌, ◌≡◌, ◌≢◌, refl, sym, ap,
  ◌∙◌,
}
use zhibo.Proto.{RegisterRequest, RegisterReply, success_reply_code}
use zhibo.Logic.Exec.{Result, ok, and_then-ok}
use zhibo.Logic.Redis.{
  Redis, hmset, expire, multi, Data, absent, a_hash, apply, apply_all, put_fields, to_hash, hash_of,
  IsHealthy,
}
use zhibo.Logic.Keys.{create_session_id, get_session_name}
use zhibo.Logic.World.{Users, World, call, check_have_user_name, add}
use zhibo.Logic.Account.{
  session_time, user_data, save_register, register_user, register, check_auth,
}
use zhibo.Logic.Account.Saved.{write_self, put_user_data, auth_reply-user_data}
use zhibo.Logic.Account.Sessions.{check_auth-hash}

registered-session :
    (session : Bytes) (uid : ℤ) (name : Bytes) (d : Data)
    → d session ≡ absent
    → apply_all (hmset session (user_data uid name) ∷ expire session session_time ∷ []) d session
      ≡ a_hash (user_data uid name)
unfolding apply_all apply user_data
registered-session session uid name d free =
    write_self session _ d
    ∙ ap (to_hash (put_fields (user_data uid name))) free
    ∙ ap hash_of (put_user_data uid name)

module _ {R : Redis} {U : Users} (H : IsHealthy R) where
  -- The transaction of Register takes effect as a whole.
  save_register-saved :
      (session : Bytes) (uid : ℤ) (name : Bytes) (w : World R U)
      → H.queued w.redis ≡ none
      → let r = save_register session uid name w in
        (r.0 ≡ ok tt)
        × (H.view r.1.redis
            ≡ apply_all
                (hmset session (user_data uid name) ∷ expire session session_time ∷ [])
                (H.view w.redis))
        × (H.queued r.1.redis ≡ none)
  unfolding save_register call apply
  save_register-saved session uid name w idle =
      let db1 = (R.run multi w.redis).1 in
      let v1 = H.applies multi w.redis idle in
      let c1 = hmset session (user_data uid name) in
      let c2 = expire session session_time in
      let (v2, q2) = H.queues c1 db1 [] (H.begins w.redis idle) (λ e. cc) (λ e. cc) in
      let db2 = (R.run c1 db1).1 in
      let (v3, q3) = H.queues c2 db2 (c1 ∷ []) q2 (λ e. cc) (λ e. cc) in
      let db3 = (R.run c2 db2).1 in
      let (a, v4, q4) = H.commits db3 (c1 ∷ c2 ∷ []) q3 in
      rw a (refl, v4 ∙ ap (apply_all (c1 ∷ c2 ∷ [])) (v3 ∙ v2 ∙ v1), q4)

  register_user-session :
      (name token : Bytes) (uid : ℤ) (w : World R U)
      → H.queued w.redis ≡ none
      → uid ≢ pos 0
      → H.view w.redis (create_session_id token) ≡ absent
      → let r = register_user name token uid w in
        (r.0 ≡ ok (record { code = success_reply_code; auth_token = token }))
        × (H.view r.1.redis (create_session_id token) ≡ a_hash (user_data uid name))
        × (H.queued r.1.redis ≡ none)
  unfolding register_user
  register_user-session name token uid w idle some_id free =
      let session = create_session_id token in
      let (ok1, saved, idle1) = save_register-saved session uid name w idle in
      let reply : RegisterReply = record { code = success_reply_code; auth_token = token } in
      let runs = and_then-ok (save_register session uid name w) tt (λ _ s. (ok reply, s)) ok1 in
      rw (int_ne uid (pos 0) some_id) (
        subst
          (λ (r : Result RegisterReply × World R U).
            (r.0 ≡ ok reply)
            × (H.view r.1.redis session ≡ a_hash (user_data uid name))
            × (H.queued r.1.redis ≡ none))
          (sym runs)
          (
            refl,
            ap (λ (d : Data). d session) saved
                ∙ registered-session session uid name (H.view w.redis) free,
            idle1,
          ))

  -- What Register does for a new name.
  register-register_user :
      (args : RegisterRequest) (token : Bytes) (w : World R U) (uid : ℤ) (users : U.Db)
      → is_nonpos (check_have_user_name args.name w).id ≡ true
      → is_empty args.name ≡ false
      → is_empty args.password ≡ false
      → U.create (record { id = pos 0; user_name = args.name; password = args.password }) w.users
        ≡ (ok uid, users)
      → register args token w ≡ register_user args.name token uid (record w { users = users })
  unfolding register add check_have_user_name
  register-register_user args token w uid users unknown named password made =
      rw (unknown, named, password, made)

  -- On a healthy Redis with no open transaction: Register of a name that the table does not have,
  -- with a name and a password that are not empty, where the table makes a row with a key other than
  -- 0 and the new token's session key is free, answers success with the token, and CheckAuth of the
  -- token then answers success with the new key and the name.
  pub register-check_auth :
      (args : RegisterRequest) (token : Bytes) (w : World R U) (uid : ℤ) (users : U.Db)
      → H.queued w.redis ≡ none
      → is_nonpos (check_have_user_name args.name w).id ≡ true
      → is_empty args.name ≡ false
      → is_empty args.password ≡ false
      → U.create (record { id = pos 0; user_name = args.name; password = args.password }) w.users
        ≡ (ok uid, users)
      → uid ≢ pos 0
      → H.view w.redis (create_session_id token) ≡ absent
      → let r = register args token w in
        (r.0 ≡ ok (record { code = success_reply_code; auth_token = token }))
        × ((check_auth (record { auth_token = token }) r.1).0
            ≡ ok (record { code = success_reply_code; user_id = uid; user_name = args.name }))
  unfolding create_session_id get_session_name
  register-check_auth args token w uid users idle unknown named password made some_id free =
      let w1 : World R U = record w { users = users } in
      let (done, saved, still) = register_user-session args.name token uid w1 idle some_id free in
      subst
        (λ (r : Result RegisterReply × World R U).
          (r.0 ≡ ok (record { code = success_reply_code; auth_token = token }))
          × ((check_auth (record { auth_token = token }) r.1).0
              ≡ ok (record { code = success_reply_code; user_id = uid; user_name = args.name })))
        (sym (register-register_user args token w uid users unknown named password made))
        (
          done,
          check_auth-hash H (register_user args.name token uid w1).1 token (user_data uid args.name)
                still saved
              ∙ ap ok (auth_reply-user_data uid args.name),
        )
