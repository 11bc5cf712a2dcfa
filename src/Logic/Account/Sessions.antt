-- ===== src/Logic/Account/Sessions.antt =====
-- Login, CheckAuth and Logout of logic/rpc.go one after the other, on a Redis that does as documented.
use mathlib.Core.Path.{subst}
use zhibo.Prelude.{
  ℤ, pos, int_ne, Bytes, codes, is_empty, str_eq_self, itoa, none, List, [], ◌∷◌, ◌≡◌, ◌≢◌, refl,
  sym, ap, ◌∙◌, Bool-cases, inl, inr,
}
use zhibo.Prelude.Decimal.{atoi}
use zhibo.Proto.{LoginRequest, LoginResponse, LogoutResponse, success_reply_code, fail_reply_code}
use zhibo.Logic.Exec.{Result, ok, pure, and_then-ok}
use zhibo.Logic.Redis.{
  Redis, multi, get, set, del, expire, hmset, hget_all, string_of, field, fields, Data, Value,
  absent, a_hash, apply, apply_all, answer, status, IsHealthy,
}
use zhibo.Logic.Keys.{create_session_id, get_session_id_by_user_id, get_session_name, get_user_key}
use zhibo.Logic.World.{User, Users, World, call, check_have_user_name}
use zhibo.Logic.Account.{
  session_time, user_data, logout_old, save_login, login_user, login, check_auth, auth_reply,
  logout, logout_fields, delete_session,
}
use zhibo.Logic.Account.Saved.{write_self, write_absent, saved-session, auth_reply-user_data}

module _ {R : Redis} (H : IsHealthy R) where
  deleted : (k : Bytes) (db : R.Db) → H.queued db ≡ none → (R.run (del k) db).0 ≡ status
  unfolding answer
  deleted k db idle = H.answers (del k) db idle

module _ {R : Redis} {U : Users} (H : IsHealthy R) where
  -- The key's value, as Redis documents it.
  abbrev pub value : World R U → Bytes → Value
  value w k = H.view w.redis k

  -- No transaction is open.
  abbrev pub Idle : World R U → Type 0
  Idle w = H.queued w.redis ≡ none

  pub hget_all-hash :
      (w : World R U) (k : Bytes) (fs : List (Bytes × Bytes))
      → Idle w
      → value w k ≡ a_hash fs
      → (R.run (hget_all k) w.redis).0 ≡ fields fs
  unfolding answer
  hget_all-hash w k fs idle at = H.answers (hget_all k) w.redis idle ∙ rw at

  pub hget_all-absent :
      (w : World R U) (k : Bytes)
      → Idle w
      → value w k ≡ absent
      → (R.run (hget_all k) w.redis).0 ≡ fields []
  unfolding answer
  hget_all-absent w k idle at = H.answers (hget_all k) w.redis idle ∙ rw at

  pub check_auth-hash :
      (w : World R U) (token : Bytes) (fs : List (Bytes × Bytes))
      → Idle w
      → value w (get_session_name token) ≡ a_hash fs
      → (check_auth (record { auth_token = token }) w).0 ≡ ok (auth_reply fs)
  unfolding check_auth call
  check_auth-hash w token fs idle at =
      rw (hget_all-hash w (get_session_name token) fs idle at, check_auth) refl

  pub check_auth-absent :
      (w : World R U) (token : Bytes)
      → Idle w
      → value w (get_session_name token) ≡ absent
      → (check_auth (record { auth_token = token }) w).0 ≡ ok (auth_reply [])
  unfolding check_auth call
  check_auth-absent w token idle at =
      rw (hget_all-absent w (get_session_name token) idle at, check_auth) refl

  -- The transaction of Login takes effect as a whole.
  pub save_login-saved :
      (session sess_map : Bytes) (u : User) (token : Bytes) (w : World R U)
      → Idle w
      → let r = save_login session sess_map u token w in
        (r.0 ≡ ok tt)
        × (H.view r.1.redis
            ≡ apply_all
                (hmset session (user_data u.id u.user_name)
                  ∷ expire session session_time
                  ∷ set sess_map token session_time
                  ∷ [])
                (H.view w.redis))
        × Idle r.1
  unfolding save_login call apply
  save_login-saved session sess_map u token w idle =
      let db1 = (R.run multi w.redis).1 in
      let v1 = H.applies multi w.redis idle in
      let c1 = hmset session (user_data u.id u.user_name) in
      let c2 = expire session session_time in
      let c3 = set sess_map token session_time in
      let (v2, q2) = H.queues c1 db1 [] (H.begins w.redis idle) (λ e. cc) (λ e. cc) in
      let db2 = (R.run c1 db1).1 in
      let (v3, q3) = H.queues c2 db2 (c1 ∷ []) q2 (λ e. cc) (λ e. cc) in
      let db3 = (R.run c2 db2).1 in
      let (v4, q4) = H.queues c3 db3 (c1 ∷ c2 ∷ []) q3 (λ e. cc) (λ e. cc) in
      let db4 = (R.run c3 db3).1 in
      let (a, v5, q5) = H.commits db4 (c1 ∷ c2 ∷ c3 ∷ []) q4 in
      rw a (refl, v5 ∙ ap (apply_all (c1 ∷ c2 ∷ c3 ∷ [])) (v4 ∙ v3 ∙ v2 ∙ v1), q5)

  -- Deleting the session of an older token keeps an absent key absent.
  logout_old-absent :
      (old k : Bytes) (w : World R U)
      → Idle w
      → value w k ≡ absent
      → let r = logout_old old w in (r.0 ≡ ok tt) × (value r.1 k ≡ absent) × Idle r.1
  unfolding logout_old call apply answer
  logout_old-absent old k w idle free = elim (Bool-cases (is_empty old)) [
    | inl none_old ↦ rw none_old (refl, free, idle)
    | inr some_old ↦
        let key = create_session_id old in
        rw some_old (
          rw (H.answers (del key) w.redis idle) (
            refl,
            rw (H.applies (del key) w.redis idle) (write_absent key k (H.view w.redis) free),
            H.stays (del key) w.redis idle (λ e. cc),
          ))
  ]

  pub login_user-session :
      (u : User) (token : Bytes) (w : World R U)
      → Idle w
      → value w (create_session_id token) ≡ absent
      → get_session_id_by_user_id u.id ≢ create_session_id token
      → let r = login_user u token w in
        (r.0 ≡ ok (record { code = success_reply_code; auth_token = token }))
        × (value r.1 (create_session_id token) ≡ a_hash (user_data u.id u.user_name))
        × Idle r.1
  unfolding login_user call apply
  login_user-session u token w idle free ne =
      let session = create_session_id token in
      let sess_map = get_session_id_by_user_id u.id in
      let looked = R.run (get sess_map) w.redis in
      let w1 : World R U = record w { redis = looked.1 } in
      let (ok1, free2, idle2) =
        logout_old-absent (string_of looked.0) session w1
          (H.stays (get sess_map) w.redis idle (λ e. cc))
          (ap (λ (d : Data). d session) (H.applies (get sess_map) w.redis idle) ∙ free) in
      let w2 = (logout_old (string_of looked.0) w1).1 in
      let (ok3, saved, idle3) = save_login-saved session sess_map u token w2 idle2 in
      let runs =
        and_then-ok (logout_old (string_of looked.0) w1) tt _ ok1
        ∙ and_then-ok (save_login session sess_map u token w2) tt _ ok3 in
      subst
        (λ (r : Result LoginResponse × World R U).
          (r.0 ≡ ok (record { code = success_reply_code; auth_token = token }))
          × (value r.1 session ≡ a_hash (user_data u.id u.user_name))
          × Idle r.1)
        (sym runs)
        (
          refl,
          ap (λ (d : Data). d session) saved
              ∙ saved-session session sess_map u token (H.view w2.redis) free2 ne,
          idle3,
        )

  -- On a healthy Redis with no open transaction, Login of a user that the table has, with the right
  -- password and a token whose session key is free and is not the user's session map key, answers
  -- success with the token, and CheckAuth of the token then answers success with the user's id and
  -- name.
  pub login-check_auth :
      (args : LoginRequest) (token : Bytes) (w : World R U)
      → Idle w
      → (check_have_user_name args.name w).id ≢ pos 0
      → args.password ≡ (check_have_user_name args.name w).password
      → value w (create_session_id token) ≡ absent
      → get_session_id_by_user_id (check_have_user_name args.name w).id ≢ create_session_id token
      → let r = login args token w in
        let u = check_have_user_name args.name w in
        (r.0 ≡ ok (record { code = success_reply_code; auth_token = token }))
        × ((check_auth (record { auth_token = token }) r.1).0
            ≡ ok (record { code = success_reply_code; user_id = u.id; user_name = u.user_name }))
  unfolding login get_session_name create_session_id
  login-check_auth args token w idle known password free ne =
      let u = check_have_user_name args.name w in
      let (done, saved, still) = login_user-session u token w idle free ne in
      rw (int_ne u.id (pos 0) known, password, str_eq_self u.password)
        (
          done,
          check_auth-hash (login_user u token w).1 token (user_data u.id u.user_name) still saved
              ∙ ap ok (auth_reply-user_data u.id u.user_name),
        )

  pub delete_session-absent :
      (uid : ℤ) (session : Bytes) (w : World R U)
      → Idle w
      → let r = delete_session uid session w in
        (r.0 ≡ ok tt) × (value r.1 session ≡ absent) × Idle r.1
  unfolding delete_session call apply
  delete_session-absent uid session w idle =
      let c1 = del (get_session_id_by_user_id uid) in
      let c2 = del (get_user_key (itoa uid)) in
      let idle1 = H.stays c1 w.redis idle (λ e. cc) in
      let db1 = (R.run c1 w.redis).1 in
      let idle2 = H.stays c2 db1 idle1 (λ e. cc) in
      let db2 = (R.run c2 db1).1 in
      rw
        (
          deleted H (get_session_id_by_user_id uid) w.redis idle,
          deleted H (get_user_key (itoa uid)) db1 idle1,
          deleted H session db2 idle2,
        )
        (
          refl,
          ap (λ (d : Data). d session) (H.applies (del session) db2 idle2)
              ∙ write_self session absent (H.view db2),
          H.stays (del session) db2 idle2 (λ e. cc),
        )

  -- On a healthy Redis with no open transaction, Logout of a token that has a session answers
  -- success, and CheckAuth of the token then answers FailReplyCode.
  pub logout-check_auth :
      (token : Bytes) (f : Bytes × Bytes) (fs : List (Bytes × Bytes)) (w : World R U)
      → Idle w
      → value w (get_session_name token) ≡ a_hash (f ∷ fs)
      → let r = logout (record { auth_token = token }) w in
        (r.0 ≡ ok (record { code = success_reply_code }))
        × ((check_auth (record { auth_token = token }) r.1).0
            ≡ ok (record { code = fail_reply_code; user_id = pos 0; user_name = [] }))
  unfolding logout logout_fields call auth_reply
  logout-check_auth token f fs w idle at =
      let session = get_session_name token in
      let w1 : World R U = record w { redis = (R.run (hget_all session) w.redis).1 } in
      let idle1 = H.stays (hget_all session) w.redis idle (λ e. cc) in
      let uid = atoi (field (codes "userId") (f ∷ fs)) in
      let (ok1, gone, idle2) = delete_session-absent uid session w1 idle1 in
      let reply : LogoutResponse = record { code = success_reply_code } in
      let runs = and_then-ok (delete_session uid session w1) tt (λ _. pure reply) ok1 in
      rw (hget_all-hash w session (f ∷ fs) idle at) (
        subst
          (λ (r : Result LogoutResponse × World R U).
            (r.0 ≡ ok reply)
            × ((check_auth (record { auth_token = token }) r.1).0 ≡ ok (auth_reply [])))
          (sym runs) (refl, check_auth-absent (delete_session uid session w1).1 token idle2 gone))
