-- ===== src/Logic/Account/Renewed.antt =====
-- Login of logic/rpc.go for a user that is logged in already.
use mathlib.Core.Path.{subst}
use zhibo.Prelude.{
  pos, int_ne, Bytes, is_empty, str_eq_self, false, Option, none, some, List, [], ◌∷◌, ◌≡◌, ◌≢◌,
  refl, sym, ap, ◌∙◌, if◌then◌else◌, Bool-cases, inl, inr,
}
use zhibo.Proto.{LoginRequest, LoginResponse, success_reply_code, fail_reply_code}
use zhibo.Logic.Exec.{Result, ok, and_then-ok}
use zhibo.Logic.Redis.{
  Redis, Command, hmset, expire, set, get, del, exec, err_of, string_of, Value, Data, absent,
  a_text, apply, apply_all, answer, write, put_fields, to_hash, text_reply, text, nil, IsHealthy,
}
use zhibo.Logic.Keys.{create_session_id, get_session_id_by_user_id, get_session_name}
use zhibo.Logic.World.{User, Users, World, call, check, check_have_user_name}
use zhibo.Logic.Account.{
  session_time, user_data, auth_reply, logout_old, save_login, login_user, login, check_auth,
}
use zhibo.Logic.Account.Saved.{write_self, write_ne}
use zhibo.Logic.Account.Sessions.{save_login-saved, check_auth-absent}

-- The data without the session of an older token.
abbrev forget : Bytes → Data → Data
forget old d = if is_empty old then d else write (create_session_id old) absent d

-- What Login writes.
abbrev commands : User → Bytes → List Command
commands u token =
    hmset (create_session_id token) (user_data u.id u.user_name)
    ∷ expire (create_session_id token) session_time
    ∷ set (get_session_id_by_user_id u.id) token session_time
    ∷ []

-- Login leaves the keys alone that are not its own, and notes the token for the user.
commands-other :
    (u : User) (token key : Bytes) (d : Data)
    → get_session_id_by_user_id u.id ≢ key
    → create_session_id token ≢ key
    → apply_all (commands u token) d key ≡ d key
unfolding apply_all apply
commands-other u token key d apart_map apart =
    let session = create_session_id token in
    let v = to_hash (put_fields (user_data u.id u.user_name)) (d session) in
    write_ne (get_session_id_by_user_id u.id) key (a_text token) (write session v d) apart_map
    ∙ write_ne session key v d apart

commands-map :
    (u : User) (token : Bytes) (d : Data)
    → apply_all (commands u token) d (get_session_id_by_user_id u.id) ≡ a_text token
unfolding apply_all apply
commands-map u token d =
    let session = create_session_id token in
    let v = to_hash (put_fields (user_data u.id u.user_name)) (d session) in
    write_self (get_session_id_by_user_id u.id) (a_text token) (write session v d)

forget-gone :
    (token : Bytes) (d : Data)
    → is_empty token ≡ false
    → forget token d (create_session_id token) ≡ absent
forget-gone token d some_token = rw some_token (write_self (create_session_id token) absent d)

-- After the first token was noted, Login with a second one forgets the first one's session.
renewed-view :
    (u : User) (first second : Bytes) (d : Data)
    → is_empty first ≡ false
    → create_session_id second ≢ create_session_id first
    → get_session_id_by_user_id u.id ≢ create_session_id first
    → d (get_session_id_by_user_id u.id) ≡ a_text first
    → apply_all
        (commands u second)
        (forget (string_of (answer (get (get_session_id_by_user_id u.id)) d)) d)
        (create_session_id first)
      ≡ absent
unfolding answer
renewed-view u first second d some_token apart apart_map at =
    let key = create_session_id first in
    let sess_map = get_session_id_by_user_id u.id in
    commands-other u second key (forget (string_of (answer (get sess_map) d)) d) apart_map apart
    ∙ ap (λ (v : Value). forget (string_of (text_reply text nil v)) d key) at
    ∙ forget-gone first d some_token

pub check-state {ℓ} : {S : Type ℓ} (o : Option Bytes) (s : S) → (check o s).1 ≡ s
check-state none s = refl
check-state (some e) s = refl

module _ {R : Redis} {U : Users} (H : IsHealthy R) where
  logout_old-view :
      (old : Bytes) (w : World R U)
      → H.queued w.redis ≡ none
      → let r = logout_old old w in
        (r.0 ≡ ok tt)
        × (H.view r.1.redis ≡ forget old (H.view w.redis))
        × (H.queued r.1.redis ≡ none)
        × (r.1.users ≡ w.users)
  unfolding logout_old call answer apply
  logout_old-view old w idle = elim (Bool-cases (is_empty old)) [
    | inl none_old ↦ rw none_old (refl, refl, idle, refl)
    | inr some_old ↦
        let key = create_session_id old in
        rw some_old (
          rw (H.answers (del key) w.redis idle) (
            refl,
            H.applies (del key) w.redis idle,
            H.stays (del key) w.redis idle (λ e. cc),
            refl,
          ))
  ]

  save_login-users :
      (session sess_map : Bytes) (u : User) (token : Bytes) (w : World R U)
      → (save_login session sess_map u token w).1.users ≡ w.users
  unfolding save_login call
  save_login-users session sess_map u token w =
      ap (λ (s : World R U). s.users) (check-state (err_of (R.run exec _).0) _)

  -- Login of a user, as one change of the data.
  login_user-view :
      (u : User) (token : Bytes) (w : World R U)
      → H.queued w.redis ≡ none
      → let r = login_user u token w in
        let old = string_of (answer (get (get_session_id_by_user_id u.id)) (H.view w.redis)) in
        (r.0 ≡ ok (record { code = success_reply_code; auth_token = token }))
        × (H.view r.1.redis ≡ apply_all (commands u token) (forget old (H.view w.redis)))
        × (H.queued r.1.redis ≡ none)
        × (r.1.users ≡ w.users)
  unfolding login_user call
  login_user-view u token w idle =
      let session = create_session_id token in
      let sess_map = get_session_id_by_user_id u.id in
      let looked = R.run (get sess_map) w.redis in
      let w1 : World R U = record w { redis = looked.1 } in
      let idle1 = H.stays (get sess_map) w.redis idle (λ e. cc) in
      let old = string_of looked.0 in
      let (ok1, view1, idle2, users1) = logout_old-view old w1 idle1 in
      let w2 = (logout_old old w1).1 in
      let (ok2, view2, idle3) = save_login-saved H session sess_map u token w2 idle2 in
      let runs =
        and_then-ok (logout_old old w1) tt _ ok1
        ∙ and_then-ok (save_login session sess_map u token w2) tt _ ok2 in
      let same_view : H.view looked.1 ≡ H.view w.redis =
        unfold apply in H.applies (get sess_map) w.redis idle in
      let same_old = H.answers (get sess_map) w.redis idle in
      subst
        (λ (r : Result LoginResponse × World R U).
          (r.0 ≡ ok (record { code = success_reply_code; auth_token = token }))
          × (H.view r.1.redis
              ≡ apply_all (commands u token)
                  (forget (string_of (answer (get sess_map) (H.view w.redis))) (H.view w.redis)))
          × (H.queued r.1.redis ≡ none)
          × (r.1.users ≡ w.users))
        (sym runs)
        (
          refl,
          view2
              ∙ ap (apply_all (commands u token)) (
                  view1
                  ∙ ap (λ (d : Data). forget old d) same_view
                  ∙ ap (λ (o : Bytes). forget o (H.view w.redis)) (ap string_of same_old)),
          idle3,
          save_login-users session sess_map u token w2 ∙ users1,
        )

  pub login-login_user :
      (args : LoginRequest) (token : Bytes) (w : World R U)
      → (check_have_user_name args.name w).id ≢ pos 0
      → args.password ≡ (check_have_user_name args.name w).password
      → login args token w ≡ login_user (check_have_user_name args.name w) token w
  unfolding login
  login-login_user args token w known password =
      let u = check_have_user_name args.name w in
      rw (int_ne u.id (pos 0) known, password, str_eq_self u.password) refl

  -- On a healthy Redis with no open transaction: when a user logs in, with the right password, and
  -- logs in again with another token, the second Login answers success, and CheckAuth of the first
  -- token, which is not empty, then answers FailReplyCode: a user has one session. The session keys
  -- of the two tokens and the user's session map key are different keys.
  pub login-login :
      (args : LoginRequest) (first second : Bytes) (w : World R U)
      → H.queued w.redis ≡ none
      → (check_have_user_name args.name w).id ≢ pos 0
      → args.password ≡ (check_have_user_name args.name w).password
      → is_empty first ≡ false
      → create_session_id second ≢ create_session_id first
      → get_session_id_by_user_id (check_have_user_name args.name w).id ≢ create_session_id first
      → let r = login args second (login args first w).1 in
        (r.0 ≡ ok (record { code = success_reply_code; auth_token = second }))
        × ((check_auth (record { auth_token = first }) r.1).0
            ≡ ok (record { code = fail_reply_code; user_id = pos 0; user_name = [] }))
  unfolding check_have_user_name auth_reply create_session_id get_session_name
  login-login args first second w idle known password some_token apart apart_map =
      let u = check_have_user_name args.name w in
      let sess_map = get_session_id_by_user_id u.id in
      let (_, view1, idle1, users1) = login_user-view u first w idle in
      let w1 = (login_user u first w).1 in
      let same_user : check_have_user_name args.name w1 ≡ u = ap (U.by_name args.name) users1 in
      let (ok2, view2, idle2, _) = login_user-view u second w1 idle1 in
      let noted : H.view w1.redis sess_map ≡ a_text first =
        ap (λ (d : Data). d sess_map) view1
        ∙ commands-map u first
            (forget (string_of (answer (get sess_map) (H.view w.redis))) (H.view w.redis)) in
      let gone : H.view (login_user u second w1).1.redis (create_session_id first) ≡ absent =
        ap (λ (d : Data). d (create_session_id first)) view2
        ∙ renewed-view u first second (H.view w1.redis) some_token apart apart_map noted in
      let known1 : (check_have_user_name args.name w1).id ≢ pos 0 =
        λ e. known (sym (ap (λ (v : User). v.id) same_user) ∙ e) in
      let password1 = password ∙ sym (ap (λ (v : User). v.password) same_user) in
      let runs : login args second (login args first w).1 ≡ login_user u second w1 =
        ap (λ (r : Result LoginResponse × World R U). login args second r.1)
          (login-login_user args first w known password)
        ∙ login-login_user args second w1 known1 password1
        ∙ ap (λ (v : User). login_user v second w1) same_user in
      subst
        (λ (r : Result LoginResponse × World R U).
          (r.0 ≡ ok (record { code = success_reply_code; auth_token = second }))
          × ((check_auth (record { auth_token = first }) r.1).0
              ≡ ok (record { code = fail_reply_code; user_id = pos 0; user_name = [] })))
        (sym runs) (ok2, check_auth-absent H (login_user u second w1).1 first idle2 gone)
