-- ===== src/Logic/Room/Counting.antt =====
-- What DisConnect of logic/rpc.go does to the count of a room's users.
use mathlib.Core.Path.{subst}
use zhibo.Prelude.{
  ℕ, suc, ℤ, pos, dec, inc, is_empty, is_nonpos, int_eq, Bytes, str_eq, str_eq_self, itoa, true,
  false, none, ◌≡◌, ◌≢◌, refl, sym, ap, ◌∙◌, Bool-cases, inl, inr,
}
use zhibo.Prelude.Decimal.{atoi, atoi-itoa}
use zhibo.Proto.{DisConnectRequest, RedisMsg, queue_name}
use zhibo.Logic.Exec.{Result, ok, err, and_then-ok, and_then}
use zhibo.Logic.Redis.{
  Redis, Value, Data, a_text, get, hget, hset, decr, hdel, hget_all, publish, err_of, string_of,
  text_reply, text, nil, answer, apply, to_count, is_integer, IsHealthy,
}
use zhibo.Logic.Keys.{get_room_user_key, get_room_online_count_key}
use zhibo.Logic.World.{Users, World, call, check, publish_msg, redis_publish_room_info}
use zhibo.Logic.Account.Saved.{write_self, write_ne}
use zhibo.Logic.Account.Renewed.{check-state}
use zhibo.Logic.Room.{int_of, count_down, enter_room, leave_room, dis_connect}
use zhibo.Logic.Room.Online.{counted, enter_room-new}

abbrev count_key : ℤ → Bytes
count_key rid = get_room_online_count_key (itoa rid)

to_count-itoa : (f : ℤ → ℤ) (a : ℤ) → to_count f (a_text (itoa a)) ≡ a_text (itoa (f a))
to_count-itoa f a =
    let integer : is_integer (itoa a) ≡ true =
      ap (λ i. str_eq (itoa i) (itoa a)) (atoi-itoa a) ∙ str_eq_self (itoa a) in
    rw integer (ap (λ i. a_text (itoa (f i))) (atoi-itoa a))

decr-count :
    (k : Bytes) (n : ℕ) (d : Data)
    → d k ≡ a_text (itoa (pos (suc n)))
    → apply (decr k) d k ≡ a_text (itoa (pos n))
unfolding apply
decr-count k n d at =
    write_self k (to_count dec (d k)) d ∙ ap (to_count dec) at ∙ to_count-itoa dec (pos (suc n))

-- To enter a user adds one to the count.
counted-count :
    (key : Bytes) (rid uid : ℤ) (name : Bytes) (n : ℕ) (d : Data)
    → key ≢ count_key rid
    → d (count_key rid) ≡ a_text (itoa (pos n))
    → counted key rid uid name d (count_key rid) ≡ a_text (itoa (pos (suc n)))
unfolding apply
counted-count key rid uid name n d apart at =
    let k = count_key rid in
    let d' = apply (hset key (itoa uid) name) d in
    write_self k (to_count inc (d' k)) d'
    ∙ ap (to_count inc) (write_ne key k _ d apart ∙ at)
    ∙ to_count-itoa inc (pos n)

module _ {R : Redis} {U : Users} (H : IsHealthy R) where
  count_down-view :
      (rid : ℤ) (n : ℕ) (w : World R U)
      → H.queued w.redis ≡ none
      → is_nonpos rid ≡ false
      → H.view w.redis (count_key rid) ≡ a_text (itoa (pos (suc n)))
      → let r = count_down rid w in
        (r.0 ≡ ok tt)
        × (H.view r.1.redis (count_key rid) ≡ a_text (itoa (pos n)))
        × (H.queued r.1.redis ≡ none)
  unfolding count_down call answer int_of
  count_down-view rid n w idle positive at =
      let k = count_key rid in
      let db1 = (R.run (get k) w.redis).1 in
      let idle1 = H.stays (get k) w.redis idle (λ e. cc) in
      let same : H.view db1 ≡ H.view w.redis = unfold apply in H.applies (get k) w.redis idle in
      let found = H.answers (get k) w.redis idle ∙ ap (λ (x : Value). text_reply text nil x) at in
      let counted : is_nonpos (atoi (itoa (pos (suc n)))) ≡ false =
        ap is_nonpos (atoi-itoa (pos (suc n))) in
      rw positive (
        rw found (
          rw counted (
            refl,
            ap (λ (d : Data). d k) (H.applies (decr k) db1 idle1)
                ∙ decr-count k n (H.view db1) (ap (λ (d : Data). d k) same ∙ at),
            H.stays (decr k) db1 idle1 (λ e. cc),
          )))

  leave_room-view :
      (key : Bytes) (uid : ℤ) (k : Bytes) (w : World R U)
      → H.queued w.redis ≡ none
      → key ≢ k
      → let r = leave_room key uid w in
        (r.0 ≡ ok tt) × (H.view r.1.redis k ≡ H.view w.redis k) × (H.queued r.1.redis ≡ none)
  unfolding leave_room call apply
  leave_room-view key uid k w idle apart = elim (Bool-cases (int_eq uid (pos 0))) [
    | inl nobody ↦ rw nobody (refl, refl, idle)
    | inr somebody ↦
        let c = hdel key (itoa uid) in
        rw somebody (
          refl,
          ap (λ (d : Data). d k) (H.applies c w.redis idle)
              ∙ write_ne key k _ (H.view w.redis) apart,
          H.stays c w.redis idle (λ e. cc),
        )
  ]

  -- A message that is published changes no key.
  marshalled-view :
      (r : Result Bytes) (w : World R U)
      → H.queued w.redis ≡ none
      → let s =
          and_then {B = Unit {0}}
            (r, w)
            (λ body v.
              and_then (call (publish queue_name body) v) (λ reply. check (err_of reply))) in
        (H.view s.1.redis ≡ H.view w.redis) × (H.queued s.1.redis ≡ none)
  unfolding call
  marshalled-view (err e) w idle = (refl, idle)
  marshalled-view (ok body) w idle =
      let c = publish queue_name body in
      let same : H.view (R.run c w.redis).1 ≡ H.view w.redis =
        unfold apply in H.applies c w.redis idle in
      let w1 : World R U = record w { redis = (R.run c w.redis).1 } in
      let kept = check-state (err_of (R.run c w.redis).0) w1 in
      (
        ap (λ (v : World R U). H.view v.redis) kept ∙ same,
        ap (λ (v : World R U). H.queued v.redis) kept ∙ H.stays c w.redis idle (λ e. cc),
      )

  module _ (marshal : RedisMsg → Result Bytes) where
    publish_msg-view :
        (m : RedisMsg) (w : World R U)
        → H.queued w.redis ≡ none
        → (H.view (publish_msg marshal m w).1.redis ≡ H.view w.redis)
          × (H.queued (publish_msg marshal m w).1.redis ≡ none)
    unfolding publish_msg
    publish_msg-view m w idle = marshalled-view (marshal m) w idle

    dis_connect-count :
        (args : DisConnectRequest) (n : ℕ) (w : World R U)
        → H.queued w.redis ≡ none
        → is_nonpos args.room_id ≡ false
        → get_room_user_key (itoa args.room_id) ≢ count_key args.room_id
        → H.view w.redis (count_key args.room_id) ≡ a_text (itoa (pos (suc n)))
        → let r = dis_connect marshal args w in
          (H.view r.1.redis (count_key args.room_id) ≡ a_text (itoa (pos n)))
          × (H.queued r.1.redis ≡ none)
    unfolding dis_connect call redis_publish_room_info
    dis_connect-count args n w idle positive apart at =
        let rid = args.room_id in
        let k = count_key rid in
        let key = get_room_user_key (itoa rid) in
        let (ok1, counted, idle1) = count_down-view rid n w idle positive at in
        let w1 = (count_down rid w).1 in
        let (ok2, kept, idle2) = leave_room-view key args.user_id k w1 idle1 apart in
        let w2 = (leave_room key args.user_id w1).1 in
        let c = hget_all key in
        let idle3 = H.stays c w2.redis idle2 (λ e. cc) in
        let same : H.view (R.run c w2.redis).1 ≡ H.view w2.redis =
          unfold apply in H.applies c w2.redis idle2 in
        let w3 : World R U = record w2 { redis = (R.run c w2.redis).1 } in
        let (shown, idle4) = publish_msg-view _ w3 idle3 in
        let runs =
          and_then-ok (count_down rid w) tt _ ok1
          ∙ and_then-ok (leave_room key args.user_id w1) tt _ ok2 in
        subst
          (λ (r : Result (Unit {0}) × World R U).
            (H.view r.1.redis k ≡ a_text (itoa (pos n))) × (H.queued r.1.redis ≡ none))
          (sym runs) (ap (λ (d : Data). d k) (shown ∙ same) ∙ kept ∙ counted, idle4)

    -- On a healthy Redis with no open transaction: two calls of DisConnect for one user and one room,
    -- whose count is at least two, lower the count by two, whether the user is in the room's hash or
    -- not. The room has a positive id, and the keys of its hash and of its count are different keys.
    pub dis_connect-dis_connect :
        (args : DisConnectRequest) (n : ℕ) (w : World R U)
        → H.queued w.redis ≡ none
        → is_nonpos args.room_id ≡ false
        → get_room_user_key (itoa args.room_id) ≢ get_room_online_count_key (itoa args.room_id)
        → H.view w.redis (get_room_online_count_key (itoa args.room_id))
          ≡ a_text (itoa (pos (suc (suc n))))
        → let r = (dis_connect marshal args (dis_connect marshal args w).1).1 in
          H.view r.redis (get_room_online_count_key (itoa args.room_id)) ≡ a_text (itoa (pos n))
    dis_connect-dis_connect args n w idle positive apart at =
        let (once, still) = dis_connect-count args (suc n) w idle positive apart at in
        (dis_connect-count args n (dis_connect marshal args w).1 still positive apart once).0

    -- On a healthy Redis with no open transaction: a user that the room's hash does not have is
    -- entered, and DisConnect then leaves the room's count, a number from 0 on, as it was before. The
    -- room has a positive id, and the keys of its hash and of its count are different keys.
    pub enter_room-dis_connect :
        (args : DisConnectRequest) (name : Bytes) (n : ℕ) (w : World R U)
        → H.queued w.redis ≡ none
        → is_nonpos args.room_id ≡ false
        → get_room_user_key (itoa args.room_id) ≢ get_room_online_count_key (itoa args.room_id)
        → is_empty (
            string_of (
              answer
                (hget (get_room_user_key (itoa args.room_id)) (itoa args.user_id))
                (H.view w.redis)))
          ≡ true
        → H.view w.redis (get_room_online_count_key (itoa args.room_id)) ≡ a_text (itoa (pos n))
        → let key = get_room_user_key (itoa args.room_id) in
          let r = (enter_room key args.room_id args.user_id name w).1 in
          (H.view r.redis (get_room_online_count_key (itoa args.room_id))
            ≡ a_text (itoa (pos (suc n))))
          × (H.view
                (dis_connect marshal args r).1.redis
                (get_room_online_count_key (itoa args.room_id))
              ≡ a_text (itoa (pos n)))
    enter_room-dis_connect args name n w idle positive apart unknown at =
        let key = get_room_user_key (itoa args.room_id) in
        let k = count_key args.room_id in
        let r = (enter_room key args.room_id args.user_id name w).1 in
        let (_, seen, still) = enter_room-new H key args.room_id args.user_id name w idle unknown in
        let entered : H.view r.redis k ≡ a_text (itoa (pos (suc n))) =
          ap (λ (d : Data). d k) seen
          ∙ counted-count key args.room_id args.user_id name n (H.view w.redis) apart at in
        (entered, (dis_connect-count args n r still positive apart entered).0)
