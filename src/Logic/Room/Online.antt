-- ===== src/Logic/Room/Online.antt =====
-- The part of Connect in logic/rpc.go that enters a user into a room's hash and counts it.
use zhibo.Prelude.{
  ℕ, ℤ, Bytes, is_empty, str_eq, str_eq_self, itoa, Bool, true, false, Option, none, some, List, [],
  ◌∷◌, ◌≡◌, ◌≢◌, refl, ap, ◌∙◌, Bool-cases, inl, inr,
}
use zhibo.Logic.Exec.{ok}
use zhibo.Logic.Redis.{
  Redis, Reply, hget, hset, incr, string_of, find_field, put_field, Data, Value, absent, a_text,
  a_hash, hash_of, to_hash, hash_reply, field_reply, apply, answer, write, IsHealthy,
}
use zhibo.Logic.Keys.{get_room_online_count_key}
use zhibo.Logic.World.{Users, World, call}
use zhibo.Logic.Account.Saved.{write_self, write_ne}
use zhibo.Logic.Room.{enter_room}

find_field-put_field :
    (f v : Bytes) (fs : List (Bytes × Bytes)) → find_field f (put_field f v fs) ≡ some v
unfolding find_field put_field
find_field-put_field f v [] = rw (str_eq_self f) refl
find_field-put_field f v ((j, x) ∷ fs) = elim (Bool-cases (str_eq j f)) [
  | inl same ↦ rw (same, same) refl
  | inr other ↦ rw (other, other) (find_field-put_field f v fs)
]

hash_reply-hash_of :
    (g : List (Bytes × Bytes) → Reply) (fs : List (Bytes × Bytes))
    → hash_reply g (hash_of fs) ≡ g fs
hash_reply-hash_of g [] = refl
hash_reply-hash_of g (f ∷ fs) = refl

read_back :
    (f : Bytes) (c : ℕ) (t : Bytes) (fs : List (Bytes × Bytes))
    → string_of
        (hash_reply (λ gs. field_reply (find_field f gs)) (hash_of (put_field f (c ∷ t) fs)))
      ≡ c ∷ t
read_back f c t fs =
    ap string_of (hash_reply-hash_of (λ gs. field_reply (find_field f gs)) (put_field f (c ∷ t) fs))
    ∙ ap (λ (v : Option Bytes). string_of (field_reply v)) (find_field-put_field f (c ∷ t) fs)

-- The field that HSet wrote is read back.
hget-hset :
    (f : Bytes) (c : ℕ) (t : Bytes) (x : Value)
    → ((b : Bytes) → x ≢ a_text b)
    → string_of (hash_reply (λ fs. field_reply (find_field f fs)) (to_hash (put_field f (c ∷ t)) x))
      ≡ c ∷ t
hget-hset f c t absent hash = read_back f c t []
hget-hset f c t (a_text b) hash = absurd (hash b refl)
hget-hset f c t (a_hash fs) hash = read_back f c t fs

-- HSet and Incr of a user that the room's hash does not have, on the data of Redis.
abbrev pub counted : Bytes → ℤ → ℤ → Bytes → Data → Data
counted key rid uid name d =
    apply (incr (get_room_online_count_key (itoa rid))) (apply (hset key (itoa uid) name) d)

hget-counted :
    (key : Bytes) (rid uid : ℤ) (c : ℕ) (t : Bytes) (d : Data)
    → ((b : Bytes) → d key ≢ a_text b)
    → get_room_online_count_key (itoa rid) ≢ key
    → string_of (answer (hget key (itoa uid)) (counted key rid uid (c ∷ t) d)) ≡ c ∷ t
unfolding answer apply
hget-counted key rid uid c t d hash apart =
    let f = itoa uid in
    ap (λ (v : Value). string_of (hash_reply (λ fs. field_reply (find_field f fs)) v))
      (write_ne (get_room_online_count_key (itoa rid)) key _
          (write key (to_hash (put_field f (c ∷ t)) (d key)) d) apart
        ∙ write_self key (to_hash (put_field f (c ∷ t)) (d key)) d)
    ∙ hget-hset f c t (d key) hash

module _ {R : Redis} {U : Users} (H : IsHealthy R) where
  enter_room-known :
      (key : Bytes) (rid uid : ℤ) (name : Bytes) (w : World R U)
      → H.queued w.redis ≡ none
      → is_empty (string_of (answer (hget key (itoa uid)) (H.view w.redis))) ≡ false
      → let r = enter_room key rid uid name w in
        (r.0 ≡ ok tt) × (H.view r.1.redis ≡ H.view w.redis) × (H.queued r.1.redis ≡ none)
  unfolding enter_room call apply
  enter_room-known key rid uid name w idle known =
      let q = hget key (itoa uid) in
      rw (H.answers q w.redis idle)
        (rw known (refl, H.applies q w.redis idle, H.stays q w.redis idle (λ e. cc)))

  pub enter_room-new :
      (key : Bytes) (rid uid : ℤ) (name : Bytes) (w : World R U)
      → H.queued w.redis ≡ none
      → is_empty (string_of (answer (hget key (itoa uid)) (H.view w.redis))) ≡ true
      → let r = enter_room key rid uid name w in
        (r.0 ≡ ok tt)
        × (H.view r.1.redis ≡ counted key rid uid name (H.view w.redis))
        × (H.queued r.1.redis ≡ none)
  unfolding enter_room call
  enter_room-new key rid uid name w idle unknown =
      let q = hget key (itoa uid) in
      let c1 = hset key (itoa uid) name in
      let c2 = incr (get_room_online_count_key (itoa rid)) in
      let db1 = (R.run q w.redis).1 in
      let idle1 = H.stays q w.redis idle (λ e. cc) in
      let db2 = (R.run c1 db1).1 in
      let idle2 = H.stays c1 db1 idle1 (λ e. cc) in
      rw (H.answers q w.redis idle) (
        rw unknown (
          refl,
          H.applies c2 db2 idle2
              ∙ ap (apply c2) (
                  H.applies c1 db1 idle1
                  ∙ ap (apply c1) (unfold apply in H.applies q w.redis idle)),
          H.stays c2 db2 idle2 (λ e. cc),
        ))

  -- On a healthy Redis with no open transaction, where the room's key is not that of a text and not
  -- that of the room's count: to enter a user with a name that is not empty once more, after it was
  -- entered, succeeds and changes nothing, so that the user is counted once.
  pub enter_room-twice :
      (key : Bytes) (rid uid : ℤ) (c : ℕ) (t : Bytes) (w : World R U)
      → H.queued w.redis ≡ none
      → ((b : Bytes) → H.view w.redis key ≢ a_text b)
      → get_room_online_count_key (itoa rid) ≢ key
      → let r = (enter_room key rid uid (c ∷ t) w).1 in
        ((enter_room key rid uid (c ∷ t) r).0 ≡ ok tt)
        × (H.view (enter_room key rid uid (c ∷ t) r).1.redis ≡ H.view r.redis)
  enter_room-twice key rid uid c t w idle hash apart =
      let reads : Data → Bool = λ d. is_empty (string_of (answer (hget key (itoa uid)) d)) in
      let r = (enter_room key rid uid (c ∷ t) w).1 in
      let again : H.queued r.redis ≡ none
          → reads (H.view r.redis) ≡ false
          → ((enter_room key rid uid (c ∷ t) r).0 ≡ ok tt)
            × (H.view (enter_room key rid uid (c ∷ t) r).1.redis ≡ H.view r.redis) =
        λ still known. let a = enter_room-known key rid uid (c ∷ t) r still known in (a.0, a.1) in
      elim (Bool-cases (reads (H.view w.redis))) [
        | inl unknown ↦
            let (_, seen, still) = enter_room-new key rid uid (c ∷ t) w idle unknown in
            again still (
              ap reads seen
              ∙ ap is_empty (hget-counted key rid uid c t (H.view w.redis) hash apart))
        | inr known ↦
            let (_, seen, still) = enter_room-known key rid uid (c ∷ t) w idle known in
            again still (ap reads seen ∙ known)
      ]
