-- ===== src/Connect/Session/Whole/Rejoined.antt =====
-- readPump of connect/server.go takes a second join of one websocket; DeleteChannel of
-- connect/bucket.go then looks the moved channel's user up in a bucket that has no such user.
use zhibo.Prelude.{
  ℕ, zero, suc, List, [], ◌∷◌, ℤ, pos, int_eq, int_eq_iff, Bytes, Bool, Bool-cases, false, Option,
  Option-cases, none, some, ◌≡◌, refl, sym, ap, ◌∙◌, inl, inr, arith, get_elem?, set, ◌==◌,
  if◌then◌else◌, update, update_key,
}
use zhibo.Connect.Heap.{Ptr, Heap}
use zhibo.Connect.Bucket.{
  Bucket, done, panics, no_room, register, register_when, find_room, open_room, set_user, set_room,
  enter_room, put, delete_channel, delete_known, delete_found,
}
use zhibo.Connect.Server.{Server, State, index, at_index, bucket}
use zhibo.Connect.Session.{LogicClient, crash, put_at, delete_at, disconnected, close_in, close}
use zhibo.Connect.Session.Whole.Ended.{room_put-user, put-Noted, bucket-set}

-- What a Put leaves as it is: the other channels' user and Room, and the other users' entries.
record Kept (uid : ℤ) (ch : Ptr) (b b' : Bucket) (h h' : Heap) : Type 0 where
  user : (y : Ptr) → (y == ch) ≡ false → (h'.channels y).user_id ≡ (h.channels y).user_id
  room : (y : Ptr) → (y == ch) ≡ false → (h'.channels y).room ≡ (h.channels y).room
  online : (v : ℤ) → int_eq v uid ≡ false → b'.chs v ≡ b.chs v

register-Kept :
    (uid rid : ℤ) (ch : Ptr) (b : Bucket) (h : Heap)
    → let (o, b', h') = register uid rid ch b h in
      Kept uid ch b b' h h' × (b'.chs uid ≡ some ch) × ((h'.channels ch).user_id ≡ uid)
unfolding register register_when find_room open_room set_user set_room update update_key
register-Kept uid rid ch b h = elim (Bool-cases (int_eq rid no_room)) [
  | inl nowhere ↦ rw (nowhere) (
    record { user = λ y e. ground arith; room = λ y e. ground arith; online = λ v e. ground arith },
    ground (arith, int_eq_iff uid uid),
    ground arith,
  )
  | inr a_room ↦ rw (a_room) (elim (Option-cases (b.rooms rid)) [
    | inl absent ↦ rw (absent) (
      record {
        user = λ y e. ground arith;
        room = λ y e. ground arith;
        online = λ v e. ground arith;
      },
      ground (arith, int_eq_iff uid uid),
      ground arith,
    )
    | inr (r, at) ↦ rw (at) (
      record {
        user = λ y e. ground arith;
        room = λ y e. ground arith;
        online = λ v e. ground arith;
      },
      ground (arith, int_eq_iff uid uid),
      ground arith,
    )
  ])
]

enter_room-Kept :
    (uid : ℤ) (ch : Ptr) (o : Option Ptr) (b a : Bucket) (h g : Heap)
    → Kept uid ch a b g h
    → b.chs uid ≡ some ch
    → (h.channels ch).user_id ≡ uid
    → let (b', h', e) = enter_room ch (o, b, h) in
      Kept uid ch a b' g h' × (b'.chs uid ≡ some ch) × ((h'.channels ch).user_id ≡ uid)
unfolding enter_room
enter_room-Kept uid ch none b a h g kept online user = (kept, online, user)
enter_room-Kept uid ch (some r) b a h g kept online user = (
  record {
    user = λ y e. (room_put-user r ch y h).0 ∙ kept.user y e;
    room = λ y e. (room_put-user r ch y h).1 ∙ kept.room y e;
    online = kept.online;
  },
  online,
  (room_put-user r ch ch h).0 ∙ user,
)

put-Kept :
    (uid rid : ℤ) (ch : Ptr) (b : Bucket) (h : Heap)
    → let (b', h', e) = put uid rid ch b h in
      Kept uid ch b b' h h' × (b'.chs uid ≡ some ch) × ((h'.channels ch).user_id ≡ uid)
unfolding put
put-Kept uid rid ch b h =
    let (o, b', h') = register uid rid ch b h in
    let (kept, online, user) = register-Kept uid rid ch b h in
    enter_room-Kept uid ch o b' b h' h kept online user

-- The bucket of a user stays where another bucket is replaced.
at_index-get :
    (hash : Bytes → ℕ → ℕ) (k i : ℕ) (b : Bucket) (o : Option Bucket)
    → at_index hash k o ≡ done (i, b)
    → k ≡ i
unfolding at_index
at_index-get hash k i b none e = cc (e)
at_index-get hash k i b (some c) e = cc (e)

get_elem?-set_other :
    (bs : List Bucket) (j k : ℕ) (c : Bucket)
    → (j == k) ≡ false
    → get_elem? (set bs j c) k ≡ get_elem? bs k
get_elem?-set_other [] j k c apart = refl
get_elem?-set_other (x ∷ bs) zero zero c apart = cc (apart)
get_elem?-set_other (x ∷ bs) zero (suc k) c apart = refl
get_elem?-set_other (x ∷ bs) (suc j) zero c apart = refl
get_elem?-set_other (x ∷ bs) (suc j) (suc k) c apart =
    get_elem?-set_other bs j k c (ground (arith, apart))

bucket-other :
    (hash : Bytes → ℕ → ℕ) (uid : ℤ) (s : Server) (i j : ℕ) (b c : Bucket)
    → bucket hash uid s ≡ done (i, b)
    → (j == i) ≡ false
    → bucket hash uid (record s { buckets = set s.buckets j c }) ≡ done (i, b)
unfolding bucket index
bucket-other hash uid s i j b c found apart = elim (Bool-cases (s.bucket_idx == 0)) [
  | inl zero_buckets ↦ ground (arith, zero_buckets, found)
  | inr some_bucket ↦
      let k = index hash uid s in
      let at : at_index hash k (get_elem? s.buckets k) ≡ done (i, b) =
        ap (λ (t : Bool). if t then panics else at_index hash k (get_elem? s.buckets k))
          (sym some_bucket)
        ∙ found in
      let same = at_index-get hash k i b (get_elem? s.buckets k) at in
      rw some_bucket (
        ap (at_index hash k) (get_elem?-set_other s.buckets j k c (ground (arith, same, apart)))
        ∙ at)
]

-- DeleteChannel of a channel whose user the map has for another channel, which has moved on to a user
-- that the map does not have.
delete_channel-moved :
    (x y : Ptr) (u v : ℤ) (b : Bucket) (h : Heap)
    → (h.channels y).user_id ≡ u
    → b.chs u ≡ some x
    → (h.channels x).user_id ≡ v
    → b.chs v ≡ none
    → delete_channel y b h ≡ panics
unfolding delete_channel delete_known delete_found
delete_channel-moved x y u v b h user online moved absent =
    ap (λ o. delete_known o b h) (ap b.chs user ∙ online)
    ∙ ap (λ o. delete_found o x b h) (ap b.chs moved ∙ absent)

module _ {W : Type 0} (hash : Bytes → ℕ → ℕ) (client : LogicClient W) (server_id : Bytes) where
  close-crash :
      (r y : Ptr) (u : ℤ) (s : State) (w : W) (i : ℕ) (b : Bucket)
      → (s.heap.channels y).room ≡ some r
      → (s.heap.channels y).user_id ≡ u
      → int_eq u (pos 0) ≡ false
      → bucket hash u s.server ≡ done (i, b)
      → delete_channel y b s.heap ≡ panics
      → close hash client server_id y (s, w) ≡ crash
  unfolding close close_in delete_at disconnected
  close-crash r y u s w i b room user somebody found fails = rw room (
      rw user (
        rw somebody (
          ap
            (λ o.
              disconnected hash client server_id
                (record { room_id = (s.heap.rooms r).id; user_id = u }) w
                (delete_at hash client server_id y s o))
            found
          ∙ rw (disconnected, delete_at, fails) refl)))

  -- Two users that are in different buckets, where the first user's id is not 0 and its bucket has no
  -- channel for the second. The websocket `y` joins a room as the first user, and another websocket `x` joins as the
  -- first user too, and then once more, as the second user. Each Put is in the bucket that the server
  -- finds for its user. When `y` is closed, DeleteChannel finds `x` for the user of `y`, looks up the
  -- user that `x` has now, and dereferences nil: the process panics in the deferred function.
  pub rejoined-close :
      (x y : Ptr) (u v ru rx rv : ℤ) (s : State) (w : W) (i j : ℕ) (b c : Bucket)
      → bucket hash u s.server ≡ done (i, b)
      → bucket hash v s.server ≡ done (j, c)
      → (i == j) ≡ false
      → b.chs v ≡ none
      → int_eq v u ≡ false
      → int_eq u (pos 0) ≡ false
      → int_eq ru no_room ≡ false
      → (y == x) ≡ false
      → let put_in = put_at hash client server_id in
        let b1 = (put u ru y b s.heap).0 in
        let s1 = (put_in u ru y s i b).0 in
        let s2 = (put_in u rx x s1 i b1).0 in
        let s3 = (put_in v rv x s2 j c).0 in
        (bucket hash u s1.server ≡ done (i, b1))
        × (bucket hash v s2.server ≡ done (j, c))
        × (close hash client server_id y (s3, w) ≡ crash)
  unfolding put_at
  rejoined-close x y u v ru rx rv s w i j b c of_u of_v apart absent other somebody a_room others =
      let (b1, h1, _) = put u ru y b s.heap in
      let (b2, h2, _) = put u rx x b1 h1 in
      let (c3, h3, _) = put v rv x c h2 in
      let (kept1, online1, user1) = put-Kept u ru y b s.heap in
      let (kept2, online2, user2) = put-Kept u rx x b1 h1 in
      let (kept3, online3, user3) = put-Kept v rv x c h2 in
      let (noted, (r, room)) = put-Noted u ru y b s.heap a_room in
      let v1 : Server = record s.server { buckets = set s.server.buckets i b1 } in
      let found1 = bucket-set hash u s.server i b b1 of_u in
      let v2 : Server = record v1 { buckets = set v1.buckets i b2 } in
      let found2 = bucket-set hash u v1 i b1 b2 found1 in
      let of_v2 =
        bucket-other hash v v1 j i c b2 (bucket-other hash v s.server j i c b1 of_v apart) apart in
      let v3 : Server = record v2 { buckets = set v2.buckets j c3 } in
      let found3 = bucket-other hash u v2 i j b2 c3 found2 (ground (arith, apart)) in
      let s3 : State = record { server = v3; heap = h3 } in
      let user = kept3.user y others ∙ kept2.user y others ∙ user1 in
      (
        found1,
        of_v2,
        close-crash r y u s3 w i b2 (kept3.room y others ∙ kept2.room y others ∙ room) user somebody
            found3
            (delete_channel-moved x y u v b2 h3 user online2 user3
              (kept2.online v other ∙ kept1.online v other ∙ absent)),
      )
