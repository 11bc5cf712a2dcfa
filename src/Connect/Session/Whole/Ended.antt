-- ===== src/Connect/Session/Whole/Ended.antt =====
-- What a websocket's session leaves of its user in the bucket.
use zhibo.Prelude.{
  ℕ, ℤ, int_eq, int_eq_self, Bytes, Bool, Bool-cases, true, false, Option, Option-cases, none, some,
  ◌≡◌, refl, sym, ap, ◌∙◌, inl, inr, arith, get_elem?, set, get_elem?-set_found, if◌then◌else◌,
  ◌==◌, update, update_key,
}
use zhibo.Connect.Heap.{Ptr, Heap, set_prev, set_next}
use zhibo.Connect.Room
use zhibo.Connect.Room.{PutError, new_room}
use zhibo.Connect.Room.Links.{link_front}
use zhibo.Connect.Bucket.{
  Bucket, Outcome, done, panics, no_room, register, register_when, find_room, open_room, set_user,
  set_room, enter_room, put, delete_channel, delete_known, delete_found, leave_room, drop_room,
}
use zhibo.Connect.Server.{Server, index, at_index, bucket}

-- What Put notes of the channel.
pub record Noted (b : Bucket) (h : Heap) (uid : ℤ) (ch : Ptr) : Type 0 where
  pub online : b.chs uid ≡ some ch
  pub user : (h.channels ch).user_id ≡ uid

pub room_put-user :
    (r ch x : Ptr) (h : Heap)
    → (((Room.put r ch h).0.channels x).user_id ≡ (h.channels x).user_id)
      × (((Room.put r ch h).0.channels x).room ≡ (h.channels x).room)
unfolding Room.put link_front set_prev set_next update
room_put-user r ch x h = elim (Bool-cases (h.rooms r).dropped) [
  | inl gone ↦ rw (gone) (refl, refl)
  | inr kept ↦ rw (kept) (elim (Option-cases (h.rooms r).next) [
    | inl empty ↦ rw (empty) (ground arith, ground arith)
    | inr (n, first) ↦ rw (first) (ground arith, ground arith)
  ])
]

register-Noted :
    (uid rid : ℤ) (ch : Ptr) (b : Bucket) (h : Heap)
    → int_eq rid no_room ≡ false
    → let (o, b', h') = register uid rid ch b h in
      (r : Ptr) × (o ≡ some r) × Noted b' h' uid ch × ((h'.channels ch).room ≡ some r)
unfolding register register_when find_room open_room set_user set_room update update_key
register-Noted uid rid ch b h a_room = rw (a_room) (elim (Option-cases (b.rooms rid)) [
  | inl absent ↦ rw (absent) (
    h.fresh_room,
    refl,
    record { online = ground (arith, int_eq_self uid); user = ground arith },
    ground arith,
  )
  | inr (r, at) ↦ rw (at) (
    r,
    refl,
    record { online = ground (arith, int_eq_self uid); user = ground arith },
    ground arith,
  )
])

enter_room-Noted :
    (uid : ℤ) (ch r : Ptr) (o : Option Ptr) (b : Bucket) (h : Heap)
    → o ≡ some r
    → Noted b h uid ch
    → (h.channels ch).room ≡ some r
    → let (b', h', e) = enter_room ch (o, b, h) in
      Noted b' h' uid ch × ((h'.channels ch).room ≡ some r)
unfolding enter_room
enter_room-Noted uid ch r none b h e is room = cc (e)
enter_room-Noted uid ch r (some q) b h e is room =
    let (user, placed) = room_put-user q ch ch h in
    (record { online = is.online; user = user ∙ is.user }, placed ∙ room)

pub put-Noted :
    (uid rid : ℤ) (ch : Ptr) (b : Bucket) (h : Heap)
    → int_eq rid no_room ≡ false
    → let (b', h', e) = put uid rid ch b h in
      Noted b' h' uid ch × ((r : Ptr) × ((h'.channels ch).room ≡ some r))
unfolding put
put-Noted uid rid ch b h a_room =
    let (o, b', h') = register uid rid ch b h in
    let (r, found, is, room) = register-Noted uid rid ch b h a_room in
    let (noted, placed) = enter_room-Noted uid ch r o b' h' found is room in (noted, (r, placed))

pub put-Noted-no_room :
    (uid rid : ℤ) (ch : Ptr) (b : Bucket) (h : Heap)
    → int_eq rid no_room ≡ true
    → let (b', h', e) = put uid rid ch b h in
      Noted b' h' uid ch × ((h'.channels ch).room ≡ (h.channels ch).room)
unfolding put register register_when find_room open_room set_user set_room enter_room update
    update_key
put-Noted-no_room uid rid ch b h nowhere =
    rw (nowhere)
      (record { online = ground (arith, int_eq_self uid); user = ground arith }, ground arith)

drop_room-chs : (e d : Bool) (r : Ptr) (b : Bucket) (h : Heap) → (drop_room e d r b h).0.chs ≡ b.chs
unfolding drop_room
drop_room-chs true true r b h = refl
drop_room-chs true false r b h = refl
drop_room-chs false d r b h = refl

pub leave_room-chs :
    (o : Option Ptr) (ch : Ptr) (b : Bucket) (h : Heap) → (leave_room o ch b h).0.chs ≡ b.chs
unfolding leave_room
leave_room-chs none ch b h = refl
leave_room-chs (some r) ch b h = drop_room-chs _ _ r b _

pub delete_channel-gone :
    (ch : Ptr) (b : Bucket) (h : Heap) (uid : ℤ)
    → Noted b h uid ch
    → (b' : Bucket) × (h' : Heap) × (delete_channel ch b h ≡ done (b', h')) × (b'.chs uid ≡ none)
unfolding delete_channel delete_known delete_found
delete_channel-gone ch b h uid is =
    let gone : Bucket = record b { chs = update_key b.chs (h.channels ch).user_id none } in
    let known = ap b.chs is.user ∙ is.online in
    let left = leave_room (h.channels ch).room ch gone h in
    (
      left.0,
      left.1,
      ap (λ o. delete_known o b h) known ∙ ap (λ o. delete_found o ch b h) known,
      ap (λ f. f uid) (leave_room-chs (h.channels ch).room ch gone h)
          ∙ unfold update_key in ground (arith, is.user, int_eq_self uid),
    )

at_index-found :
    (hash : Bytes → ℕ → ℕ) (k i : ℕ) (b : Bucket) (o : Option Bucket)
    → at_index hash k o ≡ done (i, b)
    → (k ≡ i) × (o ≡ some b)
unfolding at_index
at_index-found hash k i b none e = cc (e)
at_index-found hash k i b (some c) e = (cc (e), cc (e))

some_bucket :
    (t : Bool) (o : Outcome (ℕ × Bucket)) (x : ℕ × Bucket)
    → (if t then panics else o) ≡ done x
    → (t ≡ false) × (o ≡ done x)
some_bucket true o x e = cc (e)
some_bucket false o x e = (refl, e)

pub bucket-set :
    (hash : Bytes → ℕ → ℕ) (uid : ℤ) (s : Server) (i : ℕ) (b b' : Bucket)
    → bucket hash uid s ≡ done (i, b)
    → bucket hash uid (record s { buckets = set s.buckets i b' }) ≡ done (i, b')
unfolding bucket index at_index
bucket-set hash uid s i b b' found =
    let k = index hash uid s in
    let (nonzero, at) = some_bucket (s.bucket_idx == 0) _ (i, b) found in
    let (same, there) = at_index-found hash k i b (get_elem? s.buckets k) at in
    rw (nonzero) (
      ap (λ j. at_index hash k (get_elem? (set s.buckets j b') k)) (sym same)
      ∙ ap (at_index hash k) (get_elem?-set_found s.buckets k b b' there)
      ∙ ap (λ j. done (j, b')) same)
