-- ===== src/Connect/Bucket/Put.antt =====
-- Bucket.Put keeps the bucket's invariant and puts the channel in front of its room's members.
use mathlib.Core.Path.{subst}
use zhibo.Prelude.{
  ℤ, int_eq, int_eq_iff, int_eq_self, true, false, Option, none, some, ◌∷◌, ◌≡◌, refl, ap, ◌∙◌, sym,
  arith, update, Bool-cases, inl, inr, if◌then◌else◌, ◌≢◌,
}
use zhibo.Connect.Heap.{Ptr, Channels, Heap}
use zhibo.Connect.Room
use zhibo.Connect.Room.{PutError, new_room}
use zhibo.Connect.Bucket.{
  Bucket, open_room, set_user, set_room, register_when, enter_room, put, no_room,
}
use zhibo.Connect.Bucket.Invariant.{Members, IsBucket, RoomAt-frame}
use zhibo.Connect.Bucket.Opened.{opened, open_room-IsBucket}
use zhibo.Connect.Bucket.Joined.{joined_heap, joined-IsBucket, joined-no_error}

-- The members of the rooms after `Put uid rid ch`.
unfoldable pub after_put : ℤ → Ptr → Bucket → Heap → Members → Members
unfolding update open_room opened
after_put rid ch b h members =
    if int_eq rid no_room
    then members
    else (let r = (open_room (b.rooms rid) rid b h).0 in
        let before = opened (b.rooms rid) h members in update before r (ch ∷ before r))

set_user-chs :
    (uid : ℤ) (ch : Ptr) (b : Bucket) (h : Heap) → (set_user uid ch b h).0.chs uid ≡ some ch
unfolding set_user
set_user-chs uid ch b h = rw (int_eq_self uid)

pub opened-facts :
    (o : Option Ptr) (rid : ℤ) (b : Bucket) (h : Heap)
    → b.rooms rid ≡ o
    → ((open_room o rid b h).1.rooms rid ≡ some (open_room o rid b h).0)
      × ((open_room o rid b h).2.channels ≡ h.channels)
      × ((open_room o rid b h).1.chs ≡ b.chs)
unfolding open_room
opened-facts none rid b h e = (rw (int_eq_self rid), refl, refl)
opened-facts (some r) rid b h e = (e, refl, refl)

module _ (b : Bucket) (h : Heap) (members : Members) (uid rid : ℤ) (ch : Ptr)
    (is : IsBucket b h members) (free : (h.channels ch).room ≡ none)
    (unused : (u : ℤ) → b.chs u ≢ some ch) where
  pub put-in_room :
      int_eq rid no_room ≡ false
      → (let o = open_room (b.rooms rid) rid b h in
          put uid rid ch b h ≡ (
            (set_user uid ch o.1 (set_room o.0 ch o.2)).0,
            joined_heap o.1 o.2 uid o.0 ch,
            (Room.put o.0 ch (set_user uid ch o.1 (set_room o.0 ch o.2)).1).1,
          ))
  unfolding put joined_heap
  put-in_room in_room =
      subst
        (λ t. enter_room ch (register_when t uid rid ch b h) ≡ (
          (set_user uid ch (open_room (b.rooms rid) rid b h).1 (
              set_room (open_room (b.rooms rid) rid b h).0 ch
                (open_room (b.rooms rid) rid b h).2)).0,
          joined_heap (open_room (b.rooms rid) rid b h).1 (open_room (b.rooms rid) rid b h).2 uid
              (open_room (b.rooms rid) rid b h).0 ch,
          (Room.put (open_room (b.rooms rid) rid b h).0 ch
              (set_user uid ch (open_room (b.rooms rid) rid b h).1 (
                set_room (open_room (b.rooms rid) rid b h).0 ch
                  (open_room (b.rooms rid) rid b h).2)).1).1,
        ))
        (sym in_room) refl

  pub put-no_room :
      int_eq rid no_room ≡ true
      → put uid rid ch b h ≡ ((set_user uid ch b h).0, (set_user uid ch b h).1, none)
  unfolding put
  put-no_room none_room =
      subst
        (λ t.
          enter_room ch (register_when t uid rid ch b h)
          ≡ ((set_user uid ch b h).0, (set_user uid ch b h).1, none))
        (sym none_room) refl

  set_user-IsBucket : IsBucket (set_user uid ch b h).0 (set_user uid ch b h).1 members
  unfolding set_user
  set_user-IsBucket = record {
    at_room = λ rid' q e.
        RoomAt-frame h (set_user uid ch b h).1 members members rid' q refl refl (omega arith)
          (λ y m. record { next = ground arith; prev = ground arith }) (λ y m. ground arith)
          (is.at_room rid' q e);
    online = λ u x e. ground (arith, int_eq_iff u uid, is.online u x, unused u);
    joined = λ u x q e m. ground (arith, is.joined u x q, free);
  }

  put-joined :
      int_eq rid no_room ≡ false
      → (let o = open_room (b.rooms rid) rid b h in
          IsBucket
            (put uid rid ch b h).0
            (put uid rid ch b h).1
            (update (opened (b.rooms rid) h members) o.0 (ch ∷ opened (b.rooms rid) h members o.0))
          × ((put uid rid ch b h).0.chs uid ≡ some ch)
          × ((put uid rid ch b h).2 ≡ none))
  unfolding update
  put-joined in_room =
      let o = open_room (b.rooms rid) rid b h in
      let before = opened (b.rooms rid) h members in
      let facts = opened-facts (b.rooms rid) rid b h refl in
      let is_open = open_room-IsBucket b h members is (b.rooms rid) rid refl in
      let free' = ap (λ (c : Channels). (c ch).room) facts.1 ∙ free in
      let unused' = λ (u : ℤ) (e : o.1.chs u ≡ some ch).
        unused u (sym (ap (λ (f : ℤ → Option Ptr). f u) facts.2) ∙ e) in
      subst
        (λ (t : Bucket × Heap × Option PutError).
          IsBucket t.0 t.1 (update before o.0 (ch ∷ before o.0))
          × (t.0.chs uid ≡ some ch)
          × (t.2 ≡ none))
        (sym (put-in_room in_room))
        (
          joined-IsBucket o.1 o.2 before uid rid o.0 ch is_open facts.0 free' unused',
          set_user-chs uid ch o.1 (set_room o.0 ch o.2),
          joined-no_error o.1 o.2 before uid rid o.0 ch is_open facts.0 free' unused',
        )

  -- Put of a channel that is in no room and stands for no user keeps the invariant, enters the
  -- channel under the user, puts it in front of the members of its room, and reports no error.
  pub put-IsBucket :
      IsBucket (put uid rid ch b h).0 (put uid rid ch b h).1 (after_put rid ch b h members)
      × ((put uid rid ch b h).0.chs uid ≡ some ch)
      × ((put uid rid ch b h).2 ≡ none)
  unfolding after_put
  put-IsBucket = elim (Bool-cases (int_eq rid no_room)) [
    | inl none_room ↦ rw none_room (
        subst
          (λ (t : Bucket × Heap × Option PutError).
            IsBucket t.0 t.1 members × (t.0.chs uid ≡ some ch) × (t.2 ≡ none))
          (sym (put-no_room none_room)) (set_user-IsBucket, set_user-chs uid ch b h, refl))
    | inr in_room ↦ rw in_room (put-joined in_room)
  ]
