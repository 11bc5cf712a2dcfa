-- ===== src/Connect/System/Joins.antt =====
-- Bucket.Put of a channel that is in no room and stands for no user.
use zhibo.Prelude.{
  ℤ, int_eq, Option, none, some, ◌∷◌, ◌≡◌, ◌≢◌, ◌⊎◌, inl, inr, refl, sym, ap, ◌∙◌, arith, true,
  false, ◌==◌, length, Bool-cases, update, update_key, ◌∉◌,
}
use mathlib.Core.Path.{subst}
use zhibo.Connect.Heap.{Ptr, Heap, Channels}
use zhibo.Connect.Room.{PutError}
use zhibo.Connect.Bucket.{Bucket, put, open_room, set_user, no_room}
use zhibo.Connect.Bucket.Invariant.{Members, IsBucket}
use zhibo.Connect.Bucket.Opened.{opened, open_room-IsBucket}
use zhibo.Connect.Bucket.Joined.{
  joined_heap, joined-fields, joined-links, joined-other_room, with_member,
}
use zhibo.Connect.Bucket.Put.{after_put, put-in_room, put-no_room, opened-facts}
use zhibo.Connect.System.Frame.{Touches}
use zhibo.Connect.System.Effect.{Effect, Touches-refl, Touches-trans, SameLinks-refl}

open_room-Touches :
    (o : Option Ptr) (rid : ℤ) (b : Bucket) (h : Heap) (members : Members)
    → Touches h (open_room o rid b h).2 members (opened o h members) (open_room o rid b h).0
unfolding open_room opened update
open_room-Touches (some r) rid b h members = Touches-refl h members r
open_room-Touches none rid b h members = record {
  grows = omega arith;
  rooms = λ q ne lt. ground arith;
  lists = λ q ne lt. ground arith;
  links = λ y q e ne. SameLinks-refl h y;
  keeps = λ y q e. e;
}

open_room-rooms :
    (o : Option Ptr) (rid : ℤ) (b : Bucket) (h : Heap) (k : ℤ) (q : Ptr)
    → (open_room o rid b h).1.rooms k ≡ some q
    → (b.rooms k ≡ some q) ⊎ (q ≡ h.fresh_room)
unfolding open_room update_key
open_room-rooms (some r) rid b h k q e = inl e
open_room-rooms none rid b h k q e = elim (Bool-cases (int_eq k rid)) [
  | inl same ↦ inr (ground arith)
  | inr other ↦ inl (ground arith)
]

open_room-mine :
    (o : Option Ptr) (rid : ℤ) (b : Bucket) (h : Heap)
    → b.rooms rid ≡ o
    → ((k : ℤ) × (b.rooms k ≡ some (open_room o rid b h).0))
      ⊎ ((open_room o rid b h).0 ≡ h.fresh_room)
unfolding open_room
open_room-mine (some r) rid b h e = inl (rid, e)
open_room-mine none rid b h e = inr refl

open_room-options :
    (o : Option Ptr) (rid : ℤ) (b : Bucket) (h : Heap)
    → ((open_room o rid b h).1.bucket_options ≡ b.bucket_options)
      × ((open_room o rid b h).1.routines ≡ b.routines)
unfolding open_room
open_room-options (some r) rid b h = (refl, refl)
open_room-options none rid b h = (refl, refl)

module _ (b : Bucket) (h : Heap) (members : Members) (uid rid : ℤ) (r ch : Ptr)
    (is : IsBucket b h members) (at_r : b.rooms rid ≡ some r) (free : (h.channels ch).room ≡ none)
    (unused : (u : ℤ) → b.chs u ≢ some ch) where
  outside : (y q : Ptr) → (h.channels y).room ≡ some q → (q == r) ≡ false → y ∉ (ch ∷ members r)
  outside y q e ne = ground (arith, (is.at_room rid r at_r).inside y)

  joined-Touches :
      Touches h
        (joined_heap b h uid r ch)
        members
        (with_member b h members uid rid r ch is at_r free unused)
        r
  joined-Touches = record {
    grows = unfold joined_heap in ground arith;
    rooms = λ q ne lt. joined-other_room b h members uid rid r ch is at_r free unused q ne;
    lists = λ q ne lt. unfold update in ground arith;
    links =
        λ y q e ne. joined-links b h members uid rid r ch is at_r free unused y (outside y q e ne);
    keeps = λ y q e. ground (arith, joined-fields b h members uid rid r ch is at_r free unused y);
  }

marked-Touches :
    (uid : ℤ) (ch : Ptr) (b : Bucket) (h : Heap) (members : Members)
    → Touches h (set_user uid ch b h).1 members members h.fresh_room
unfolding set_user
marked-Touches uid ch b h members = record {
  grows = omega arith;
  rooms = λ q ne lt. refl;
  lists = λ q ne lt. refl;
  links = λ y q e ne. record { next = ground arith; prev = ground arith };
  keeps = λ y q e. ground arith;
}

-- Every channel but `ch` has the Room and the user that it had.
abbrev pub OtherUsers : Ptr → Heap → Heap → Type 0
OtherUsers ch h g =
    (y : Ptr)
    → (y == ch) ≡ false
    → ((g.channels y).room ≡ (h.channels y).room)
      × ((g.channels y).user_id ≡ (h.channels y).user_id)

module _ (b : Bucket) (h : Heap) (members : Members) (uid rid : ℤ) (ch : Ptr)
    (is : IsBucket b h members) (free : (h.channels ch).room ≡ none)
    (unused : (u : ℤ) → b.chs u ≢ some ch) where
  abbrev PutEffect : Bucket → Heap → Members → Type 0
  PutEffect b' h' members' = Effect b b' h h' members members' × OtherUsers ch h h'

  in_room-PutEffect :
      int_eq rid no_room ≡ false
      → PutEffect (put uid rid ch b h).0 (put uid rid ch b h).1 (after_put rid ch b h members)
  unfolding after_put
  in_room-PutEffect in_room =
      let o = open_room (b.rooms rid) rid b h in
      let before = opened (b.rooms rid) h members in
      let facts = opened-facts (b.rooms rid) rid b h refl in
      let own = open_room-IsBucket b h members is (b.rooms rid) rid refl in
      let free' = ap (λ (c : Channels). (c ch).room) facts.1 ∙ free in
      let unused' = λ (u : ℤ) (e : o.1.chs u ≡ some ch).
        unused u (sym (ap (λ (f : ℤ → Option Ptr). f u) facts.2) ∙ e) in
      let joined = joined-Touches o.1 o.2 before uid rid o.0 ch own facts.0 free' unused' in
      let fields = joined-fields o.1 o.2 before uid rid o.0 ch own facts.0 free' unused' in
      let kept = open_room-options (b.rooms rid) rid b h in
      rw in_room (
        subst
          (λ (t : Bucket × Heap × Option PutError).
            PutEffect t.0 t.1 (update before o.0 (ch ∷ before o.0)))
          (sym (put-in_room b h members uid rid ch is free unused in_room))
          (
            record {
              room = o.0;
              touched =
                  Touches-trans h o.2 (joined_heap o.1 o.2 uid o.0 ch) members before _ o.0
                    (open_room-Touches (b.rooms rid) rid b h members) joined;
              mine = open_room-mine (b.rooms rid) rid b h refl;
              rooms = λ k q e. open_room-rooms (b.rooms rid) rid b h k q (unfold set_user in e);
              options = unfold set_user in kept.0;
              amount = unfold set_user in ap length kept.1;
            },
            λ y ne. ground (arith, fields y, facts.1),
          ))

  no_room-PutEffect :
      int_eq rid no_room ≡ true
      → PutEffect (put uid rid ch b h).0 (put uid rid ch b h).1 (after_put rid ch b h members)
  unfolding after_put
  no_room-PutEffect none_room = rw none_room (
      subst (λ (t : Bucket × Heap × Option PutError). PutEffect t.0 t.1 members)
        (sym (put-no_room b h members uid rid ch is free unused none_room))
        (
          record {
            room = h.fresh_room;
            touched = marked-Touches uid ch b h members;
            mine = inr refl;
            rooms = λ k q e. inl (unfold set_user in e);
            options = unfold set_user in refl;
            amount = unfold set_user in refl;
          },
          λ y ne. unfold set_user in ground arith,
        ))

  pub put-PutEffect :
      PutEffect (put uid rid ch b h).0 (put uid rid ch b h).1 (after_put rid ch b h members)
  put-PutEffect = elim (Bool-cases (int_eq rid no_room)) [
    | inl none_room ↦ no_room-PutEffect none_room
    | inr in_room ↦ in_room-PutEffect in_room
  ]
