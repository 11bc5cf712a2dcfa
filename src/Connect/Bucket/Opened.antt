-- ===== src/Connect/Bucket/Opened.antt =====
-- Finding or making the room of Bucket.Put keeps the invariant.
use mathlib.Core.Path.{subst}
use zhibo.Prelude.{
  ℤ, pos, int_eq, int_eq_iff, Option, none, some, List, [], ◌∷◌, ◌≡◌, refl, sym, arith, ◌∈◌, update,
  update_self, Bool-cases, inl, inr,
}
use zhibo.Connect.Heap.{Ptr, Heap}
use zhibo.Connect.Room.Members.{IsRoom}
use zhibo.Connect.Bucket.{Bucket, open_room}
use zhibo.Connect.Bucket.Invariant.{Members, RoomAt, IsBucket, RoomAt-frame}

-- The members after the room was found or made.
unfoldable pub opened : Option Ptr → Heap → Members → Members
opened (some r) h members = members
opened none h members = update members h.fresh_room []

empty-IsRoom :
    (h : Heap) (r : Ptr) (xs : List Ptr)
    → xs ≡ []
    → (h.rooms r).next ≡ none
    → (h.rooms r).online_count ≡ pos 0
    → IsRoom h r xs
empty-IsRoom h r [] e next count = record { chain = next; distinct = tt; counted = count }
empty-IsRoom h r (x ∷ xs) e next count = cc (e)

module _ (b : Bucket) (h : Heap) (members : Members) (is : IsBucket b h members) where
  new_room-RoomAt :
      (rid : ℤ) → RoomAt (open_room none rid b h).2 (opened none h members) rid h.fresh_room
  unfolding open_room opened
  new_room-RoomAt rid = record {
    is_room =
        empty-IsRoom _ h.fresh_room _ (update_self members h.fresh_room []) (ground arith)
          (ground arith);
    live = ground arith;
    named = ground arith;
    allocated = omega arith;
    inside = λ x m.
        let m' = subst (λ (xs : List Ptr). x ∈ xs) (update_self members h.fresh_room []) m in
        cc (m');
  }

  old_room-RoomAt :
      (rid rid' : ℤ) (r : Ptr)
      → b.rooms rid' ≡ some r
      → RoomAt (open_room none rid b h).2 (opened none h members) rid' r
  unfolding open_room opened
  old_room-RoomAt rid rid' r e =
      let at = is.at_room rid' r e in
      RoomAt-frame h _ members _ rid' r (ground (arith, at.allocated))
        (ground (arith, at.allocated)) (omega arith) (λ y m. record { next = refl; prev = refl })
        (λ y m. refl) at

  open_room_at :
      (rid rid' : ℤ) (r : Ptr)
      → (open_room none rid b h).1.rooms rid' ≡ some r
      → RoomAt (open_room none rid b h).2 (opened none h members) rid' r
  unfolding open_room
  open_room_at rid rid' r e = elim (Bool-cases (int_eq rid' rid)) [
    | inl same ↦
        let e_key : rid ≡ rid' = sym ((int_eq_iff rid' rid).0 same) in
        let e_room : h.fresh_room ≡ r = ground arith in
        subst (λ k. RoomAt (open_room none rid b h).2 (opened none h members) k r) e_key
          (subst (λ q. RoomAt (open_room none rid b h).2 (opened none h members) rid q) e_room
            (new_room-RoomAt rid))
    | inr other ↦ old_room-RoomAt rid rid' r (ground arith)
  ]

  pub open_room-IsBucket :
      (o : Option Ptr) (rid : ℤ)
      → b.rooms rid ≡ o
      → IsBucket (open_room o rid b h).1 (open_room o rid b h).2 (opened o h members)
  unfolding open_room opened
  open_room-IsBucket (some r) rid e = is
  open_room-IsBucket none rid e = record {
    at_room = λ rid' r e'. open_room_at rid rid' r e';
    online = is.online;
    joined = λ uid x r e' m.
        let j = is.joined uid x r e' m in
        let at = is.at_room (h.rooms r).id r j.1 in
        ground (arith, at.allocated, int_eq_iff (h.rooms r).id rid);
  }
