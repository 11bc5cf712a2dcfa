-- ===== src/Connect/Bucket/Joined.antt =====
-- Marking the channel and putting it into the room that was found keeps the invariant.
use mathlib.Core.Path.{subst}
use zhibo.Prelude.{
  ℤ, int_eq, int_eq_iff, false, none, some, List, ◌∷◌, ◌≡◌, refl, ap, ◌∙◌, sym, arith, ◌∈◌, ◌∉◌,
  has, ◌==◌, ==_iff, update, update_self, inc, Bool-cases, inl, inr, if◌then◌else◌, ◌≢◌,
}
use zhibo.Connect.Heap.{Ptr, Heap, Room, set_prev, set_next}
use zhibo.Connect.Room
use zhibo.Connect.Room.{PutError, new_room}
use zhibo.Connect.Room.Links.{link_front}
use zhibo.Connect.Room.Unlink.{is_at-start}
use zhibo.Connect.Room.Chain.{SameLinks, not_same}
use zhibo.Connect.Room.Members.{IsRoom, put-IsRoom}
use zhibo.Connect.Bucket.{Bucket, set_user, set_room}
use zhibo.Connect.Bucket.Invariant.{Members, RoomAt, IsBucket, IsRoom-frame, RoomAt-frame}

-- The heap after the channel is marked and put in front of the room's members.
unfoldable pub joined_heap : Bucket → Heap → ℤ → Ptr → Ptr → Heap
unfolding set_user set_room Room.put
joined_heap b h uid r ch = (Room.put r ch (set_user uid ch b (set_room r ch h)).1).0

module _ (b : Bucket) (h : Heap) (members : Members) (uid rid : ℤ) (r ch : Ptr)
    (is : IsBucket b h members) (at_r : b.rooms rid ≡ some r) (free : (h.channels ch).room ≡ none)
    (unused : (u : ℤ) → b.chs u ≢ some ch) where
  abbrev marked : Heap
  unfolding set_user set_room
  marked = (set_user uid ch b (set_room r ch h)).1

  pub not_member : (rid' : ℤ) (r' : Ptr) → b.rooms rid' ≡ some r' → ch ∉ members r'
  not_member rid' r' e = elim (Bool-cases (has ch (members r'))) [
    | inl m ↦ let room = (is.at_room rid' r' e).inside ch m in cc (room, free)
    | inr out ↦ out
  ]

  marked-IsRoom : IsRoom marked r (members r)
  unfolding set_user set_room
  marked-IsRoom =
      IsRoom-frame h marked r (members r) refl
        (λ y m. record { next = ground arith; prev = ground arith }) (is.at_room rid r at_r).is_room

  pub joined-fields :
      (y : Ptr)
      → (((joined_heap b h uid r ch).channels y).room
          ≡ (if y == ch then some r else (h.channels y).room))
        × (((joined_heap b h uid r ch).channels y).user_id
            ≡ (if y == ch then uid else (h.channels y).user_id))
  unfolding joined_heap link_front set_prev set_next
  joined-fields y = ground arith

  pub joined-links :
      (y : Ptr) → y ∉ (ch ∷ members r) → SameLinks (joined_heap b h uid r ch).channels h.channels y
  unfolding joined_heap link_front set_prev set_next
  joined-links y out =
      let room = is.at_room rid r at_r in
      let not_head =
        is_at-start h.channels none (h.rooms r).next (members r) y room.is_room.chain
          (ground arith) in
      record { next = ground arith; prev = ground arith }

  joined-room :
      (joined_heap b h uid r ch).rooms r
      ≡ record (h.rooms r) { next = some ch; online_count = inc (h.rooms r).online_count }
  unfolding joined_heap
  joined-room = ground (arith, (is.at_room rid r at_r).live)

  pub joined-other_room :
      (q : Ptr) → (q == r) ≡ false → (joined_heap b h uid r ch).rooms q ≡ h.rooms q
  unfolding joined_heap
  joined-other_room q ne = ground arith

  abbrev pub with_member : Members
  unfolding update
  with_member = update members r (ch ∷ members r)

  joined-RoomAt_self : RoomAt (joined_heap b h uid r ch) with_member rid r
  unfolding joined_heap update
  joined-RoomAt_self =
      let at = is.at_room rid r at_r in
      let out = not_member rid r at_r in
      let into = put-IsRoom marked r ch (members r) marked-IsRoom at.live out in
      let room = joined-room in
      let mine = update_self members r (ch ∷ members r) in
      record {
        is_room =
            subst (λ (xs : List Ptr). IsRoom (joined_heap b h uid r ch) r xs) (sym mine) into.0;
        live = ap (λ (q : Room). q.dropped) room ∙ at.live;
        named = ap (λ (q : Room). q.id) room ∙ at.named;
        allocated = ground (arith, at.allocated);
        inside = λ x m.
            let m' = subst (λ (xs : List Ptr). x ∈ xs) mine m in
            ground (arith, at.inside x, joined-fields x);
      }

  joined-RoomAt_other :
      (rid' : ℤ) (q : Ptr)
      → b.rooms rid' ≡ some q
      → (q == r) ≡ false
      → RoomAt (joined_heap b h uid r ch) with_member rid' q
  joined-RoomAt_other rid' q e ne =
      let at = is.at_room rid' q e in
      let out = not_member rid' q e in
      let here = is.at_room rid r at_r in
      RoomAt-frame h (joined_heap b h uid r ch) members with_member rid' q
        (unfold update in ground arith) (joined-other_room q ne)
        (unfold joined_heap in ground arith)
        (λ y m.
          joined-links y (ground (arith, at.inside y, here.inside y, not_same ch (members q) y)))
        (λ y m. ground (arith, joined-fields y, not_same ch (members q) y)) at

  joined_joined :
      (u : ℤ) (x q : Ptr)
      → (set_user uid ch b (set_room r ch h)).0.chs u ≡ some x
      → ((joined_heap b h uid r ch).channels x).room ≡ some q
      → (x ∈ with_member q) × (b.rooms ((joined_heap b h uid r ch).rooms q).id ≡ some q)
  unfolding set_user update
  joined_joined u x q e m = elim (Bool-cases (int_eq u uid)) [
    | inl same ↦ ground (arith, joined-fields x, joined-RoomAt_self.named)
    | inr other ↦ ground (
      arith,
      joined-fields x,
      is.joined u x q,
      unused u,
      joined-other_room q,
      joined-RoomAt_self.named,
    )
  ]

  pub joined-IsBucket :
      IsBucket (set_user uid ch b (set_room r ch h)).0 (joined_heap b h uid r ch) with_member
  unfolding set_user update
  joined-IsBucket =
      let here = joined-RoomAt_self in
      record {
        at_room = λ rid' q e. elim (Bool-cases (q == r)) [
          | inl same ↦
              let e_room : r ≡ q = sym ((==_iff q r).0 same) in
              let at = is.at_room rid' q e in
              let mine = is.at_room rid r at_r in
              let e_key : rid ≡ rid' = ground arith in
              subst (λ k. RoomAt (joined_heap b h uid r ch) with_member k q) e_key
                (subst (λ p. RoomAt (joined_heap b h uid r ch) with_member rid p) e_room here)
          | inr ne ↦ joined-RoomAt_other rid' q e ne
        ];
        online =
            λ u x e. ground (arith, int_eq_iff u uid, joined-fields x, is.online u x, unused u);
        joined = λ u x q e m. joined_joined u x q e m;
      }

  pub joined-no_error : (Room.put r ch (set_user uid ch b (set_room r ch h)).1).1 ≡ none
  unfolding joined_heap
  joined-no_error = ground (arith, (is.at_room rid r at_r).live)
