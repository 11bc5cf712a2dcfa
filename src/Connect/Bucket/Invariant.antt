-- ===== src/Connect/Bucket/Invariant.antt =====
-- The invariant that ties a bucket's maps to the member lists of its rooms.
use zhibo.Prelude.{◌<◌, ◌≤◌, ℤ, false, none, some, List, ◌≡◌, ap, ◌∙◌, sym, arith, ◌∈◌}
use mathlib.Core.Path.{subst}
use zhibo.Connect.Heap.{Ptr, Heap, Room}
use zhibo.Connect.Room.Chain.{Chain, Chain-same, SameLinks}
use zhibo.Connect.Room.Members.{IsRoom}
use zhibo.Connect.Bucket.{Bucket}

-- The members of each room, by the room's address.
abbrev pub Members : Type 0
Members = Ptr → List Ptr

-- What the bucket knows of the room `r` that it has under `rid`.
pub record RoomAt (h : Heap) (members : Members) (rid : ℤ) (r : Ptr) : Type 0 where
  pub is_room : IsRoom h r (members r)
  pub live : (h.rooms r).dropped ≡ false
  pub named : (h.rooms r).id ≡ rid
  pub allocated : r < h.fresh_room
  pub inside : (x : Ptr) → x ∈ members r → (h.channels x).room ≡ some r

-- Every room in the map is live, keeps its members in a chain and carries its key; a member's Room
-- is its room; a user's channel carries the user and is a member of its Room, which the map has.
pub record IsBucket (b : Bucket) (h : Heap) (members : Members) : Type 0 where
  pub at_room : (rid : ℤ) (r : Ptr) → b.rooms rid ≡ some r → RoomAt h members rid r
  pub online : (uid : ℤ) (x : Ptr) → b.chs uid ≡ some x → (h.channels x).user_id ≡ uid
  pub joined :
      (uid : ℤ) (x r : Ptr)
      → b.chs uid ≡ some x
      → (h.channels x).room ≡ some r
      → (x ∈ members r) × (b.rooms (h.rooms r).id ≡ some r)

-- A room is untouched where its record and its members' links are.
pub IsRoom-frame :
    (h g : Heap) (r : Ptr) (xs : List Ptr)
    → g.rooms r ≡ h.rooms r
    → ((y : Ptr) → y ∈ xs → SameLinks g.channels h.channels y)
    → IsRoom h r xs
    → IsRoom g r xs
IsRoom-frame h g r xs room same is = record {
  chain =
      subst (λ (q : Room). Chain g.channels none q.next xs) (sym room)
        (Chain-same h.channels g.channels none (h.rooms r).next xs same is.chain);
  distinct = is.distinct;
  counted = ap (λ (q : Room). q.online_count) room ∙ is.counted;
}

-- What the bucket knows of a room stays true where the room, its members and their Room do not change.
pub RoomAt-frame :
    (h g : Heap) (members members' : Members) (rid : ℤ) (r : Ptr)
    → members' r ≡ members r
    → g.rooms r ≡ h.rooms r
    → h.fresh_room ≤ g.fresh_room
    → ((y : Ptr) → y ∈ members r → SameLinks g.channels h.channels y)
    → ((y : Ptr) → y ∈ members r → (g.channels y).room ≡ (h.channels y).room)
    → RoomAt h members rid r
    → RoomAt g members' rid r
RoomAt-frame h g members members' rid r same_members room grows links rooms at = record {
  is_room =
      subst (λ (xs : List Ptr). IsRoom g r xs) (sym same_members)
        (IsRoom-frame h g r (members r) room links at.is_room);
  live = ap (λ (q : Room). q.dropped) room ∙ at.live;
  named = ap (λ (q : Room). q.id) room ∙ at.named;
  allocated = omega (arith, at.allocated);
  inside = λ x m.
      let m' : x ∈ members r = subst (λ (xs : List Ptr). x ∈ xs) same_members m in
      rooms x m' ∙ at.inside x m';
}
