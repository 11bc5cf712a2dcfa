-- ===== src/Connect/Bucket/Leaving.antt =====
-- What Room.DeleteChannel, as Bucket.DeleteChannel calls it, does to the room and its members.
use mathlib.Core.Path.{subst, ap₂}
use zhibo.Prelude.{
  ℤ, int_eq, Bool, true, false, not, ◌&&◌, none, some, List, [], ◌∷◌, ◌++◌, ◌≡◌, refl, ap, sym,
  arith, ◌∈◌, ◌∉◌, has, ◌==◌, Bool-cases, inl, inr, if◌then◌else◌, Distinct, is_empty,
}
use zhibo.Connect.Heap.{Ptr, Heap, Room}
use zhibo.Connect.Room
use zhibo.Connect.Room.Unlink.{unlink-outside}
use zhibo.Connect.Room.Chain.{SameLinks, not_same}
use zhibo.Connect.Room.Members.{IsRoom, delete_channel-IsRoom, loose_lem, room_after}
use zhibo.Connect.Bucket.{Bucket, drop_room, leave_room}

-- A member list without one member.
unfoldable pub without : Ptr → List Ptr → List Ptr
without x [] = []
without x (y ∷ ys) = if y == x then ys else y ∷ without x ys

split-without :
    (x : Ptr) (xs : List Ptr)
    → x ∈ xs
    → (ys : List Ptr) × (zs : List Ptr) × (xs ≡ ys ++ x ∷ zs) × (without x xs ≡ ys ++ zs)
unfolding without
split-without x [] m = cc
split-without x (y ∷ ys) m = elim (Bool-cases (y == x)) [
  | inl same ↦ ([], ys, ground arith, rw same refl)
  | inr other ↦
      let (us, vs, e, w) = split-without x ys (ground arith) in
      (y ∷ us, vs, ap (λ (l : List Ptr). y ∷ l) e, rw other (ap (λ (l : List Ptr). y ∷ l) w))
]

pub has-without :
    (x y : Ptr) (xs : List Ptr) → Distinct xs → has y (without x xs) ≡ (not (y == x) && has y xs)
unfolding without
has-without x y [] d = ground arith
has-without x y (z ∷ zs) d = ground (arith, has-without x y zs d.1, not_same z zs y)

pub not_empty : (x : Ptr) (xs : List Ptr) → x ∈ xs → is_empty xs ≡ false
not_empty x [] m = cc
not_empty x (y ∷ ys) m = refl

-- What DeleteChannel does to the room `r` and to its members `xs`, one of which is `x`.
module _ (h : Heap) (r x : Ptr) (xs : List Ptr) (is : IsRoom h r xs) (member : x ∈ xs) where
  abbrev pub after : Heap
  after = (Room.delete_channel r x h).0

  pub left-IsRoom :
      IsRoom after r (without x xs)
      × ((Room.delete_channel r x h).1 ≡ is_empty (without x xs))
      × ((after.rooms r).dropped ≡ is_empty (without x xs))
  left-IsRoom =
      let (ys, zs, e, w) = split-without x xs member in
      let is' = subst (λ (l : List Ptr). IsRoom h r l) e is in
      subst
        (λ (l : List Ptr).
          IsRoom after r l
          × ((Room.delete_channel r x h).1 ≡ is_empty l)
          × ((after.rooms r).dropped ≡ is_empty l))
        (sym w) (delete_channel-IsRoom h r x ys zs is')

  pub left-links : (y : Ptr) → y ∉ xs → SameLinks after.channels h.channels y
  unfolding Room.delete_channel
  left-links y out =
      let (ys, zs, e, w) = split-without x xs member in
      let is' = subst (λ (l : List Ptr). IsRoom h r l) e is in
      let out' = subst (λ (l : List Ptr). y ∉ l) e out in
      unlink-outside h.channels (h.rooms r).next x ys zs y
        (loose_lem h.channels (h.rooms r).next x ys zs is'.chain is'.distinct) is'.chain out'

  pub left-room_id : (after.rooms r).id ≡ (h.rooms r).id
  left-room_id = ap (λ (q : Room). q.id) (room_after r x h)

  pub left-other_room : (q : Ptr) → (q == r) ≡ false → after.rooms q ≡ h.rooms q
  unfolding Room.delete_channel
  left-other_room q ne = ground arith

  pub left-fresh : after.fresh_room ≡ h.fresh_room
  unfolding Room.delete_channel
  left-fresh = refl

-- With the result of Room.DeleteChannel the same as the flag it left, both are the test.
pub leave_room_lem :
    (r x : Ptr) (b : Bucket) (h : Heap) (e : Bool)
    → (Room.delete_channel r x h).1 ≡ e
    → ((Room.delete_channel r x h).0.rooms r).dropped ≡ e
    → leave_room (some r) x b h ≡ drop_room e e r b (Room.delete_channel r x h).0
unfolding leave_room
leave_room_lem r x b h e flag drop =
    ap₂ (λ f d. drop_room f d r b (Room.delete_channel r x h).0) flag drop

pub drop_room-facts :
    (e : Bool) (r : Ptr) (b : Bucket) (h : Heap)
    → ((drop_room e e r b h).1 ≡ h)
      × ((drop_room e e r b h).0.chs ≡ b.chs)
      × ((k : ℤ)
          → (drop_room e e r b h).0.rooms k
            ≡ (if e && int_eq k (h.rooms r).id then none else b.rooms k))
unfolding drop_room
drop_room-facts true r b h = (refl, refl, λ k. refl)
drop_room-facts false r b h = (refl, refl, λ k. refl)
