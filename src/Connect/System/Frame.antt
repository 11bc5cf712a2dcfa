-- ===== src/Connect/System/Frame.antt =====
-- What an operation on one bucket leaves alone, and why the other buckets do not notice it.
use zhibo.Prelude.{
  ◌<◌, ◌≤◌, ℤ, some, ◌≡◌, ◌≢◌, inl, inr, sym, ap, ◌∙◌, arith, false, ◌==◌, ==_iff, Bool-cases,
}
use zhibo.Connect.Heap.{Ptr, Heap, Room}
use zhibo.Connect.Room.Chain.{SameLinks}
use zhibo.Connect.Bucket.{Bucket}
use zhibo.Connect.Bucket.Invariant.{Members, IsBucket, RoomAt-frame}

-- From `h` to `g` only the room `r`, its members and channels without a room may change.
pub record Touches (h g : Heap) (members members' : Members) (r : Ptr) : Type 0 where
  pub grows : h.fresh_room ≤ g.fresh_room
  pub rooms : (q : Ptr) → (q == r) ≡ false → q < h.fresh_room → g.rooms q ≡ h.rooms q
  pub lists : (q : Ptr) → (q == r) ≡ false → q < h.fresh_room → members' q ≡ members q
  pub links :
      (y q : Ptr)
      → (h.channels y).room ≡ some q
      → (q == r) ≡ false
      → SameLinks g.channels h.channels y
  pub keeps : (y q : Ptr) → (h.channels y).room ≡ some q → (g.channels y).room ≡ some q

module _ (h g : Heap) (members members' : Members) (r : Ptr) (t : Touches h g members members' r)
    (c : Bucket) (is : IsBucket c h members) (other : (k : ℤ) → c.rooms k ≢ some r)
    (same : (u : ℤ) (x : Ptr)
      → c.chs u ≡ some x
      → ((g.channels x).room ≡ (h.channels x).room)
        × ((g.channels x).user_id ≡ (h.channels x).user_id)) where
  other_room : (k : ℤ) (q : Ptr) → c.rooms k ≡ some q → (q == r) ≡ false
  other_room k q e = elim (Bool-cases (q == r)) [
    | inl eq ↦ absurd (other k (e ∙ ap some ((==_iff q r).0 eq)))
    | inr ne ↦ ne
  ]

  -- A bucket without the room keeps its invariant.
  pub IsBucket-frame : IsBucket c g members'
  IsBucket-frame = record {
    at_room = λ k q e.
        let at = is.at_room k q e in
        let ne = other_room k q e in
        RoomAt-frame h g members members' k q (t.lists q ne at.allocated)
          (t.rooms q ne at.allocated) t.grows (λ y m. t.links y q (at.inside y m) ne)
          (λ y m. t.keeps y q (at.inside y m) ∙ sym (at.inside y m)) at;
    online = λ u x e. (same u x e).1 ∙ is.online u x e;
    joined = λ u x q e m.
        let j = is.joined u x q e (sym (same u x e).0 ∙ m) in
        let at = is.at_room (h.rooms q).id q j.1 in
        let ne = other_room (h.rooms q).id q j.1 in
        (
          ground (arith, t.lists q ne at.allocated),
          ap (λ (p : Room). c.rooms p.id) (t.rooms q ne at.allocated) ∙ j.1,
        );
  }
