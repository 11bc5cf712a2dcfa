-- ===== src/Connect/System/Effect.antt =====
-- The effect of an operation on one bucket, as far as the rest of the server depends on it.
use zhibo.Prelude.{ℤ, some, ◌≡◌, ◌⊎◌, inl, inr, refl, ◌∙◌, arith, length}
use zhibo.Connect.Heap.{Ptr, Heap}
use zhibo.Connect.Room.Chain.{SameLinks}
use zhibo.Connect.Bucket.{done, Bucket}
use zhibo.Connect.Bucket.Invariant.{Members}
use zhibo.Connect.System.Frame.{Touches}

pub record Effect (b b' : Bucket) (h g : Heap) (members members' : Members) : Type 0 where
  pub room : Ptr
  pub touched : Touches h g members members' room
  pub mine : ((k : ℤ) × (b.rooms k ≡ some room)) ⊎ (room ≡ h.fresh_room)
  pub rooms : (k : ℤ) (q : Ptr) → b'.rooms k ≡ some q → (b.rooms k ≡ some q) ⊎ (q ≡ h.fresh_room)
  pub options : b'.bucket_options ≡ b.bucket_options
  pub amount : length b'.routines ≡ length b.routines

pub SameLinks-refl : (h : Heap) (y : Ptr) → SameLinks h.channels h.channels y
SameLinks-refl h y = record { next = refl; prev = refl }

pub Touches-refl : (h : Heap) (members : Members) (r : Ptr) → Touches h h members members r
Touches-refl h members r = record {
  grows = omega arith;
  rooms = λ q ne lt. refl;
  lists = λ q ne lt. refl;
  links = λ y q e ne. SameLinks-refl h y;
  keeps = λ y q e. e;
}

pub Touches-trans :
    (h g k : Heap) (members members' members'' : Members) (r : Ptr)
    → Touches h g members members' r
    → Touches g k members' members'' r
    → Touches h k members members'' r
Touches-trans h g k members members' members'' r t u = record {
  grows = omega (arith, t.grows, u.grows);
  rooms = λ q ne lt. u.rooms q ne (omega (arith, t.grows)) ∙ t.rooms q ne lt;
  lists = λ q ne lt. u.lists q ne (omega (arith, t.grows)) ∙ t.lists q ne lt;
  links = λ y q e ne.
      let a = t.links y q e ne in
      let b = u.links y q (t.keeps y q e) ne in
      record { next = b.next ∙ a.next; prev = b.prev ∙ a.prev };
  keeps = λ y q e. u.keeps y q (t.keeps y q e);
}

-- An operation that leaves the heap alone, and makes no room.
pub Effect-same_heap :
    (b b' : Bucket) (h : Heap) (members : Members)
    → ((k : ℤ) (q : Ptr) → b'.rooms k ≡ some q → b.rooms k ≡ some q)
    → b'.bucket_options ≡ b.bucket_options
    → length b'.routines ≡ length b.routines
    → Effect b b' h h members members
Effect-same_heap b b' h members rooms options amount = record {
  room = h.fresh_room;
  touched = Touches-refl h members h.fresh_room;
  mine = inr refl;
  rooms = λ k q e. inl (rooms k q e);
  options = options;
  amount = amount;
}

-- The result of a call is one.
pub done-injective {ℓ} : {A : Type ℓ} {x y : A} → done x ≡ done y → x ≡ y
done-injective e = cc
