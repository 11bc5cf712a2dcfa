-- ===== src/Connect/System/Leaves.antt =====
-- Bucket.DeleteChannel of any channel.
use zhibo.Prelude.{
  Option, none, some, ◌≡◌, inl, inr, refl, sym, ap, ◌∙◌, arith, Bool, true, false, ◌==◌, length,
  is_empty, Option-cases, update, update_key, ◌∉◌,
}
use zhibo.Connect.Heap.{Ptr, Heap}
use zhibo.Connect.Room.Members.{delete_channel-fields}
use zhibo.Connect.Bucket.{
  Bucket, done, delete_channel, delete_known, delete_found, leave_room, drop_room,
}
use zhibo.Connect.Bucket.Invariant.{Members, IsBucket}
use zhibo.Connect.Bucket.Leaving.{left-links, left-other_room, left-fresh}
use zhibo.Connect.Bucket.Delete
use zhibo.Connect.Bucket.Delete.{delete_channel-own, delete_channel-user, delete_channel-eq}
use zhibo.Connect.System.Frame.{Touches}
use zhibo.Connect.System.Effect.{Effect, Effect-same_heap}

drop_room-options :
    (e : Bool) (r : Ptr) (b : Bucket) (h : Heap)
    → ((drop_room e e r b h).0.bucket_options ≡ b.bucket_options)
      × (length (drop_room e e r b h).0.routines ≡ length b.routines)
unfolding drop_room
drop_room-options true r b h = (refl, refl)
drop_room-options false r b h = (refl, refl)

-- Each channel has the Room and the user that it had.
abbrev pub SameUsers : Heap → Heap → Type 0
SameUsers h g =
    (y : Ptr)
    → ((g.channels y).room ≡ (h.channels y).room)
      × ((g.channels y).user_id ≡ (h.channels y).user_id)

-- DeleteChannel returns, with the invariant kept.
pub record Deleted (ch : Ptr) (b : Bucket) (h : Heap) (members : Members) : Type 0 where
  pub b' : Bucket
  pub h' : Heap
  pub members' : Members
  pub ran : delete_channel ch b h ≡ done (b', h')
  pub own : IsBucket b' h' members'
  pub effect : Effect b b' h h' members members'
  pub users : SameUsers h h'

module _ (b : Bucket) (h : Heap) (members : Members) (r ch : Ptr) (is : IsBucket b h members)
    (known : b.chs (h.channels ch).user_id ≡ some ch) (room : (h.channels ch).room ≡ some r) where
  outside : (y q : Ptr) → (h.channels y).room ≡ some q → (q == r) ≡ false → y ∉ members r
  outside y q e ne = ground (arith, (Delete.here b h members r ch is known room).inside y)

  left-Touches :
      Touches h
        (Delete.left b h members r ch is known room)
        members
        (Delete.without_member b h members r ch is known room)
        r
  left-Touches =
      let here = (Delete.here b h members r ch is known room).is_room in
      let member = (Delete.joins b h members r ch is known room).0 in
      record {
        grows = omega (arith, left-fresh h r ch (members r) here member);
        rooms = λ q ne lt. left-other_room h r ch (members r) here member q ne;
        lists = λ q ne lt. unfold update in ground arith;
        links = λ y q e ne. left-links h r ch (members r) here member y (outside y q e ne);
        keeps = λ y q e. (delete_channel-fields h r ch y).0 ∙ e;
      }

  left-Effect :
      Effect b
        (Delete.final b h members r ch is known room)
        h
        (Delete.left b h members r ch is known room)
        members
        (Delete.without_member b h members r ch is known room)
  left-Effect =
      let kept =
        drop_room-options (is_empty (Delete.rest b h members r ch is known room)) r
          (Delete.gone b h members r ch is known room)
          (Delete.left b h members r ch is known room) in
      record {
        room = r;
        touched = left-Touches;
        mine = inl ((h.rooms r).id, (Delete.joins b h members r ch is known room).1);
        rooms = λ k q e. inl (Delete.final_rooms b h members r ch is known room k q e).0;
        options = kept.0;
        amount = kept.1;
      }

  in_room-Deleted : Deleted ch b h members
  in_room-Deleted = record {
    b' = Delete.final b h members r ch is known room;
    h' = Delete.left b h members r ch is known room;
    members' = Delete.without_member b h members r ch is known room;
    ran = delete_channel-eq b h members r ch is known room;
    own = delete_channel-own b h members r ch is known room;
    effect = left-Effect;
    users = λ y. delete_channel-fields h r ch y;
  }

module _ (b : Bucket) (h : Heap) (members : Members) (is : IsBucket b h members) where
  no_user-Deleted : (ch : Ptr) → b.chs (h.channels ch).user_id ≡ none → Deleted ch b h members
  unfolding delete_channel
  no_user-Deleted ch absent = record {
    b' = b;
    h' = h;
    members' = members;
    ran = ap (λ (o : Option Ptr). delete_known o b h) absent;
    own = is;
    effect = Effect-same_heap b b h members (λ k q e. e) refl refl;
    users = λ y. (refl, refl);
  }

  abbrev signed_off : Ptr → Bucket
  signed_off ch = record b { chs = update_key b.chs (h.channels ch).user_id none }

  signed_off-IsBucket : (ch : Ptr) → IsBucket (signed_off ch) h members
  unfolding update_key
  signed_off-IsBucket ch = record {
    at_room = is.at_room;
    online = λ u x e. is.online u x (ground arith);
    joined = λ u x q e m. is.joined u x q (ground arith) m;
  }

  no_room-Deleted :
      (ch : Ptr)
      → b.chs (h.channels ch).user_id ≡ some ch
      → (h.channels ch).room ≡ none
      → Deleted ch b h members
  unfolding delete_channel
  no_room-Deleted ch known outside = record {
    b' = signed_off ch;
    h' = h;
    members' = members;
    ran =
        ap (λ (o : Option Ptr). delete_known o b h) known
        ∙ ap (λ (o : Option Ptr). delete_found o ch b h) known
        ∙ ap (λ (o : Option Ptr). done (leave_room o ch (signed_off ch) h)) outside;
    own = signed_off-IsBucket ch;
    effect = Effect-same_heap b (signed_off ch) h members (λ k q e. e) refl refl;
    users = λ y. (refl, refl);
  }

  own-Deleted : (ch : Ptr) → b.chs (h.channels ch).user_id ≡ some ch → Deleted ch b h members
  own-Deleted ch known = elim (Option-cases (h.channels ch).room) [
    | inl outside ↦ no_room-Deleted ch known outside
    | inr (r, room) ↦ in_room-Deleted b h members r ch is known room
  ]

  other-Deleted :
      (ch c : Ptr)
      → (h.channels ch).user_id ≡ (h.channels c).user_id
      → Deleted c b h members
      → Deleted ch b h members
  other-Deleted ch c same d = record {
    b' = d.b';
    h' = d.h';
    members' = d.members';
    ran = delete_channel-user ch c b h same ∙ d.ran;
    own = d.own;
    effect = d.effect;
    users = d.users;
  }

  -- On a bucket that keeps its invariant DeleteChannel returns for every channel, and keeps it.
  pub delete_channel-Deleted : (ch : Ptr) → Deleted ch b h members
  delete_channel-Deleted ch = elim (Option-cases (b.chs (h.channels ch).user_id)) [
    | inl absent ↦ no_user-Deleted ch absent
    | inr (c, found) ↦
        let same = is.online (h.channels ch).user_id c found in
        other-Deleted ch c (sym same) (own-Deleted c (ap b.chs same ∙ found))
  ]
