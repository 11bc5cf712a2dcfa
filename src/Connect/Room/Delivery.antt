-- ===== src/Connect/Room/Delivery.antt =====
-- Room.Push: on a room whose members form a chain the loop ends and reaches every member once; on a
-- room whose first member follows itself it never ends.
use zhibo.Prelude.{
  ℕ, zero, suc, ◌≤◌, false, Option, none, some, List, [], ◌∷◌, ◌≡◌, refl, arith, has, Distinct,
  ◌==◌, if◌then◌else◌, length, update, ◌∙◌, sym,
}
use mathlib.Core.Path.{subst}
use zhibo.Connect.Room.Links.{link_front}
use zhibo.Proto.{Msg}
use zhibo.Connect.Heap.{Ptr, Channel, Channels, Heap, offer, push, set_prev, set_next}
use zhibo.Connect.Room.Chain.{Chain, Chain-same, SameLinks, not_same}
use zhibo.Connect.Room.{put, push_loop, push_room}
use zhibo.Connect.Room.Members.{IsRoom}

offer-links :
    (m : Msg) (ch : Channel) → ((offer m ch).next ≡ ch.next) × ((offer m ch).prev ≡ ch.prev)
unfolding offer
offer-links m ch = ground arith

push-at :
    (x : Ptr) (m : Msg) (c : Channels) (y : Ptr)
    → push x m c y ≡ (if y == x then offer m (c x) else c y)
unfolding push update
push-at x m c y = ground arith

push-SameLinks : (x : Ptr) (m : Msg) (c : Channels) (y : Ptr) → SameLinks (push x m c) c y
unfolding push update
push-SameLinks x m c y = record {
  next = ground (arith, offer-links m (c x));
  prev = ground (arith, offer-links m (c x));
}

push_loop-Chain :
    (fuel : ℕ) (before start : Option Ptr) (m : Msg) (c : Channels) (xs : List Ptr)
    → length xs ≤ fuel
    → Chain c before start xs
    → Distinct xs
    → (d : Channels) × (push_loop fuel start m c ≡ some d)
      × ((y : Ptr) → d y ≡ (if has y xs then offer m (c y) else c y))
unfolding push_loop
push_loop-Chain fuel before start m c [] enough h d = (c, rw h, λ y. refl)
push_loop-Chain zero before start m c (x ∷ xs) enough h d = absurd (omega arith)
push_loop-Chain (suc fuel) before start m c (x ∷ xs) enough h d =
    let same = push-SameLinks x m c in
    let tail = Chain-same c (push x m c) (some x) (c x).next xs (λ y _. same y) h.2 in
    let tail' =
      subst (λ (st : Option Ptr). Chain (push x m c) (some x) st xs) (sym (same x).next) tail in
    let rest =
      push_loop-Chain fuel (some x) (push x m c x).next m (push x m c) xs (omega arith) tail' d.1 in
    (rest.0, rw (h.0) rest.1, λ y. ground (arith, rest.2 y, push-at x m c y, not_same x xs y d.0))

pub push_room-some :
    (fuel : ℕ) (r : Ptr) (m : Msg) (h : Heap) (c : Channels)
    → push_loop fuel (h.rooms r).next m h.channels ≡ some c
    → push_room fuel r m h ≡ some (record h { channels = c })
unfolding push_room
push_room-some fuel r m h c e = rw (e, push_room)

push_room-none :
    (fuel : ℕ) (r : Ptr) (m : Msg) (h : Heap) {st : Option Ptr}
    → (h.rooms r).next ≡ st
    → push_loop fuel st m h.channels ≡ none
    → push_room fuel r m h ≡ none
unfolding push_room
push_room-none fuel r m h at e =
    let e' = subst (λ (q : Option Ptr). push_loop fuel q m h.channels ≡ none) (sym at) e in
    rw (e', push_room)

-- In a room whose list is a chain of distinct channels (IsRoom), with fuel for at least their number,
-- Room.Push ends, having offered the message once to each of them and to no other channel.
pub push_room-members :
    (h : Heap) (r : Ptr) (xs : List Ptr) (m : Msg) (fuel : ℕ)
    → IsRoom h r xs
    → length xs ≤ fuel
    → (g : Heap) × (push_room fuel r m h ≡ some g)
      × ((y : Ptr) → g.channels y ≡ (if has y xs then offer m (h.channels y) else h.channels y))
      × (g.rooms ≡ h.rooms)
push_room-members h r xs m fuel is enough =
    let done =
      push_loop-Chain fuel none (h.rooms r).next m h.channels xs enough is.chain is.distinct in
    (record h { channels = done.0 }, push_room-some fuel r m h done.0 done.1, done.2, refl)

-- A channel that follows itself keeps the loop going.
cycle_lem :
    (fuel : ℕ) (ch : Ptr) (m : Msg) (c : Channels)
    → (c ch).next ≡ some ch
    → push_loop fuel (some ch) m c ≡ none
unfolding push_loop
cycle_lem zero ch m c e = refl
cycle_lem (suc fuel) ch m c e =
    let e' : (push ch m c ch).next ≡ some ch = (push-SameLinks ch m c ch).next ∙ e in
    subst (λ (st : Option Ptr). push_loop fuel st m (push ch m c) ≡ none) (sym e')
      (cycle_lem fuel ch m (push ch m c) e')

put-front :
    (h : Heap) (r ch : Ptr)
    → (h.rooms r).dropped ≡ false
    → (((put r ch h).0.rooms r).next ≡ some ch) × (((put r ch h).0.rooms r).dropped ≡ false)
unfolding put update
put-front h r ch live = rw live (ground arith)

put_again :
    (h : Heap) (r ch : Ptr)
    → (h.rooms r).dropped ≡ false
    → (h.rooms r).next ≡ some ch
    → ((put r ch h).0.channels ch).next ≡ some ch
unfolding put link_front set_prev set_next
put_again h r ch live front = ground arith

-- When a channel that is in front of a live room is put into it again, Room.Push never ends.
pub put_twice-push_room :
    (h : Heap) (r ch : Ptr) (m : Msg) (fuel : ℕ)
    → (h.rooms r).dropped ≡ false
    → push_room fuel r m (put r ch (put r ch h).0).0 ≡ none
put_twice-push_room h r ch m fuel live =
    let once = put-front h r ch live in
    let g = (put r ch (put r ch h).0).0 in
    push_room-none fuel r m g (put-front (put r ch h).0 r ch once.1).0
      (cycle_lem fuel ch m g.channels (put_again (put r ch h).0 r ch once.1 once.0))
