-- ===== src/Connect/Room/Members.antt =====
-- What a room holds: its members in order, their number, and how Put and DeleteChannel change it.
use zhibo.Prelude.{
  pos, false, Option, none, some, List, [], ◌∷◌, ◌++◌, ◌≡◌, refl, sym, ap, suc, ◌∙◌, arith, ◌∉◌,
  Distinct, has-append, length, length-append, is_empty, is_empty-nonpos, update_self, dec,
  is_nonpos, update,
}
use mathlib.Core.Path.{ap₂, subst}
use zhibo.Connect.Heap.{Ptr, Channels, Heap, Room, set_prev, set_next}
use zhibo.Connect.Room.Links.{unlink, unlink_next, unlink_prev}
use zhibo.Connect.Room.Chain.{Chain, Chain-link_front}
use zhibo.Connect.Room.Unlink.{
  Chain-unlink, rest-Chain, is_at-start, rest_start, is_at, last_or-some, prev-last,
}
use zhibo.Connect.Room.{put, delete_channel, head_after}

-- `xs` are the members, newest first; OnlineCount counts them.
pub record IsRoom (h : Heap) (r : Ptr) (xs : List Ptr) : Type 0 where
  pub chain : Chain h.channels none (h.rooms r).next xs
  pub distinct : Distinct xs
  pub counted : (h.rooms r).online_count ≡ pos (length xs)

-- Room.Put on a room that is not dropped puts a channel that is no member in front.
pub put-IsRoom :
    (h : Heap) (r ch : Ptr) (xs : List Ptr)
    → IsRoom h r xs
    → (h.rooms r).dropped ≡ false
    → ch ∉ xs
    → IsRoom (put r ch h).0 r (ch ∷ xs) × ((put r ch h).1 ≡ none)
unfolding put update
put-IsRoom h r ch xs is live out =
    let linked = Chain-link_front h.channels ch (h.rooms r).next xs out is.distinct is.chain in
    rw live (
      record {
        chain = (ground arith, linked.1, linked.2);
        distinct = (out, is.distinct);
        counted = ground (arith, is.counted);
      },
      refl,
    )

pub Distinct-remove :
    (x : Ptr) (ys zs : List Ptr)
    → Distinct (ys ++ x ∷ zs)
    → Distinct (ys ++ zs) × (x ∉ zs) × (x ∉ (ys ++ zs))
Distinct-remove x [] zs d = (d.1, d.0, d.0)
Distinct-remove x (y ∷ ys) zs d =
    let rest = Distinct-remove x ys zs d.1 in
    (
      ground (arith, has-append y ys zs, has-append y ys (x ∷ zs)),
      rest.1,
      ground (arith, has-append y ys zs, has-append y ys (x ∷ zs)),
    )

-- The first channel that DeleteChannel leaves is the start of the rest.
head_after_lem :
    (c : Channels) (start : Option Ptr) (x : Ptr) (ys zs : List Ptr)
    → Chain c none start (ys ++ x ∷ zs)
    → head_after (c x).prev (c x).next start ≡ rest_start ys (c x).next start
head_after_lem c start x [] zs h = rw (h.1)
head_after_lem c start x (y ∷ ys) zs h =
    let (p, at_p) = last_or-some none y ys in rw (prev-last c x zs none start (y ∷ ys) h ∙ at_p)

pub loose_lem :
    (c : Channels) (start : Option Ptr) (x : Ptr) (ys zs : List Ptr)
    → Chain c none start (ys ++ x ∷ zs)
    → Distinct (ys ++ x ∷ zs)
    → is_at (c x).next x ≡ false
loose_lem c start x ys zs h d =
    is_at-start c (some x) (c x).next zs x (rest-Chain c x zs none start ys h)
      (Distinct-remove x ys zs d).1

unlink_next_self :
    (c : Channels) (x : Ptr)
    → is_at (c x).next x ≡ false
    → (((unlink_next x (c x).next c) x).next ≡ (c x).next)
      × (((unlink_next x (c x).next c) x).prev ≡ (c x).prev)
unfolding unlink_next set_prev
unlink_next_self c x loose = ground arith

length-remove : (x : Ptr) (ys zs : List Ptr) → length (ys ++ x ∷ zs) ≡ suc (length (ys ++ zs))
length-remove x ys zs = omega (arith, length-append ys zs, length-append ys (x ∷ zs))

count_lem :
    (h : Heap) (r x : Ptr) (ys zs : List Ptr)
    → IsRoom h r (ys ++ x ∷ zs)
    → dec (h.rooms r).online_count ≡ pos (length (ys ++ zs))
count_lem h r x ys zs is = ap dec (is.counted ∙ ap pos (length-remove x ys zs))

-- The room's fields after DeleteChannel.
pub room_after :
    (r x : Ptr) (h : Heap)
    → (delete_channel r x h).0.rooms r ≡ (
        let c = unlink_next x (h.channels x).next h.channels in
        record (h.rooms r) {
          next = head_after (c x).prev (c x).next (h.rooms r).next;
          online_count = dec (h.rooms r).online_count;
          dropped = is_nonpos (dec (h.rooms r).online_count);
        })
unfolding delete_channel
room_after r x h = update_self h.rooms r _

-- Room.DeleteChannel takes out exactly the given member, and reports and marks a drop exactly when
-- no member is left.
pub delete_channel-IsRoom :
    (h : Heap) (r x : Ptr) (ys zs : List Ptr)
    → IsRoom h r (ys ++ x ∷ zs)
    → IsRoom (delete_channel r x h).0 r (ys ++ zs)
      × ((delete_channel r x h).1 ≡ is_empty (ys ++ zs))
      × (((delete_channel r x h).0.rooms r).dropped ≡ is_empty (ys ++ zs))
unfolding delete_channel
delete_channel-IsRoom h r x ys zs is =
    let c = h.channels in
    let loose = loose_lem c (h.rooms r).next x ys zs is.chain is.distinct in
    let same = unlink_next_self c x loose in
    let count = count_lem h r x ys zs is in
    let empty = ap is_nonpos count ∙ is_empty-nonpos (ys ++ zs) in
    let next = ap₂ (λ (n p : Option Ptr). head_after p n (h.rooms r).next) same.0 same.1 in
    let start = next ∙ head_after_lem c (h.rooms r).next x ys zs is.chain in
    let room = room_after r x h in
    (
      record {
        chain =
            subst (λ (st : Option Ptr). Chain (unlink x c) none st (ys ++ zs))
              (sym (ap (λ (q : Room). q.next) room ∙ start))
              (Chain-unlink c x loose none (h.rooms r).next ys zs is.chain is.distinct tt);
        distinct = (Distinct-remove x ys zs is.distinct).0;
        counted = ap (λ (q : Room). q.online_count) room ∙ count;
      },
      empty,
      ap (λ (q : Room). q.dropped) room ∙ empty,
    )

-- The Room and the user of every channel stay as they are.
pub delete_channel-fields :
    (h : Heap) (r x y : Ptr)
    → (((delete_channel r x h).0.channels y).room ≡ (h.channels y).room)
      × (((delete_channel r x h).0.channels y).user_id ≡ (h.channels y).user_id)
unfolding delete_channel unlink_prev set_prev set_next
delete_channel-fields h r x y = ground arith
