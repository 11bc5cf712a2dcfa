-- ===== src/Connect/Room/Chain.antt =====
-- Chains of channels: what the `Next` and `Prev` links of a room's members stand for, and how the
-- writes of connect/room.go change them.
use zhibo.Prelude.{
  false, Option, none, some, List, [], ◌∷◌, ◌≡◌, refl, sym, arith, ◌∈◌, ◌∉◌, Distinct, ◌==◌, ◌∙◌,
}
use mathlib.Core.Path.{subst}
use zhibo.Connect.Room.Links.{link_front}
use zhibo.Connect.Heap.{Ptr, Channels, set_prev, set_next}

-- From `start`, which has `before` for its Prev, the links lead through `xs` to nil.
abbrev pub Chain : Channels → Option Ptr → Option Ptr → List Ptr → Type 0
Chain c before start [] = start ≡ none
Chain c before start (x ∷ xs) =
    (start ≡ some x) × ((c x).prev ≡ before) × Chain c (some x) (c x).next xs

-- The two heaps have the same links at `x`.
pub record SameLinks (c d : Channels) (x : Ptr) : Type 0 where
  pub next : (c x).next ≡ (d x).next
  pub prev : (c x).prev ≡ (d x).prev

-- A chain is unchanged where the links of its members are.
pub Chain-same :
    (c d : Channels) (before start : Option Ptr) (xs : List Ptr)
    → ((x : Ptr) → x ∈ xs → SameLinks d c x)
    → Chain c before start xs
    → Chain d before start xs
Chain-same c d before start [] same h = h
Chain-same c d before start (x ∷ xs) same h =
    let s : SameLinks d c x = same x (ground arith) in
    (
      h.0,
      s.prev ∙ h.1,
      rw s.next (Chain-same c d (some x) (c x).next xs (λ y m. same y (ground arith)) h.2),
    )

set_prev-SameLinks :
    (y : Ptr) (v : Option Ptr) (c : Channels) (x : Ptr)
    → (x == y) ≡ false
    → SameLinks (set_prev y v c) c x
unfolding set_prev
set_prev-SameLinks y v c x ne = record { next = rw ne; prev = rw ne }

set_next-SameLinks :
    (y : Ptr) (v : Option Ptr) (c : Channels) (x : Ptr)
    → (x == y) ≡ false
    → SameLinks (set_next y v c) c x
unfolding set_next
set_next-SameLinks y v c x ne = record { next = rw ne; prev = rw ne }

pub not_same : (y : Ptr) (xs : List Ptr) (x : Ptr) → y ∉ xs → x ∈ xs → (x == y) ≡ false
not_same y [] x out m = cc
not_same y (z ∷ zs) x out m = ground (arith, not_same y zs x)

pub Chain-set_prev_out :
    (c : Channels) (before start : Option Ptr) (xs : List Ptr) (y : Ptr) (v : Option Ptr)
    → y ∉ xs
    → Chain c before start xs
    → Chain (set_prev y v c) before start xs
Chain-set_prev_out c before start xs y v out h =
    Chain-same c _ before start xs (λ x m. set_prev-SameLinks y v c x (not_same y xs x out m)) h

pub Chain-set_next_out :
    (c : Channels) (before start : Option Ptr) (xs : List Ptr) (y : Ptr) (v : Option Ptr)
    → y ∉ xs
    → Chain c before start xs
    → Chain (set_next y v c) before start xs
Chain-set_next_out c before start xs y v out h =
    Chain-same c _ before start xs (λ x m. set_next-SameLinks y v c x (not_same y xs x out m)) h

-- The front insertion of `Room.Put`, before a first member.
link_front_cons :
    (c : Channels) (ch x : Ptr) (xs : List Ptr)
    → ch ∉ (x ∷ xs)
    → Distinct (x ∷ xs)
    → Chain c none (some x) (x ∷ xs)
    → Chain (link_front (some x) ch c) none (some ch) (ch ∷ x ∷ xs)
unfolding link_front set_prev set_next
link_front_cons c ch x xs out d h =
    let same : (link_front (some x) ch c x).next ≡ (c x).next = ground arith in
    let tail : Chain (link_front (some x) ch c) (some x) (c x).next xs =
      Chain-same c (link_front (some x) ch c) (some x) (c x).next xs
        (λ y m. ground (arith, not_same ch xs y, not_same x xs y)) h.2 in
    (refl, ground arith, (ground arith, ground arith, rw same tail))

link_front_nil : (c : Channels) (ch : Ptr) → Chain (link_front none ch c) none (some ch) (ch ∷ [])
unfolding link_front set_prev set_next
link_front_nil c ch = ground arith

-- The front insertion of `Room.Put` puts a channel that is no member before all members.
pub Chain-link_front :
    (c : Channels) (ch : Ptr) (start : Option Ptr) (xs : List Ptr)
    → ch ∉ xs
    → Distinct xs
    → Chain c none start xs
    → Chain (link_front start ch c) none (some ch) (ch ∷ xs)
Chain-link_front c ch start [] out d h = rw h (link_front_nil c ch)
Chain-link_front c ch start (x ∷ xs) out d h =
    subst (λ st. Chain (link_front st ch c) none (some ch) (ch ∷ x ∷ xs)) (sym h.0)
      (link_front_cons c ch x xs out d (refl, h.1, h.2))
