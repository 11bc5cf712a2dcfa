-- ===== src/Connect/Room/Unlink.antt =====
-- `Room.DeleteChannel` takes exactly one channel out of the chain of members.
use zhibo.Prelude.{
  Bool, false, Option, none, some, List, [], ◌∷◌, ◌++◌, ◌≡◌, refl, arith, ◌∈◌, ◌∉◌, Distinct,
  has-append, ◌==◌, if◌then◌else◌,
}
use zhibo.Connect.Room.Links.{unlink_next, unlink_prev, unlink}
use zhibo.Connect.Room.Chain.{Chain, Chain-same, SameLinks, not_same}
use zhibo.Connect.Heap.{Ptr, Channels, set_prev, set_next}

abbrev pub is_at : Option Ptr → Ptr → Bool
is_at none y = false
is_at (some p) y = y == p

-- The two writes, seen from any channel, when the channel does not follow itself.
pub unlink-links :
    (x y : Ptr) (c : Channels)
    → is_at (c x).next x ≡ false
    → ((unlink x c y).next ≡ (if is_at (c x).prev y then (c x).next else (c y).next))
      × ((unlink x c y).prev ≡ (if is_at (c x).next y then (c x).prev else (c y).prev))
unfolding unlink unlink_next unlink_prev set_prev set_next
unlink-links x y c loose = ground arith

-- The Prev of the channel behind `ys`, and the start of what is left when it goes.
abbrev pub last_or : Option Ptr → List Ptr → Option Ptr
last_or before [] = before
last_or before (y ∷ ys) = last_or (some y) ys

pub last_or-some :
    (before : Option Ptr) (y : Ptr) (ys : List Ptr) → (p : Ptr) × (last_or before (y ∷ ys) ≡ some p)
last_or-some before y [] = (y, refl)
last_or-some before y (z ∷ zs) = last_or-some (some y) z zs

abbrev pub rest_start : List Ptr → Option Ptr → Option Ptr → Option Ptr
rest_start [] next start = next
rest_start (y ∷ ys) next start = start

module _ (c : Channels) (x : Ptr) (zs : List Ptr) where
  pub prev-last :
      (before start : Option Ptr) (ys : List Ptr)
      → Chain c before start (ys ++ x ∷ zs)
      → (c x).prev ≡ last_or before ys
  prev-last before start [] h = h.1
  prev-last before start (y ∷ ys) h = prev-last (some y) (c y).next ys h.2

  pub rest-Chain :
      (before start : Option Ptr) (ys : List Ptr)
      → Chain c before start (ys ++ x ∷ zs)
      → Chain c (some x) (c x).next zs
  rest-Chain before start [] h = h.2
  rest-Chain before start (y ∷ ys) h = rest-Chain (some y) (c y).next ys h.2

pub is_at-last :
    (y w : Ptr) (ws : List Ptr) (before : Option Ptr)
    → y ∉ (w ∷ ws)
    → is_at (last_or before (w ∷ ws)) y ≡ false
is_at-last y w [] before out = ground arith
is_at-last y w (v ∷ ws) before out = is_at-last y v ws (some w) (ground arith)

pub is_at-start :
    (c : Channels) (before start : Option Ptr) (zs : List Ptr) (y : Ptr)
    → Chain c before start zs
    → y ∉ zs
    → is_at start y ≡ false
is_at-start c before start [] y h out = rw h
is_at-start c before start (z ∷ zs) y h out = rw (h.0) (ground arith)

-- No member of the list is the channel before it.
abbrev pub Outside : Option Ptr → List Ptr → Type 0
Outside none xs = Unit {0}
Outside (some p) xs = p ∉ xs

Outside-tail :
    (before : Option Ptr) (x : Ptr) (xs : List Ptr) → Outside before (x ∷ xs) → Outside before xs
Outside-tail none x xs out = tt
Outside-tail (some p) x xs out = ground arith

Outside-is_at :
    (before : Option Ptr) (xs : List Ptr) (y : Ptr)
    → Outside before xs
    → y ∈ xs
    → is_at before y ≡ false
Outside-is_at none xs y out m = refl
Outside-is_at (some p) xs y out m = not_same p xs y out m

module _ (c : Channels) (x : Ptr) (loose : is_at (c x).next x ≡ false) where
  front-unlink :
      (before : Option Ptr) (zs : List Ptr)
      → (c x).prev ≡ before
      → Chain c (some x) (c x).next zs
      → Distinct zs
      → Outside before zs
      → Chain (unlink x c) before (c x).next zs
  front-unlink before [] e h d out = h
  front-unlink before (z ∷ zs) e h d out =
      let next_z : (unlink x c z).next ≡ (c z).next =
        ground (arith, unlink-links x z c loose, Outside-is_at before (z ∷ zs) z out) in
      (
        h.0,
        ground (arith, unlink-links x z c loose),
        rw next_z (
            Chain-same c (unlink x c) (some z) (c z).next zs
              (λ y m. ground (
                arith,
                unlink-links x y c loose,
                Outside-is_at before (z ∷ zs) y out,
                not_same z zs y,
              ))
              h.2),
      )

  pub Chain-unlink :
      (before start : Option Ptr) (ys zs : List Ptr)
      → Chain c before start (ys ++ x ∷ zs)
      → Distinct (ys ++ x ∷ zs)
      → Outside before (ys ++ x ∷ zs)
      → Chain (unlink x c) before (rest_start ys (c x).next start) (ys ++ zs)
  Chain-unlink before start [] zs h d out =
      front-unlink before zs h.1 h.2 d.1 (Outside-tail before x zs out)
  Chain-unlink before start (y ∷ []) zs h d out =
      let at_y = is_at-start c (some x) (c x).next zs y h.2.2 (ground arith) in
      let next_y : (unlink x c y).next ≡ (c x).next =
        ground (arith, unlink-links x y c loose, h.2.1) in
      (
        h.0,
        ground (arith, unlink-links x y c loose),
        rw next_y (Chain-unlink (some y) (c y).next [] zs h.2 d.1 d.0),
      )
  Chain-unlink before start (y ∷ w ∷ ws) zs h d out =
      let at_y =
        is_at-start c (some x) (c x).next zs y (rest-Chain c x zs (some y) (c y).next (w ∷ ws) h.2)
          (ground (arith, has-append y (w ∷ ws) (x ∷ zs))) in
      let at_prev = is_at-last y w ws (some y) (ground (arith, has-append y (w ∷ ws) (x ∷ zs))) in
      let next_y : (unlink x c y).next ≡ (c y).next =
        ground
          (arith, unlink-links x y c loose, prev-last c x zs (some y) (c y).next (w ∷ ws) h.2) in
      (
        h.0,
        ground (arith, unlink-links x y c loose),
        rw next_y (Chain-unlink (some y) (c y).next (w ∷ ws) zs h.2 d.1 d.0),
      )

-- The links of a channel that is no member stay as they are.
pub unlink-outside :
    (c : Channels) (start : Option Ptr) (x : Ptr) (ys zs : List Ptr) (y : Ptr)
    → is_at (c x).next x ≡ false
    → Chain c none start (ys ++ x ∷ zs)
    → y ∉ (ys ++ x ∷ zs)
    → SameLinks (unlink x c) c y
unlink-outside c start x [] zs y loose h out =
    let next = is_at-start c (some x) (c x).next zs y h.2 (ground arith) in
    record {
      next = ground (arith, unlink-links x y c loose, h.1);
      prev = ground (arith, unlink-links x y c loose);
    }
unlink-outside c start x (w ∷ ws) zs y loose h out =
    let parts = has-append y (w ∷ ws) (x ∷ zs) in
    let next =
      is_at-start c (some x) (c x).next zs y (rest-Chain c x zs none start (w ∷ ws) h)
        (ground arith) in
    let prev = is_at-last y w ws none (ground arith) in
    record {
      next = ground (arith, unlink-links x y c loose, prev-last c x zs none start (w ∷ ws) h);
      prev = ground (arith, unlink-links x y c loose);
    }
