-- ===== src/StickPackage/Overflow.antt =====
-- Length fields that do not fit: the int16 wraps, and the split function slices by a negative bound.
use zhibo.Prelude.{ℕ, ◌^◌, ◌≤◌, ◌<◌, ◌≡◌, ◌∙◌, Bytes, true, false, ◌++◌, arith, length}
use zhibo.StickPackage.{with_length, pack, Split, is_negative, split_frame, split}
use zhibo.StickPackage.Frames.{packet, split-pack_field}

split_frame-negative : (n : ℕ) (frame : Bytes) → 2 ^ 15 ≤ n → split_frame n frame ≡ Split.panics
unfolding split_frame
split_frame-negative n frame negative = ground arith

-- GetPackageLength of a message of 32764 to 65531 bytes is negative, and the packed message makes
-- the split function of its receiver panic.
pub split-pack_overflow :
    (m rest : Bytes)
    → 32763 < length m
    → length m < 65532
    → (is_negative (packet m).len ≡ true) × (split (pack (packet m) ++ rest) false ≡ Split.panics)
unfolding with_length
split-pack_overflow m rest long short =
    let negative : 2 ^ 15 ≤ (packet m).len = omega arith in
    (ground arith, split-pack_field m rest (omega arith) ∙ split_frame-negative _ _ (omega arith))
