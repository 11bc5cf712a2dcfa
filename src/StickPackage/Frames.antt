-- ===== src/StickPackage/Frames.antt =====
-- Packed messages that fit are found again, one by one and whole.
use zhibo.Prelude.{
  ℕ, zero, suc, ◌+◌, ◌-◌, ◌*◌, ◌/◌, ◌%◌, ◌^◌, ◌≤◌, ◌<◌, ◌≡◌, refl, sym, ap, ◌∙◌, Bytes, false, some,
  List, [], ◌∷◌, ◌++◌, arith, length, length-append, drop, take-append, take-length, drop-append,
  map,
}
use zhibo.StickPackage.{
  StickPackage, version_content, with_length, pack, unpacked, unpack, read_msg, token, split_frame,
  split, scan, cons_token, take_token,
}

-- The package that the server sends for a message.
abbrev pub packet : Bytes → StickPackage
packet m = with_length (record { version = version_content; len = 0; msg = m })

length-packet : (m : Bytes) → length m ≤ 32763 → (packet m).len ≡ 4 + length m
unfolding with_length
length-packet m fits = omega arith

read_msg-fits :
    (p : StickPackage) (m : Bytes)
    → p.len ≡ 4 + length m
    → length m ≤ 32763
    → read_msg p m ≡ unpacked (record p { msg = m }) false
unfolding read_msg
read_msg-fits p m e fits =
    let size : (p.len + 65536 - 4) % 65536 ≡ length m = omega arith in
    rw (size, read_msg) (ground (arith, take-length m))

length_field_lem : (m : Bytes) → (packet m).len / 256 * 256 + (packet m).len % 256 ≡ (packet m).len
length_field_lem m = omega arith

-- A packed message of at most 32763 bytes unpacks to the same package, without an error.
pub unpack-pack :
    (m : Bytes) (p : StickPackage)
    → length m ≤ 32763
    → unpack p (pack (packet m)) ≡ unpacked (packet m) false
unfolding unpack pack with_length
unpack-pack m p fits =
    let q : ℕ → StickPackage = λ n. record { version = version_content; len = n; msg = p.msg } in
    ap (λ (n : ℕ). read_msg (q n) m) (length_field_lem m)
    ∙ read_msg-fits (q (packet m).len) m (length-packet m fits) fits
    ∙ unfold with_length in refl

split_frame-head :
    (frame rest : Bytes)
    → length frame < 2 ^ 15
    → split_frame (length frame) (frame ++ rest) ≡ token (length frame) frame
unfolding split_frame
split_frame-head frame rest fits = ground (arith, length-append frame rest, take-append frame rest)

length-pack : (p : StickPackage) → length (pack p) ≡ 4 + length p.msg
unfolding pack
length-pack p = omega arith

pub split-pack_field :
    (m rest : Bytes)
    → 0 < length m
    → split (pack (packet m) ++ rest) false
      ≡ split_frame ((packet m).len / 256 * 256 + (packet m).len % 256) (pack (packet m) ++ rest)
unfolding split pack with_length
split-pack_field [] rest some_byte = absurd (omega arith)
split-pack_field (x ∷ xs) rest some_byte = refl

-- The split function finds a packed message that is not empty at the head of the data, whatever
-- follows it, and advances to just behind it.
pub split-pack :
    (m rest : Bytes)
    → length m ≤ 32763
    → 0 < length m
    → split (pack (packet m) ++ rest) false ≡ token (4 + length m) (pack (packet m))
split-pack m rest fits some_byte =
    let frame = pack (packet m) in
    let size : length frame ≡ 4 + length m = unfold with_length in length-pack (packet m) in
    let field : (packet m).len / 256 * 256 + (packet m).len % 256 ≡ length frame =
      omega (arith, length-packet m fits, size) in
    split-pack_field m rest some_byte
    ∙ ap (λ (n : ℕ). split_frame n (frame ++ rest)) field
    ∙ split_frame-head frame rest (omega (arith, size))
    ∙ ap (λ (n : ℕ). token n frame) size

-- The bytes of some messages, one frame after another.
unfoldable pub stream : List Bytes → Bytes
stream [] = []
stream (m ∷ ms) = pack (packet m) ++ stream ms

abbrev pub AllFit : List Bytes → Type 0
AllFit [] = Unit {0}
AllFit (m ∷ ms) = (0 < length m) × (length m ≤ 32763) × AllFit ms

scan_token :
    (fuel : ℕ) (a : ℕ) (rest : Bytes) (n : ℕ) (t : Bytes)
    → split (a ∷ rest) false ≡ token n t
    → scan (suc fuel) (a ∷ rest) ≡ cons_token t (scan fuel (drop n (a ∷ rest)))
unfolding scan
scan_token fuel a rest n t e = ap (take_token (scan fuel) (a ∷ rest)) e

drop-pack : (m s : Bytes) → drop (4 + length m) (pack (packet m) ++ s) ≡ s
drop-pack m s =
    let frame = pack (packet m) in
    let size : length frame ≡ 4 + length m = unfold with_length in length-pack (packet m) in
    ap (λ (n : ℕ). drop n (frame ++ s)) (sym size) ∙ drop-append frame s

scan_frame :
    (fuel : ℕ) (m s : Bytes)
    → length m ≤ 32763
    → 0 < length m
    → scan (suc fuel) (pack (packet m) ++ s) ≡ cons_token (pack (packet m)) (scan fuel s)
unfolding pack with_length
scan_frame fuel m s fits some_byte =
    scan_token fuel _ _ (4 + length m) (pack (packet m)) (split-pack m s fits some_byte)
    ∙ ap (λ (d : Bytes). cons_token (pack (packet m)) (scan fuel d)) (drop-pack m s)

-- The scanner takes from a stream of packed messages, none empty and none over 32763 bytes, exactly
-- their frames in order, and keeps nothing back.
pub scan-stream :
    (ms : List Bytes) (fuel : ℕ)
    → AllFit ms
    → length ms < fuel
    → scan fuel (stream ms) ≡ some (map (λ m. pack (packet m)) ms, [])
unfolding stream
scan-stream [] zero fit enough = absurd (omega arith)
scan-stream [] (suc fuel) fit enough = unfold scan in refl
scan-stream (m ∷ ms) zero fit enough = absurd (omega arith)
scan-stream (m ∷ ms) (suc fuel) fit enough =
    unfold stream in
    scan_frame fuel m (stream ms) fit.1 fit.0
    ∙ ap (cons_token (pack (packet m))) (scan-stream ms fuel fit.2 (omega arith))
