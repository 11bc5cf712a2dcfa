-- ===== src/Connect/Session/Reader.antt =====
-- readDataFromTcp of connect/server_tcp.go as a whole: the packages that the scanner gives, one after
-- the other, in at most three rounds. A scanner that gave a package has no error yet. `decode` is json.Unmarshal into a SendTcp, `none` its error;
-- `failed` says that the scanner has an error when it gives no more.
use zhibo.Prelude.{
  ℕ, zero, suc, ◌<◌, ◌≤◌, Bytes, Bool, true, false, Option, none, some, List, [], ◌∷◌, ◌≡◌, refl,
  ap, ◌∙◌, map, length, if◌then◌else◌,
}
use zhibo.Proto.{SendTcp}
use zhibo.StickPackage.{StickPackage, Unpacked, unpacked, unpack, new_package, pack, scan}
use zhibo.StickPackage as Stick
use zhibo.StickPackage.Frames.{packet, unpack-pack, stream, AllFit, scan-stream}
use zhibo.Connect.Heap.{Ptr}
use zhibo.Connect.Server.{State}
use zhibo.Connect.Session.{LogicClient, Turn, next, stop, wait, crash, exit, read_tcp}

-- One package: the scanner is asked again, or the inner loop is left, or the function returns.
pub data Handled (A : Type 0) : Type 0 where
  again : A → Handled A
  leaves : A → Handled A
  returns : Turn A → Handled A

-- One inner loop: it was left with packages to come, or the scanner gave no more, or the function
-- returns.
pub data Round (A : Type 0) : Type 0 where
  left : List Bytes → A → Round A
  dry : A → Round A
  over : Turn A → Round A

abbrev pub after_turn : {A : Type 0} → Turn A → Handled A
after_turn (next closed t) = again t
after_turn (stop t) = returns (stop t)
after_turn wait = returns wait
after_turn crash = returns crash
after_turn exit = returns exit

module _ {W : Type 0} (hash : Bytes → ℕ → ℕ) (client : LogicClient W) (server_id : Bytes)
    (decode : Bytes → Option SendTcp) (ch : Ptr) where
  unfoldable pub on_tcp_message : Option SendTcp → State × W → Handled (State × W)
  unfolding read_tcp
  on_tcp_message none t = leaves t
  on_tcp_message (some m) t = after_turn (read_tcp hash client server_id m ch t)

  unfoldable pub on_unpacked : Unpacked → State × W → Handled (State × W)
  unfolding on_tcp_message
  on_unpacked (unpacked p true) t = leaves t
  on_unpacked (unpacked p false) t = on_tcp_message (decode p.msg) t
  on_unpacked Stick.Unpacked.panics t = returns crash

  abbrev pub after_package :
      (State × W → Round (State × W)) → List Bytes → Handled (State × W) → Round (State × W)
  after_package round rest (again t) = round t
  after_package round rest (leaves t) = left rest t
  after_package round rest (returns x) = over x

  -- `for scannerPackage.Scan() { ... }`
  unfoldable pub scan_round : List Bytes → State × W → Round (State × W)
  unfolding on_unpacked unpack
  scan_round [] t = dry t
  scan_round (p ∷ ps) t = after_package (scan_round ps) ps (on_unpacked (unpack new_package p) t)

  abbrev pub after_round :
      Bool → (List Bytes → State × W → Turn (State × W)) → Round (State × W) → Turn (State × W)
  after_round failed rounds (left rest t) = rounds rest t
  after_round failed rounds (dry t) = if failed then stop t else rounds [] t
  after_round failed rounds (over x) = x

  -- The outer loop, with the rounds that are left.
  unfoldable pub scan_rounds : Bool → ℕ → List Bytes → State × W → Turn (State × W)
  unfolding scan_round
  scan_rounds failed zero ps t = stop t
  scan_rounds failed (suc n) ps t = after_round failed (scan_rounds failed n) (scan_round ps t)

  unfoldable pub read_data_from_tcp : Bool → List Bytes → State × W → Turn (State × W)
  unfolding scan_rounds
  read_data_from_tcp failed ps t = scan_rounds failed 3 ps t

  abbrev pub then_serve : (State × W → Turn (State × W)) → Turn (State × W) → Turn (State × W)
  then_serve rest (next closed t) = rest t
  then_serve rest (stop t) = stop t
  then_serve rest wait = wait
  then_serve rest crash = crash
  then_serve rest exit = exit

  -- The messages one after the other, until one ends the session, or there are no more.
  unfoldable pub serve_all : List SendTcp → State × W → Turn (State × W)
  unfolding read_tcp
  serve_all [] t = stop t
  serve_all (m ∷ ms) t = then_serve (serve_all ms) (read_tcp hash client server_id m ch t)

  scan_rounds-dry : (failed : Bool) (n : ℕ) (t : State × W) → scan_rounds failed n [] t ≡ stop t
  unfolding scan_rounds scan_round
  scan_rounds-dry failed zero t = refl
  scan_rounds-dry true (suc n) t = refl
  scan_rounds-dry false (suc n) t = scan_rounds-dry false n t

  -- JSON reads back what it wrote of these messages.
  abbrev pub AllRead : (SendTcp → Bytes) → List SendTcp → Type 0
  AllRead encode [] = Unit {0}
  AllRead encode (m ∷ ms) = (decode (encode m) ≡ some m) × AllRead encode ms

  module _ (encode : SendTcp → Bytes) where
    abbrev frame_of : SendTcp → Bytes
    frame_of m = pack (packet (encode m))

    -- A package that fits is unpacked and decoded to its message.
    on_unpacked-frame :
        (m : SendTcp) (t : State × W)
        → length (encode m) ≤ 32763
        → decode (encode m) ≡ some m
        → on_unpacked (unpack new_package (frame_of m)) t
          ≡ after_turn (read_tcp hash client server_id m ch t)
    unfolding on_unpacked on_tcp_message Stick.with_length
    on_unpacked-frame m t fits read =
        ap (λ (u : Unpacked). on_unpacked u t) (unpack-pack (encode m) new_package fits)
        ∙ ap (λ (o : Option SendTcp). on_tcp_message o t) read

    package-turn :
        (failed : Bool) (n : ℕ) (ps : List Bytes) (rest : State × W → Turn (State × W))
        (x : Turn (State × W))
        → ((t : State × W) → after_round failed (scan_rounds failed n) (scan_round ps t) ≡ rest t)
        → after_round failed
            (scan_rounds failed n)
            (after_package (scan_round ps) ps (after_turn x))
          ≡ then_serve rest x
    package-turn failed n ps rest (next closed t) goes = goes t
    package-turn failed n ps rest (stop t) goes = refl
    package-turn failed n ps rest wait goes = refl
    package-turn failed n ps rest crash goes = refl
    package-turn failed n ps rest exit goes = refl

    scan_round-frames :
        (failed : Bool) (n : ℕ) (ms : List SendTcp) (t : State × W)
        → AllFit (map encode ms)
        → AllRead encode ms
        → after_round failed (scan_rounds failed n) (scan_round (map frame_of ms) t)
          ≡ serve_all ms t
    unfolding scan_round serve_all
    scan_round-frames true n [] t fit reads = refl
    scan_round-frames false n [] t fit reads = scan_rounds-dry false n t
    scan_round-frames failed n (m ∷ ms) t (some_byte, fits, fit) (read, reads) =
        let ps = map frame_of ms in
        ap (λ h. after_round failed (scan_rounds failed n) (after_package (scan_round ps) ps h))
          (on_unpacked-frame m t fits read)
        ∙ package-turn failed n ps (serve_all ms) (read_tcp hash client server_id m ch t)
            (λ t'. scan_round-frames failed n ms t' fit reads)

    map-map : (ms : List SendTcp) → map (λ b. pack (packet b)) (map encode ms) ≡ map frame_of ms
    map-map [] = refl
    map-map (m ∷ ms) = ap (λ ps. frame_of m ∷ ps) (map-map ms)

    -- Where JSON reads back what it wrote of each message, and each message's JSON is neither empty nor over 32763
    -- bytes: what readDataFromTcp does with the packages that the scanner takes from the stream of the
    -- packed messages is to serve each message in order, until one of them ends the session, and then
    -- it returns.
    pub read_data_from_tcp-stream :
        (failed : Bool) (ms : List SendTcp) (fuel : ℕ) (t : State × W)
        → AllFit (map encode ms)
        → AllRead encode ms
        → length (map encode ms) < fuel
        → (ps : List Bytes) × (scan fuel (stream (map encode ms)) ≡ some (ps, []))
          × (read_data_from_tcp failed ps t ≡ serve_all ms t)
    unfolding read_data_from_tcp scan_rounds
    read_data_from_tcp-stream failed ms fuel t fit reads enough = (
      map frame_of ms,
      scan-stream (map encode ms) fuel fit enough
          ∙ ap (λ (ps : List Bytes). some (ps, [])) (map-map ms),
      scan_round-frames failed 2 ms t fit reads,
    )
