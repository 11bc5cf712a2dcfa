-- ===== src/Connect/Writer/Frames.antt =====
-- What writeDataToTcp of connect/server_tcp.go sends.
use zhibo.Prelude.{
  ℕ, ◌<◌, ◌/◌, ◌%◌, ◌≡◌, refl, sym, ap, ◌∙◌, Bytes, false, none, some, List, [], ◌∷◌, ◌++◌, length,
  map,
}
use mathlib.Core.List.{append_assoc, append-nil}
use zhibo.Proto.{Msg}
use zhibo.Connect.Heap.{Channel}
use zhibo.StickPackage.{
  StickPackage, version_content, with_length, get_package_length, new_package, pack, unpack,
  unpacked, scan,
}
use zhibo.StickPackage.Frames.{packet, unpack-pack, stream, AllFit, scan-stream}
use zhibo.Connect.Writer.{
  Choice, received, ticked, closed, Written, final, TcpConn, pack_to, ping_msg, send, go_on,
  take_message, write_loop, write_data_to_tcp,
}

-- The bodies that a run of choices sends: those of the queue in order, and the ping's.
unfoldable pub bodies : List Choice → List Msg → List Bytes
bodies [] q = []
bodies (received ∷ es) [] = []
bodies (received ∷ es) (m ∷ ms) = m.body ∷ bodies es ms
bodies (ticked ∷ es) q = ping_msg ∷ bodies es q
bodies (closed ∷ es) q = []

-- A connection that takes all bytes that are written to it, in order. Closing it loses none.
pub record IsReliable {C : Type 0} (conn : TcpConn C) : Type 0 where
  pub sent : C → Bytes
  pub accepts : (b : Bytes) (c : C) → (conn.write b c).0 ≡ none
  pub appends : (b : Bytes) (c : C) → sent (conn.write b c).1 ≡ sent c ++ b
  pub keeps : (c : C) → sent (conn.close_conn c) ≡ sent c

-- Each packet of the stream unpacks to its body's.
unpacked_all :
    (ms : List Bytes)
    → AllFit ms
    → map (unpack new_package) (map (λ m. pack (packet m)) ms)
      ≡ map (λ m. unpacked (packet m) false) ms
unpacked_all [] fit = refl
unpacked_all (m ∷ ms) (some_byte, fits, fit) =
    cc (unpack-pack m new_package fits, unpacked_all ms fit)

module _ {C : Type 0} {conn : TcpConn C} (H : IsReliable conn) where
  pack_to-appends :
      (p : StickPackage) (c : C)
      → ((pack_to conn p c).0 ≡ none) × (H.sent (pack_to conn p c).1 ≡ H.sent c ++ pack p)
  unfolding pack_to pack
  pack_to-appends p c =
      let v = p.version.0 ∷ p.version.1 ∷ [] in
      let l = (p.len / 256) ∷ (p.len % 256) ∷ [] in
      let c1 = (conn.write v c).1 in
      let c2 = (conn.write l c1).1 in
      (
        H.accepts p.msg c2,
        H.appends p.msg c2
            ∙ ap (λ (s : Bytes). s ++ p.msg)
                (H.appends l c1 ∙ ap (λ (s : Bytes). s ++ l) (H.appends v c))
            ∙ append_assoc (H.sent c ++ v) l p.msg
            ∙ append_assoc (H.sent c) v (l ++ p.msg),
      )

  send-packet :
      (body : Bytes) (p : StickPackage) (c : C)
      → p.version ≡ version_content
      → let r = send conn body p c in
        (r.0.version ≡ version_content)
        × (r.1 ≡ none)
        × (H.sent r.2 ≡ H.sent c ++ pack (packet body))
  unfolding send with_length
  send-packet body p c version =
      let q = with_length (record p { msg = body }) in
      let (no_error, appended) = pack_to-appends q c in
      let same : q ≡ packet body =
        unfold with_length get_package_length in
        ap (λ (v : ℕ × ℕ). with_length (record { version = v; len = 0; msg = body })) version in
      (version, no_error, appended ∙ ap (λ (x : StickPackage). H.sent c ++ pack x) same)

  -- After a send, the loop goes on with what was sent.
  go_on-sent :
      (loop : StickPackage → C → Written (Channel × C)) (ch : Channel) (body : Bytes)
      (ms : List Bytes) (p : StickPackage) (c : C)
      → ((q : StickPackage) (d : C)
          → q.version ≡ version_content
          → H.sent (final (loop q d)).1 ≡ H.sent d ++ stream ms)
      → p.version ≡ version_content
      → H.sent (final (go_on conn loop ch (send conn body p c))).1 ≡ H.sent c ++ stream (body ∷ ms)
  unfolding stream
  go_on-sent loop ch body ms p c goes version =
      let r = send conn body p c in
      let (kept, no_error, appended) = send-packet body p c version in
      let runs : go_on conn loop ch r ≡ loop r.0 r.2 =
        ap (λ e. go_on conn loop ch (r.0, e, r.2)) no_error in
      ap (λ (w : Written (Channel × C)). H.sent (final w).1) runs
      ∙ goes r.0 r.2 kept
      ∙ ap (λ (s : Bytes). s ++ stream ms) appended
      ∙ append_assoc (H.sent c) (pack (packet body)) (stream ms)

  take_message-sent :
      (es : List Choice) (q : List Msg) (ch : Channel) (p : StickPackage) (c : C)
      → ((ch' : Channel) (p' : StickPackage) (d : C)
          → p'.version ≡ version_content
          → H.sent (final (write_loop conn es ch' p' d)).1
            ≡ H.sent d ++ stream (bodies es ch'.broadcast))
      → p.version ≡ version_content
      → H.sent (final (take_message conn (write_loop conn es) q ch p c)).1
        ≡ H.sent c ++ stream (bodies (received ∷ es) q)
  unfolding bodies stream
  take_message-sent es [] ch p c goes version = sym (append-nil (H.sent c))
  take_message-sent es (m ∷ ms) ch p c goes version =
      let ch' : Channel = record ch { broadcast = ms } in
      go_on-sent (write_loop conn es ch') ch' m.body (bodies es ms) p c (λ q d. goes ch' q d)
        version

  write_loop-sent :
      (es : List Choice) (ch : Channel) (p : StickPackage) (c : C)
      → p.version ≡ version_content
      → H.sent (final (write_loop conn es ch p c)).1 ≡ H.sent c ++ stream (bodies es ch.broadcast)
  unfolding write_loop bodies stream
  write_loop-sent [] ch p c version = sym (append-nil (H.sent c))
  write_loop-sent (received ∷ es) ch p c version =
      take_message-sent es ch.broadcast ch p c (λ ch' p' d. write_loop-sent es ch' p' d) version
  write_loop-sent (ticked ∷ es) ch p c version =
      go_on-sent (write_loop conn es ch) ch ping_msg (bodies es ch.broadcast) p c
        (λ q d. write_loop-sent es ch q d) version
  write_loop-sent (closed ∷ es) ch p c version =
      H.keeps (conn.close_conn c) ∙ H.keeps c ∙ sym (append-nil (H.sent c))

  -- On a reliable connection that has sent nothing yet, whatever `select` chooses: the scanner of the
  -- other side takes from what writeDataToTcp sent, with more fuel than packages, one frame for each
  -- message that was taken from the channel's buffer and for each ping, in order, and Unpack of each
  -- frame gives its body, where none of the bodies is empty or over 32763 bytes.
  pub write_data_to_tcp-scan :
      (es : List Choice) (ch : Channel) (c : C) (fuel : ℕ)
      → H.sent c ≡ []
      → AllFit (bodies es ch.broadcast)
      → length (bodies es ch.broadcast) < fuel
      → (frames : List Bytes) × (scan fuel (H.sent (final (write_data_to_tcp conn es ch c)).1)
          ≡ some (frames, []))
        × (map (unpack new_package) frames
            ≡ map (λ m. unpacked (packet m) false) (bodies es ch.broadcast))
  unfolding write_data_to_tcp
  write_data_to_tcp-scan es ch c fuel new fit enough =
      let ms = bodies es ch.broadcast in
      let sent =
        write_loop-sent es ch (record { version = version_content; len = 0; msg = [] }) c refl in
      (
        map (λ m. pack (packet m)) ms,
        ap (scan fuel) (sent ∙ ap (λ (s : Bytes). s ++ stream ms) new)
            ∙ scan-stream ms fuel fit enough,
        unpacked_all ms fit,
      )
