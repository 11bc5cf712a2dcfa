-- ===== src/Connect/Writer/Messages.antt =====
-- What writePump of connect/server.go sends.
use zhibo.Prelude.{ℕ, ◌≡◌, sym, ap, ◌∙◌, Bytes, Option, none, List, [], ◌∷◌, ◌++◌}
use mathlib.Core.List.{append_assoc, append-nil}
use zhibo.Proto.{Msg}
use zhibo.Connect.Heap.{Channel}
use zhibo.Connect.Writer.{
  Choice, received, ticked, closed, Written, final, WebsocketConn, text_message, close_message,
  ping_message, unless_failed, write_body, take_text, write_pump,
}

-- What a run of choices sends: the queue's bodies as texts in order, and the pings.
unfoldable pub wire : List Choice → List Msg → List (ℕ × Bytes)
wire [] q = []
wire (received ∷ es) [] = []
wire (received ∷ es) (m ∷ ms) = (text_message, m.body) ∷ wire es ms
wire (ticked ∷ es) q = (ping_message, []) ∷ wire es q
wire (closed ∷ es) q = (close_message, []) ∷ []

-- A websocket whose calls answer no error. A message is sent when its writer is closed.
pub record IsOpen {C : Type 0} (conn : WebsocketConn C) : Type 0 where
  pub messages : C → List (ℕ × Bytes)
  pub deadline : (c : C) → messages (conn.set_write_deadline c) ≡ messages c
  pub opens : (t : ℕ) (c : C) → (conn.next_writer t c).0 ≡ none
  pub ends : (b : Bytes) (c : C) → (conn.close_writer (conn.write b c)).0 ≡ none
  pub sends :
      (t : ℕ) (b : Bytes) (c : C)
      → messages (conn.close_writer (conn.write b (conn.next_writer t c).1)).1
        ≡ messages c ++ (t, b) ∷ []
  pub writes :
      (t : ℕ) (b : Bytes) (c : C)
      → ((conn.write_message t b c).0 ≡ none)
        × (messages (conn.write_message t b c).1 ≡ messages c ++ (t, b) ∷ [])
  pub keeps : (c : C) → messages (conn.close_conn c) ≡ messages c

module _ {C : Type 0} {conn : WebsocketConn C} (H : IsOpen conn) where
  -- What is seen of a run's end.
  abbrev seen : Written (Channel × C) → List (ℕ × Bytes)
  seen w = H.messages (final w).1

  unless_failed-seen :
      (go : C → Written (Channel × C)) (ch : Channel) (r : Option Bytes × C)
      → r.0 ≡ none
      → unless_failed conn go ch r ≡ go r.1
  unless_failed-seen go ch r no_error = ap (λ e. unless_failed conn go ch (e, r.1)) no_error

  write_body-seen :
      (go : C → Written (Channel × C)) (ch : Channel) (body : Bytes) (c : C)
      (rest : List (ℕ × Bytes))
      → ((d : C) → seen (go d) ≡ H.messages d ++ rest)
      → seen (write_body conn go ch body c) ≡ H.messages c ++ (text_message, body) ∷ rest
  unfolding write_body
  write_body-seen go ch body c rest goes =
      let c1 = conn.set_write_deadline c in
      let w = (conn.next_writer text_message c1).1 in
      let done = conn.close_writer (conn.write body w) in
      ap seen (
        unless_failed-seen _ ch (conn.next_writer text_message c1) (H.opens text_message c1)
        ∙ unless_failed-seen go ch done (H.ends body w))
      ∙ goes done.1
      ∙ ap (λ (s : List (ℕ × Bytes)). s ++ rest)
          (H.sends text_message body c1
            ∙ ap (λ (s : List (ℕ × Bytes)). s ++ (text_message, body) ∷ []) (H.deadline c))
      ∙ append_assoc (H.messages c) ((text_message, body) ∷ []) rest

  take_text-seen :
      (es : List Choice) (q : List Msg) (ch : Channel) (c : C)
      → ((ch' : Channel) (d : C)
          → seen (write_pump conn es ch' d) ≡ H.messages d ++ wire es ch'.broadcast)
      → seen (take_text conn (write_pump conn es) q ch c) ≡ H.messages c ++ wire (received ∷ es) q
  unfolding wire
  take_text-seen es [] ch c goes = sym (append-nil (H.messages c))
  take_text-seen es (m ∷ ms) ch c goes =
      let ch' : Channel = record ch { broadcast = ms } in
      write_body-seen (write_pump conn es ch') ch' m.body c (wire es ms) (goes ch')

  -- On a websocket whose calls answer no error, whatever `select` chooses: writePump sends the body
  -- of each message that it takes from the channel's buffer as one text message and a ping for each
  -- tick, in order, and a close message when the Go channel is closed, and nothing else.
  pub write_pump-messages :
      (es : List Choice) (ch : Channel) (c : C)
      → H.messages (final (write_pump conn es ch c)).1 ≡ H.messages c ++ wire es ch.broadcast
  unfolding write_pump wire
  write_pump-messages [] ch c = sym (append-nil (H.messages c))
  write_pump-messages (received ∷ es) ch c =
      take_text-seen es ch.broadcast ch c (λ ch' d. write_pump-messages es ch' d)
  write_pump-messages (ticked ∷ es) ch c =
      let c1 = conn.set_write_deadline c in
      let r = conn.write_message ping_message [] c1 in
      let (no_error, written) = H.writes ping_message [] c1 in
      ap seen (unless_failed-seen (write_pump conn es ch) ch r no_error)
      ∙ write_pump-messages es ch r.1
      ∙ ap (λ (s : List (ℕ × Bytes)). s ++ wire es ch.broadcast)
          (written ∙ ap (λ (s : List (ℕ × Bytes)). s ++ (ping_message, []) ∷ []) (H.deadline c))
      ∙ append_assoc (H.messages c) ((ping_message, []) ∷ []) (wire es ch.broadcast)
  write_pump-messages (closed ∷ es) ch c =
      let c1 = conn.set_write_deadline c in
      let (_, written) = H.writes close_message [] c1 in
      H.keeps (conn.write_message close_message [] c1).1
      ∙ written
      ∙ ap (λ (s : List (ℕ × Bytes)). s ++ (close_message, []) ∷ []) (H.deadline c)
