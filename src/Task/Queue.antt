-- ===== src/Task/Queue.antt =====
-- The push channels of task/push.go: what Push sends to one of them, its goroutine takes in turn.
use zhibo.Prelude.{
  ℕ, ◌<◌, ◌%◌, Bytes, Option, none, some, List, [], ◌∷◌, ◌++◌, ◌≡◌, refl, ap, ◌∙◌, if◌then◌else◌,
  ltb, ◌==◌, false, true, length, get_elem?, set, set-set, set-own, get_elem?-set_found, replicate,
  arith,
}
use zhibo.Connect.Bucket.{Outcome, done, waits, panics}
use zhibo.Task.{PushParams, ConnectClients, push_single_to_connect}

-- pushChannel: what each channel holds, oldest first.
abbrev pub Queues : Type 0
Queues = List (List PushParams)

-- init and GoPush.
unfoldable pub go_push : ℕ → Queues
go_push push_chan = replicate push_chan []

abbrev pub send_at : ℕ → PushParams → Queues → ℕ → Option (List PushParams) → Outcome Queues
send_at size p qs i none = panics
send_at size p qs i (some q) = if ltb (length q) size then done (set qs i (q ++ p ∷ [])) else waits

-- `pushChannel[rand.Int()%PushChan] <- p`, where each channel holds `size`.
unfoldable pub send_params : ℕ → ℕ → ℕ → PushParams → Queues → Outcome Queues
send_params rand push_chan size p qs =
    if push_chan == 0
    then panics
    else send_at size p qs (rand % push_chan) (get_elem? qs (rand % push_chan))

abbrev pub with_queues {ℓ} : {W : Type ℓ} → Queues → Outcome W → Outcome (Queues × W)
with_queues qs (done w) = done (qs, w)
with_queues qs waits = waits
with_queues qs panics = panics

module _ {W : Type 0} (clients : ConnectClients W) where
  abbrev pub process_head : Bytes → ℕ → Queues → Option (List PushParams) → W → Outcome (Queues × W)
  process_head seq i qs none w = waits
  process_head seq i qs (some []) w = waits
  process_head seq i qs (some (p ∷ ps)) w =
      with_queues (set qs i ps) (push_single_to_connect clients seq p w)

  -- One round of processSinglePush on the i-th channel.
  unfoldable pub process_single_push : Bytes → ℕ → Queues → W → Outcome (Queues × W)
  unfolding push_single_to_connect
  process_single_push seq i qs w = process_head seq i qs (get_elem? qs i) w

-- What is sent to an empty channel is what its goroutine takes next, and the channel is empty again.
pub send_params-process :
    {W : Type 0} (clients : ConnectClients W) (seq : Bytes) (rand push_chan size : ℕ)
    (p : PushParams) (qs : Queues) (v w : W)
    → 0 < push_chan
    → 0 < size
    → get_elem? qs (rand % push_chan) ≡ some []
    → push_single_to_connect clients seq p v ≡ done w
    → (sent : Queues) × (send_params rand push_chan size p qs ≡ done sent)
      × (process_single_push clients seq (rand % push_chan) sent v ≡ done (qs, w))
unfolding send_params process_single_push
send_params-process clients seq rand push_chan size p qs v w some_chan some_size empty ran =
    let i = rand % push_chan in
    let positive : (push_chan == 0) ≡ false = ground arith in
    let room : ltb 0 size ≡ true = ground arith in
    (
      set qs i (p ∷ []),
      rw positive (rw empty (rw room refl)),
      ap (λ o. process_head clients seq i (set qs i (p ∷ [])) o v)
            (get_elem?-set_found qs i [] (p ∷ []) empty)
          ∙ ap (with_queues (set (set qs i (p ∷ [])) i [])) ran
          ∙ ap (λ (r : Queues). done (r, w)) (set-set qs i (p ∷ []) [] ∙ set-own qs i [] empty),
    )
