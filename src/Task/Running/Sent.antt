-- ===== src/Task/Running/Sent.antt =====
-- What messages send to the push channels of task/push.go, and a message as a step.
use zhibo.Prelude.{
  ℕ, suc, ◌%◌, ◌==◌, int_eq, pos, Bytes, Bool, Bool-cases, true, false, Option, none, some, List,
  [], ◌∷◌, ◌++◌, if◌then◌else◌, ◌&&◌, ◌≡◌, ◌⊎◌, inl, inr, refl, sym, ap, ◌∙◌, arith, get_elem?, set,
  get_elem?-set_found, get_elem?-set_other, ltb, length,
}
use mathlib.Core.List.{append-nil}
use zhibo.Proto.{
  RedisMsg, RedisRoomInfo, RedisRoomCountMsg, op_single_send, op_room_send, op_room_count_send,
  op_room_info_send,
}
use zhibo.Connect.Bucket.{Outcome, done, waits, panics}
use zhibo.Logic.Exec.{Result}
use zhibo.Task.{PushParams, ConnectClients, push}
use zhibo.Task.Queue.{Queues, send_at, send_params}
use zhibo.Task.Running.{Event, take, work, and_world, send_one, step}

-- The entry that a message for one user is.
abbrev pub params_of : RedisMsg → PushParams
params_of m = record { server_id = m.server_id; user_id = m.user_id; msg = m.msg; room_id = pos 0 }

-- What a message adds to the i-th of `push_chan` channels, and what events add.
abbrev pub added : ℕ → ℕ → ℕ → RedisMsg → List PushParams
added push_chan i rand m =
    if int_eq m.op op_single_send && (rand % push_chan == i) then params_of m ∷ [] else []

unfoldable pub sent_to : ℕ → ℕ → List Event → List PushParams
sent_to push_chan i [] = []
sent_to push_chan i (take seq rand m ∷ es) = added push_chan i rand m ++ sent_to push_chan i es
sent_to push_chan i (work seq j ∷ es) = sent_to push_chan i es

-- How often the goroutine of the i-th channel takes an entry.
unfoldable pub worked : ℕ → List Event → ℕ
worked i [] = 0
worked i (take seq rand m ∷ es) = worked i es
worked i (work seq j ∷ es) = if j == i then suc (worked i es) else worked i es

set-added :
    (p : PushParams) (qs : Queues) (k i : ℕ) (q q0 : List PushParams)
    → get_elem? qs k ≡ some q0
    → get_elem? qs i ≡ some q
    → (b : Bool) → (k == i) ≡ b
    → get_elem? (set qs k (q0 ++ p ∷ [])) i ≡ some (q ++ (if b then p ∷ [] else []))
set-added p qs k i q q0 at here false apart =
    get_elem?-set_other qs k i (q0 ++ p ∷ []) apart ∙ here ∙ ap some (sym (append-nil q))
set-added p qs k i q q0 at here true same =
    let eq : k ≡ i = ground (arith, same) in
    let both : some q0 ≡ some q = sym at ∙ ap (get_elem? qs) eq ∙ here in
    ap (get_elem? (set qs k (q0 ++ p ∷ []))) (sym eq)
    ∙ get_elem?-set_found qs k q0 (q0 ++ p ∷ []) at
    ∙ ap (λ (o : List PushParams). some (o ++ p ∷ [])) (cc (both))

module _ {W : Type 0} where
  if_sent :
      (b : Bool) (x qs' : Queues) (w w' : W)
      → and_world w (if b then done x else waits) ≡ done (qs', w')
      → x ≡ qs'
  if_sent true x qs' w w' e = cc (e)
  if_sent false x qs' w w' e = cc (e)

  send_at-added :
      (size : ℕ) (p : PushParams) (qs qs' : Queues) (w w' : W) (k i : ℕ) (q : List PushParams)
      (o : Option (List PushParams))
      → get_elem? qs k ≡ o
      → get_elem? qs i ≡ some q
      → and_world w (send_at size p qs k o) ≡ done (qs', w')
      → get_elem? qs' i ≡ some (q ++ (if k == i then p ∷ [] else []))
  send_at-added size p qs qs' w w' k i q none at here e = cc (e)
  send_at-added size p qs qs' w w' k i q (some q0) at here e =
      ap (λ ys. get_elem? ys i)
        (sym (if_sent (ltb (length q0) size) (set qs k (q0 ++ p ∷ [])) qs' w w' e))
      ∙ set-added p qs k i q q0 at here (k == i) refl

  if_some :
      (b : Bool) (o : Outcome Queues) (qs' : Queues) (w w' : W)
      → and_world w (if b then panics else o) ≡ done (qs', w')
      → and_world w o ≡ done (qs', w')
  if_some true o qs' w w' e = cc (e)
  if_some false o qs' w w' e = e

  unsent-same :
      (i : ℕ) (q : List PushParams) (qs qs' : Queues) (w w' : W)
      → get_elem? qs i ≡ some q
      → ◌≡◌ {A = Outcome (Queues × W)} (done (qs, w)) (done (qs', w'))
      → get_elem? qs' i ≡ some (q ++ [])
  unsent-same i q qs qs' w w' here e =
      let same : qs ≡ qs' = cc (e) in
      ap (λ ys. get_elem? ys i) (sym same) ∙ here ∙ ap some (sym (append-nil q))

  send_params-added :
      (push_chan size rand i : ℕ) (p : PushParams) (qs qs' : Queues) (w w' : W)
      (q : List PushParams)
      → get_elem? qs i ≡ some q
      → and_world w (send_params rand push_chan size p qs) ≡ done (qs', w')
      → get_elem? qs' i ≡ some (q ++ (if rand % push_chan == i then p ∷ [] else []))
  unfolding send_params
  send_params-added push_chan size rand i p qs qs' w w' q here e =
      send_at-added size p qs qs' w w' (rand % push_chan) i q (get_elem? qs (rand % push_chan)) refl
        here (if_some (push_chan == 0) _ qs' w w' e)

unsent :
    {A W : Type 0} (b c d : Bool) (x y z w : W)
    → (v : W) × (◌≡◌ {A = Option A × W}
        (if b then (none, x) else if c then (none, y) else if d then (none, z) else (none, w))
        (none, v))
unsent true c d x y z w = (x, refl)
unsent false true d x y z w = (y, refl)
unsent false false true x y z w = (z, refl)
unsent false false false x y z w = (w, refl)

module _ {W : Type 0} (clients : ConnectClients W)
    (marshal_count : RedisRoomCountMsg → Result Bytes) (marshal_info : RedisRoomInfo → Result Bytes)
    (push_chan size : ℕ) where
  -- A message is for one user, or it leaves the channels as they are.
  push-cases :
      (seq : Bytes) (m : RedisMsg) (w : W)
      → ((int_eq m.op op_single_send ≡ true)
          × (push clients marshal_count marshal_info seq m w ≡ (some (params_of m), w)))
        ⊎ ((int_eq m.op op_single_send ≡ false)
            × ((v : W) × (push clients marshal_count marshal_info seq m w ≡ (none, v))))
  unfolding push
  push-cases seq m w = elim (Bool-cases (int_eq m.op op_single_send)) [
    | inl single ↦ inl (single, rw (single) refl)
    | inr other ↦ inr (
      other,
      rw (other) (
          unsent (int_eq m.op op_room_send) (int_eq m.op op_room_count_send)
            (int_eq m.op op_room_info_send) _ _ _ w),
    )
  ]

  pub take-added :
      (seq : Bytes) (rand : ℕ) (m : RedisMsg) (i : ℕ) (q : List PushParams) (qs qs' : Queues)
      (w w' : W)
      → get_elem? qs i ≡ some q
      → step clients marshal_count marshal_info push_chan size (take seq rand m) (qs, w)
        ≡ done (qs', w')
      → get_elem? qs' i ≡ some (q ++ added push_chan i rand m)
  unfolding step
  take-added seq rand m i q qs qs' w w' here e = elim (push-cases seq m w) [
    | inl (single, sends) ↦ rw (single) (
        send_params-added push_chan size rand i (params_of m) qs qs' w w' q here
          (ap (send_one clients marshal_count marshal_info push_chan size rand qs) (sym sends) ∙ e))
    | inr (other, (v, none_sent)) ↦ rw (other) (
        unsent-same i q qs qs' v w' here (
          ap (send_one clients marshal_count marshal_info push_chan size rand qs) (sym none_sent)
          ∙ e))
  ]
