-- ===== src/Task/Clients/Found.antt =====
-- Which client the task layer calls for a server id.
use mathlib.Core.List.{append-nil}
use zhibo.Prelude.{
  Bytes, str_eq, str_eq_self, str_eq_sound, Bool, Bool-cases, inl, inr, true, false, some, List, [],
  ◌∷◌, ◌++◌, map, is_empty, if◌then◌else◌, ◌≡◌, refl, sym, ap, ◌∙◌, arith, ◌∉◌,
}
use zhibo.Proto.{PushMsgRequest, PushRoomMsgRequest, op_single_send}
use zhibo.Connect.Bucket.{done}
use zhibo.RedisInstance.{lookup}
use zhibo.Task.{Method, PushParams, member, message, push_single_to_connect}
use zhibo.Task.Clients.{
  KvPair, after_prefix, remove_first, no_load, server_id_of, set_client, add_clients,
  init_connect_rpc_client, clients_of,
}

-- No service of these has the id.
abbrev pub NoneUnder : Bytes → List KvPair → Type 0
NoneUnder id [] = Unit
NoneUnder id (s ∷ ss) = (str_eq (server_id_of s) id ≡ false) × NoneUnder id ss

module _ {C : Type 0} where
  lookup-set_client :
      (id : Bytes) (c : C) (cs : List (Bytes × C)) → lookup id (set_client id c cs) ≡ some c
  unfolding lookup set_client
  lookup-set_client id c [] = rw (str_eq_self id) refl
  lookup-set_client id c ((k, d) ∷ cs) = ground (arith, lookup-set_client id c cs)

  lookup-other :
      (id j : Bytes) (c : C) (cs : List (Bytes × C))
      → str_eq id j ≡ false
      → lookup j (set_client id c cs) ≡ lookup j cs
  unfolding lookup set_client
  lookup-other id j c [] apart = rw (apart) refl
  lookup-other id j c ((k, d) ∷ cs) apart = elim (Bool-cases (str_eq k id)) [
    | inl same ↦ rw (same, ap (λ a. str_eq a j) (str_eq_sound k id same) ∙ apart) refl
    | inr differs ↦ rw (differs, lookup-other id j c cs apart) refl
  ]

  pub lookup-add_clients :
      (new_client : Bytes → C) (id : Bytes) (ss : List KvPair) (cs : List (Bytes × C))
      → NoneUnder id ss
      → lookup id (add_clients new_client ss cs) ≡ lookup id cs
  unfolding add_clients
  lookup-add_clients new_client id [] cs out = refl
  lookup-add_clients new_client id (s ∷ ss) cs (apart, out) =
      lookup-add_clients new_client id ss (set_client (server_id_of s) (new_client s.key) cs) out
      ∙ lookup-other (server_id_of s) id (new_client s.key) cs apart

  lookup-last :
      (new_client : Bytes → C) (id : Bytes) (before : List KvPair) (s : KvPair)
      (after : List KvPair) (cs : List (Bytes × C))
      → server_id_of s ≡ id
      → NoneUnder id after
      → lookup id (add_clients new_client (before ++ s ∷ after) cs) ≡ some (new_client s.key)
  unfolding add_clients
  lookup-last new_client id [] s after cs named out =
      lookup-add_clients new_client id after (set_client (server_id_of s) (new_client s.key) cs) out
      ∙ ap (λ k. lookup k (set_client (server_id_of s) (new_client s.key) cs)) (sym named)
      ∙ lookup-set_client (server_id_of s) (new_client s.key) cs
  lookup-last new_client id (b ∷ before) s after cs named out =
      lookup-last new_client id before s after (set_client (server_id_of b) (new_client b.key) cs)
        named out

pub remove_first-append :
    (id rest : Bytes)
    → b'=' ∉ id
    → remove_first no_load (id ++ rest) ≡ id ++ remove_first no_load rest
unfolding remove_first after_prefix
remove_first-append [] rest out = refl
remove_first-append (x ∷ id) rest out = ground (arith, remove_first-append id rest)

-- The metadata of a service: the server id, and a load that is not written or is 0.
abbrev pub metadata : Bytes → Bool → Bytes
metadata id loaded = id ++ (if loaded then no_load else [])

pub server_id_of-metadata :
    (id key : Bytes) (loaded : Bool)
    → b'=' ∉ id
    → server_id_of (record { key = key; value = metadata id loaded }) ≡ id
unfolding server_id_of remove_first after_prefix
server_id_of-metadata id key true out = remove_first-append id no_load out ∙ append-nil id
server_id_of-metadata id key false out = remove_first-append id [] out ∙ append-nil id

member-lookup :
    {C : Type 0} (id : Bytes) (c : C) (cs : List (Bytes × C))
    → lookup id cs ≡ some c
    → member id (map (λ (d : Bytes × C). d.0) cs) ≡ true
unfolding member lookup
member-lookup id c [] found = cc (found)
member-lookup id c ((k, d) ∷ cs) found = elim (Bool-cases (str_eq k id)) [
  | inl same ↦ rw (same) refl
  | inr differs ↦ ground (arith, differs, found, member-lookup id c cs)
]

is_empty-append : (xs ys : List KvPair) (y : KvPair) → is_empty (xs ++ y ∷ ys) ≡ false
is_empty-append [] ys y = refl
is_empty-append (x ∷ xs) ys y = refl

pub init_connect_rpc_client-done :
    {C : Type 0} (new_client : Bytes → C) (before : List KvPair) (s : KvPair) (after : List KvPair)
    → init_connect_rpc_client new_client (before ++ s ∷ after)
      ≡ done (add_clients new_client (before ++ s ∷ after) [])
unfolding init_connect_rpc_client
init_connect_rpc_client-done new_client before s after = rw (is_empty-append before after s) refl

module _ {C W : Type 0} (single : C → PushMsgRequest → W → W)
    (room : C → Method → PushRoomMsgRequest → W → W) (new_client : Bytes → C) where
  push_single-found :
      (seq : Bytes) (arg : PushParams) (w : W) (cs : List (Bytes × C)) (c : C)
      → lookup arg.server_id cs ≡ some c
      → push_single_to_connect (clients_of single room cs) seq arg w
        ≡ done (
            single c (record { user_id = arg.user_id; msg = message op_single_send seq arg.msg }) w)
  unfolding push_single_to_connect
  push_single-found seq arg w cs c found = rw (member-lookup arg.server_id c cs found, found) refl

  -- The discovery lists a service whose metadata is a server id without an equals sign, alone or with
  -- the load 0, and no later service has that id. Then the clients are set up, and a single message
  -- for the server id is sent to the client of that service's address, with the user, the operation,
  -- the sequence number and the body.
  pub init_connect_rpc_client-push :
      (before after : List KvPair) (key : Bytes) (loaded : Bool) (seq : Bytes) (arg : PushParams)
      (w : W)
      → b'=' ∉ arg.server_id
      → NoneUnder arg.server_id after
      → let service : KvPair = record { key = key; value = metadata arg.server_id loaded } in
        (cs : List (Bytes × C)) × (init_connect_rpc_client new_client (before ++ service ∷ after)
          ≡ done cs)
        × (push_single_to_connect (clients_of single room cs) seq arg w
            ≡ done (
                single
                  (new_client key)
                  (record { user_id = arg.user_id; msg = message op_single_send seq arg.msg })
                  w))
  init_connect_rpc_client-push before after key loaded seq arg w plain out =
      let service : KvPair = record { key = key; value = metadata arg.server_id loaded } in
      let cs = add_clients new_client (before ++ service ∷ after) [] in
      (
        cs,
        init_connect_rpc_client-done new_client before service after,
        push_single-found seq arg w cs (new_client key) (
            lookup-last new_client arg.server_id before service after []
              (server_id_of-metadata arg.server_id key loaded plain) out),
      )
