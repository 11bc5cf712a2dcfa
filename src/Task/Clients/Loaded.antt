-- ===== src/Task/Clients/Loaded.antt =====
-- A connect server whose metadata tells a load other than 0.
use mathlib.Core.List.{append-nil}
use zhibo.Prelude.{
  ℕ, ◌<◌, Bytes, codes, str_eq, false, none, List, [], ◌∷◌, ◌++◌, map, ◌≡◌, refl, sym, ap, ◌∙◌,
  arith, ◌∉◌,
}
use zhibo.Proto.{PushMsgRequest, PushRoomMsgRequest}
use zhibo.Connect.Bucket.{done, panics}
use zhibo.RedisInstance.{lookup}
use zhibo.Task.{Method, PushParams, member, push_single_to_connect}
use zhibo.Task.Clients.{
  KvPair, after_prefix, remove_first, no_load, server_id_of, add_clients, init_connect_rpc_client,
  clients_of,
}
use zhibo.Task.Clients.Found.{
  NoneUnder, lookup-add_clients, remove_first-append, init_connect_rpc_client-done,
}

-- The metadata of a service with a load that begins with the digit `d`.
abbrev pub with_load : Bytes → ℕ → Bytes → Bytes
with_load id d ds = id ++ (codes "=&tps=" ++ d ∷ ds)

remove_first-plain : (s : Bytes) → b'=' ∉ s → remove_first no_load s ≡ s
unfolding remove_first
remove_first-plain s out =
    ap (remove_first no_load) (sym (append-nil s)) ∙ remove_first-append s [] out ∙ append-nil s

remove_first-load :
    (d : ℕ) (ds : Bytes)
    → 48 < d
    → b'=' ∉ (d ∷ ds)
    → remove_first no_load (codes "=&tps=" ++ d ∷ ds) ≡ codes "=&tps=" ++ d ∷ ds
unfolding remove_first after_prefix
remove_first-load d ds positive out = ground (arith, remove_first-plain ds)

server_id_of-with_load :
    (id key : Bytes) (d : ℕ) (ds : Bytes)
    → b'=' ∉ id
    → 48 < d
    → b'=' ∉ (d ∷ ds)
    → server_id_of (record { key = key; value = with_load id d ds }) ≡ with_load id d ds
unfolding server_id_of
server_id_of-with_load id key d ds plain positive out =
    remove_first-append id (codes "=&tps=" ++ d ∷ ds) plain
    ∙ ap (λ s. id ++ s) (remove_first-load d ds positive out)

str_eq-longer : (id : Bytes) (x : ℕ) (s : Bytes) → str_eq (id ++ x ∷ s) id ≡ false
str_eq-longer [] x s = refl
str_eq-longer (y ∷ id) x s = ground (arith, str_eq-longer id x s)

NoneUnder-append :
    (id : Bytes) (before : List KvPair) (s : KvPair) (after : List KvPair)
    → NoneUnder id before
    → str_eq (server_id_of s) id ≡ false
    → NoneUnder id after
    → NoneUnder id (before ++ s ∷ after)
NoneUnder-append id [] s after _ apart out = (apart, out)
NoneUnder-append id (b ∷ before) s after (other, outs) apart out =
    (other, NoneUnder-append id before s after outs apart out)

lookup-member :
    {C : Type 0} (id : Bytes) (cs : List (Bytes × C))
    → lookup id cs ≡ none
    → member id (map (λ (d : Bytes × C). d.0) cs) ≡ false
unfolding member lookup
lookup-member id [] absent = refl
lookup-member id ((k, d) ∷ cs) absent = ground (arith, absent, lookup-member id cs)

-- Where the only service of a server has a load that begins with a digit from 1 on, after the text
-- `=&tps=`, the clients are set up, and a single message for the server panics on a nil client. The
-- server id and the load have no equals sign, and no other service has the server id.
pub init_connect_rpc_client-loaded :
    {C W : Type 0} (single : C → PushMsgRequest → W → W)
    (room : C → Method → PushRoomMsgRequest → W → W) (new_client : Bytes → C)
    (before after : List KvPair) (key : Bytes) (d : ℕ) (ds seq : Bytes) (arg : PushParams) (w : W)
    → b'=' ∉ arg.server_id
    → 48 < d
    → d < 58
    → b'=' ∉ ds
    → NoneUnder arg.server_id before
    → NoneUnder arg.server_id after
    → let service : KvPair = record { key = key; value = with_load arg.server_id d ds } in
      (cs : List (Bytes × C)) × (init_connect_rpc_client new_client (before ++ service ∷ after)
        ≡ done cs)
      × (push_single_to_connect (clients_of single room cs) seq arg w ≡ panics)
unfolding push_single_to_connect
init_connect_rpc_client-loaded single room new_client before after key d ds seq arg w plain positive
      digit out outs outs' =
    let service : KvPair = record { key = key; value = with_load arg.server_id d ds } in
    let cs = add_clients new_client (before ++ service ∷ after) [] in
    let named =
      server_id_of-with_load arg.server_id key d ds plain positive (ground (arith, out, digit)) in
    let apart : str_eq (server_id_of service) arg.server_id ≡ false =
      ap (λ k. str_eq k arg.server_id) named
      ∙ str_eq-longer arg.server_id b'=' (codes "&tps=" ++ d ∷ ds) in
    let absent =
      lookup-add_clients new_client arg.server_id (before ++ service ∷ after) []
        (NoneUnder-append arg.server_id before service after outs apart outs') in
    (
      cs,
      init_connect_rpc_client-done new_client before service after,
      rw (lookup-member arg.server_id cs (absent ∙ unfold lookup in refl)) refl,
    )
