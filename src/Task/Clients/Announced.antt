-- ===== src/Task/Clients/Announced.antt =====
-- From the RPC servers that connect/rpc.go creates, over etcd, to the clients of task/rpc.go.
use mathlib.Core.List.{append-nil, Memᴰ}
use mathlib.Core.Path.{subst}
use zhibo.Prelude.{
  Bytes, str_eq, str_eq_self, true, false, none, List, [], ◌∷◌, ◌++◌, ◌≡◌, ◌≢◌, ◌⊎◌, inl, inr, refl,
  sym, ap, ◌∙◌, ◌∉◌,
}
use zhibo.Proto.{PushMsgRequest, PushRoomMsgRequest, op_single_send}
use zhibo.Config.{CommonEtcd}
use zhibo.Connect.Bucket.{done}
use zhibo.Registry.{
  EtcdV3RegisterPlugin, Rpcx, registry_plugin, create_connect_rpc_server, then_create, create_all,
  create-done,
}
use zhibo.Registry.Binds.{bind_of}
use zhibo.Task.{Method, PushParams, message, push_single_to_connect}
use zhibo.Task.Clients.{KvPair, server_id_of, init_connect_rpc_client, clients_of}
use zhibo.Task.Clients.Listed.{last_or_none, NoneUnder-Mem}
use zhibo.Task.Clients.Found.{
  NoneUnder, metadata, server_id_of-metadata, init_connect_rpc_client-push,
}

-- What rpcx documents of its etcd plugin, where etcd answers: the start succeeds; RegisterName puts
-- the metadata under the key of the plugin's base path, the service path and the plugin's address, in
-- place of what stood there; a discovery lists what stands under its path, in an order that is not
-- said; and nothing else changes what it lists.
pub record IsRegistry {W : Type 0} (x : Rpcx W) : Type 0 where
  pub services : Bytes → Bytes → W → List KvPair
  pub starts : (p : EtcdV3RegisterPlugin) (w : W) → (x.start p w).0 ≡ none
  pub start_keeps :
      (p : EtcdV3RegisterPlugin) (base path : Bytes) (w : W)
      → services base path (x.start p w).1 ≡ services base path w
  pub register_puts :
      (p : EtcdV3RegisterPlugin) (path id : Bytes) (w : W)
      → Memᴰ
          (record { key = p.service_address; value = id })
          (services p.base_path path (x.register_name p path id w).1)
  pub register_keeps :
      (p : EtcdV3RegisterPlugin) (path id : Bytes) (w : W) (kv : KvPair)
      → Memᴰ kv (services p.base_path path (x.register_name p path id w).1)
      → (kv ≡ record { key = p.service_address; value = id })
        ⊎ ((kv.key ≢ p.service_address) × Memᴰ kv (services p.base_path path w))
  pub serve_keeps :
      (network addr base path : Bytes) (w : W)
      → services base path (x.serve network addr w) ≡ services base path w

abbrev entry : Bytes → Bytes × Bytes → KvPair
entry id s = record { key = bind_of s; value = id }

metadata-entry :
    (id : Bytes) (s : Bytes × Bytes)
    → entry id s ≡ record { key = bind_of s; value = metadata id false }
metadata-entry id s = ap (λ v. record { key = bind_of s; value = v }) (sym (append-nil id))

module _ {W : Type 0} {x : Rpcx W} (H : IsRegistry x) (etcd : CommonEtcd) (id : Bytes)
    (all : List (Bytes × Bytes)) where
  abbrev connects : W → List KvPair
  connects w = H.services etcd.base_path etcd.server_path_connect w

  -- What is listed is one of these servers, or has another id.
  abbrev OwnOrOther : W → Type 0
  OwnOrOther w =
      (kv : KvPair)
      → Memᴰ kv (connects w)
      → ((s : Bytes × Bytes) × Memᴰ s all × (kv ≡ entry id s))
        ⊎ (str_eq (server_id_of kv) id ≡ false)

  create-puts :
      (s : Bytes × Bytes) (w : W)
      → Memᴰ s all
      → OwnOrOther w
      → (v : W) × (create_connect_rpc_server x etcd id s w ≡ done v)
        × Memᴰ (entry id s) (connects v)
        × OwnOrOther v
  create-puts s w own before =
      let p = registry_plugin etcd s.0 s.1 in
      let path = etcd.server_path_connect in
      let w1 = (x.start p w).1 in
      let w2 = (x.register_name p path id w1).1 in
      let served : connects (x.serve s.0 s.1 w2) ≡ connects w2 =
        H.serve_keeps s.0 s.1 etcd.base_path path w2 in
      (
        x.serve s.0 s.1 w2,
        create-done x H.starts etcd id s w,
        subst (λ kvs. Memᴰ (entry id s) kvs) (sym served) (H.register_puts p path id w1),
        λ kv m. elim (H.register_keeps p path id w1 kv (subst (λ kvs. Memᴰ kv kvs) served m)) [
          | inl new ↦ inl (s, own, new)
          | inr (_, old) ↦
              before kv (subst (λ kvs. Memᴰ kv kvs) (H.start_keeps p etcd.base_path path w) old)
        ],
      )

  -- The servers are created, and at least one of them is listed.
  create_all-puts :
      (s : Bytes × Bytes) (ss : List (Bytes × Bytes)) (w : W)
      → ((t : Bytes × Bytes) → Memᴰ t (s ∷ ss) → Memᴰ t all)
      → OwnOrOther w
      → (v : W) × (create_all x etcd id (s ∷ ss) w ≡ done v)
        × ((t : Bytes × Bytes) × Memᴰ (entry id t) (connects v))
        × OwnOrOther v
  unfolding create_all
  create_all-puts s [] w own before =
      let (v, created, listed, rest) = create-puts s w (own s (Memᴰ.head refl)) before in
      (v, ap (then_create x (create_all x etcd id [])) created, (s, listed), rest)
  create_all-puts s (t ∷ ss) w own before =
      let (u, created, _, rest) = create-puts s w (own s (Memᴰ.head refl)) before in
      let (v, created', listed, rest') = create_all-puts t ss u (λ y m. own y (Memᴰ.tail m)) rest in
      (v, ap (then_create x (create_all x etcd id (t ∷ ss))) created ∙ created', listed, rest')

  -- So the service that is listed last under the id is one of these servers.
  last_own :
      (w : W)
      → b'=' ∉ id
      → OwnOrOther w
      → ((t : Bytes × Bytes) × Memᴰ (entry id t) (connects w))
      → (before : List KvPair) × (after : List KvPair) × (s : Bytes × Bytes) × Memᴰ s all
        × (connects w ≡ before ++ entry id s ∷ after)
        × NoneUnder id after
  last_own w plain sorted (t, there) = elim (last_or_none id (connects w)) [
    | inl none_there ↦
        let named : str_eq (server_id_of (entry id t)) id ≡ true =
          ap (λ kv. str_eq (server_id_of kv) id) (metadata-entry id t)
          ∙ ap (λ i. str_eq i id) (server_id_of-metadata id (bind_of t) false plain)
          ∙ str_eq_self id in
        absurd (cc (named, NoneUnder-Mem id (connects w) (entry id t) none_there there))
    | inr l ↦ elim (sorted l.service l.there) [
      | inl (s, own, same) ↦
          (l.before, l.after, s, own, l.listed ∙ ap (λ kv. l.before ++ kv ∷ l.after) same, l.last)
      | inr other ↦ absurd (cc (other, l.named))
    ]
  ]

module _ {W : Type 0} {x : Rpcx W} (H : IsRegistry x) where
  -- Where etcd answers, and lists no service under a server id that is without an equals sign: a
  -- connect server of that id creates its RPC servers, one after the other, and then a task server
  -- sets up its clients from what etcd lists. Each of these succeeds, whatever else etcd listed
  -- before, and a single message for the id is sent to the client of one of the addresses, as the
  -- connect server announced it, with its user, operation, sequence number and body.
  pub create_all-push :
      {C V : Type 0} (single : C → PushMsgRequest → V → V)
      (room : C → Method → PushRoomMsgRequest → V → V) (new_client : Bytes → C) (etcd : CommonEtcd)
      (s : Bytes × Bytes) (ss : List (Bytes × Bytes)) (seq : Bytes) (arg : PushParams) (w : W)
      (v : V)
      → b'=' ∉ arg.server_id
      → ((kv : KvPair)
          → Memᴰ kv (H.services etcd.base_path etcd.server_path_connect w)
          → str_eq (server_id_of kv) arg.server_id ≡ false)
      → (w' : W) × (cs : List (Bytes × C)) × (t : Bytes × Bytes) × (create_all x etcd arg.server_id
            (s ∷ ss)
            w
          ≡ done w')
        × (init_connect_rpc_client new_client
              (H.services etcd.base_path etcd.server_path_connect w')
            ≡ done cs)
        × Memᴰ t (s ∷ ss)
        × (push_single_to_connect (clients_of single room cs) seq arg v
            ≡ done (
                single
                  (new_client (bind_of t))
                  (record { user_id = arg.user_id; msg = message op_single_send seq arg.msg })
                  v))
  create_all-push single room new_client etcd s ss seq arg w v plain others =
      let id = arg.server_id in
      let (w', created, some_own, sorted) =
        create_all-puts H etcd id (s ∷ ss) s ss w (λ t m. m) (λ kv m. inr (others kv m)) in
      let (before, after, t, own, listed, last) =
        last_own H etcd id (s ∷ ss) w' plain sorted some_own in
      let (cs, set_up, pushed) =
        init_connect_rpc_client-push single room new_client before after (bind_of t) false seq arg v
          plain last in
      (
        w',
        cs,
        t,
        created,
        ap (init_connect_rpc_client new_client)
              (listed ∙ ap (λ e. before ++ e ∷ after) (metadata-entry id t))
            ∙ set_up,
        own,
        pushed,
      )
