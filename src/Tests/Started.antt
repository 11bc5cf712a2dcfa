-- ===== src/Tests/Started.antt =====
-- The connect server of config/dev: its start, and its way over an etcd in memory to a task server.
use mathlib.Core.List.{Memᴰ}
use mathlib.Core.List.Memᴰ.{not-nil, cases_cons}
use mathlib.Core.Path.{subst}
use zhibo.Prelude.{
  Bytes, Bool, codes, str_eq, str_eq_self, none, List, [], ◌∷◌, ◌&&◌, ◌≡◌, ◌≢◌, ◌⊎◌, inl, inr, refl,
  sym, ap, ◌∙◌, if◌then◌else◌, false, Bool-cases,
}
use zhibo.Connect.Bucket.{done}
use zhibo.Connect.Start.{MakeLimits}
use zhibo.Registry.{Rpcx, EtcdV3RegisterPlugin, create_all}
use zhibo.Registry.Binds.{bind_of}
use zhibo.Task.{message, push_single_to_connect}
use zhibo.Task.Clients.{
  KvPair, after_prefix, remove_first, server_id_of, init_connect_rpc_client, clients_of,
}
use zhibo.Task.Clients.Announced.{IsRegistry, create_all-push}
use zhibo.Tests.Clients.{dev, noted, not_noted, tcp_service, to_ws}

abbrev bind_6912 : Bytes × Bytes
bind_6912 = (codes "tcp", codes "0.0.0.0:6912")

abbrev bind_6913 : Bytes × Bytes
bind_6913 = (codes "tcp", codes "0.0.0.0:6913")

-- What etcd lists for a base path and a service path.
abbrev Etcd : Type 0
Etcd = Bytes → Bytes → List KvPair

drop_key : Bytes → List KvPair → List KvPair
drop_key k [] = []
drop_key k (kv ∷ kvs) = let rest = drop_key k kvs in if str_eq kv.key k then rest else kv ∷ rest

abbrev rpcx : Rpcx Etcd
rpcx = record {
  start = λ p w. (none, w);
  register_name = λ p path id w. (
    none,
    λ b q.
        if str_eq p.base_path b && str_eq path q
        then record { key = p.service_address; value = id } ∷ drop_key p.service_address (w b q)
        else w b q,
  );
  serve = λ n a w. w;
}

drop_key-Mem :
    (k : Bytes) (kvs : List KvPair) (kv : KvPair)
    → Memᴰ kv (drop_key k kvs)
    → (kv.key ≢ k) × Memᴰ kv kvs
unfolding drop_key
drop_key-Mem k [] kv m = absurd (not-nil m)
drop_key-Mem k (x ∷ kvs) kv m = elim (Bool-cases (str_eq x.key k)) [
  | inl same ↦
      let (apart, there) =
        drop_key-Mem k kvs kv (
          subst (λ (t : Bool). Memᴰ kv (if t then drop_key k kvs else x ∷ drop_key k kvs)) same
            m) in
      (apart, Memᴰ.tail there)
  | inr other ↦
      elim (cases_cons (
        subst (λ (t : Bool). Memᴰ kv (if t then drop_key k kvs else x ∷ drop_key k kvs)) other m)) [
          | inl is ↦ (
            λ e. absurd (
                cc (
                  other,
                  str_eq_self k,
                  ap (λ (y : KvPair). str_eq y.key k) is,
                  ap (λ a. str_eq a k) e,
                )),
            Memᴰ.head is,
          )
          | inr later ↦ let (apart, there) = drop_key-Mem k kvs kv later in (apart, Memᴰ.tail there)
        ]
]

put_key-Mem :
    (k v : Bytes) (kvs : List KvPair) (kv : KvPair)
    → Memᴰ kv (record { key = k; value = v } ∷ drop_key k kvs)
    → (kv ≡ record { key = k; value = v }) ⊎ ((kv.key ≢ k) × Memᴰ kv kvs)
put_key-Mem k v kvs kv m = elim (cases_cons m) [
  | inl new ↦ inl new
  | inr old ↦ inr (drop_key-Mem k kvs kv old)
]

written :
    (p : EtcdV3RegisterPlugin) (path id : Bytes) (w : Etcd)
    → (rpcx.register_name p path id w).1 p.base_path path
      ≡ record { key = p.service_address; value = id }
        ∷ drop_key p.service_address (w p.base_path path)
written p path id w = rw (str_eq_self p.base_path, str_eq_self path) refl

abbrev announced : EtcdV3RegisterPlugin → Bytes → KvPair
announced p id = record { key = p.service_address; value = id }

abbrev registry : IsRegistry rpcx
registry = record {
  services = λ b q w. w b q;
  starts = λ p w. refl;
  start_keeps = λ p b q w. refl;
  register_puts = λ p path id w.
      subst (λ kvs. Memᴰ (announced p id) kvs) (sym (written p path id w)) (Memᴰ.head refl);
  register_keeps = λ p path id w kv m.
      put_key-Mem p.service_address id (w p.base_path path) kv
        (subst (λ kvs. Memᴰ kv kvs) (written p path id w) m);
  serve_keeps = λ n a b q w. refl;
}

-- A 64-bit machine's limits for slices of pointers and channels of pointers.
abbrev limits : MakeLimits
limits = record { slice = 35184372088832; buffer = 35184372088820 }

tcp_id : str_eq (server_id_of tcp_service) to_ws.server_id ≡ false
unfolding server_id_of remove_first after_prefix
tcp_id = refl

other_id :
    (kv : KvPair) → Memᴰ kv (tcp_service ∷ []) → str_eq (server_id_of kv) to_ws.server_id ≡ false
other_id kv m = elim (cases_cons m) [
  | inl same ↦ ap (λ y. str_eq (server_id_of y) to_ws.server_id) same ∙ tcp_id
  | inr none_there ↦ absurd (not-nil none_there)
]

create_all-push_example :
    (w : Etcd) × (cs : List (Bytes × Bytes)) × (t : Bytes × Bytes) × (create_all rpcx
        dev.common.common_etcd
        (codes "ws-1")
        (bind_6912 ∷ bind_6913 ∷ [])
        (λ b q. tcp_service ∷ [])
      ≡ done w)
    × (init_connect_rpc_client (λ a. a) (w (codes "/gochat_srv") (codes "ConnectRpc")) ≡ done cs)
    × Memᴰ t (bind_6912 ∷ bind_6913 ∷ [])
    × (push_single_to_connect (clients_of noted not_noted cs) [] to_ws []
        ≡ done ((bind_of t, codes "hi") ∷ []))
unfolding message
create_all-push_example =
    create_all-push registry noted not_noted (λ a. a) dev.common.common_etcd bind_6912
      (bind_6913 ∷ []) [] to_ws (λ b q. tcp_service ∷ []) [] refl other_id
