-- ===== src/Task/Clients/Listed.antt =====
-- The last service under an id in what a discovery lists, which is the one that the loop of
-- task/rpc.go keeps a client for.
use mathlib.Core.List.{Memᴰ}
use mathlib.Core.List.Memᴰ.{not-nil, cases_cons}
use zhibo.Prelude.{
  Bytes, str_eq, Bool-cases, true, false, List, [], ◌∷◌, ◌++◌, ◌≡◌, ◌⊎◌, inl, inr, refl, ap, ◌∙◌,
}
use zhibo.Task.Clients.{KvPair, server_id_of}
use zhibo.Task.Clients.Found.{NoneUnder}

-- The service that is listed last under an id.
pub record LastUnder (id : Bytes) (kvs : List KvPair) : Type 0 where
  pub before : List KvPair
  pub service : KvPair
  pub after : List KvPair
  pub listed : kvs ≡ before ++ service ∷ after
  pub there : Memᴰ service kvs
  pub named : str_eq (server_id_of service) id ≡ true
  pub last : NoneUnder id after

pub last_or_none : (id : Bytes) (kvs : List KvPair) → NoneUnder id kvs ⊎ LastUnder id kvs
last_or_none id [] = inl tt
last_or_none id (kv ∷ kvs) = elim (last_or_none id kvs) [
  | inl none_there ↦ elim (Bool-cases (str_eq (server_id_of kv) id)) [
    | inl named ↦ inr (record {
      before = [];
      service = kv;
      after = kvs;
      listed = refl;
      there = Memᴰ.head refl;
      named = named;
      last = none_there;
    })
    | inr other ↦ inl (other, none_there)
  ]
  | inr l ↦ inr (record {
    before = kv ∷ l.before;
    service = l.service;
    after = l.after;
    listed = ap (λ xs. kv ∷ xs) l.listed;
    there = Memᴰ.tail l.there;
    named = l.named;
    last = l.last;
  })
]

pub NoneUnder-Mem :
    (id : Bytes) (kvs : List KvPair) (kv : KvPair)
    → NoneUnder id kvs
    → Memᴰ kv kvs
    → str_eq (server_id_of kv) id ≡ false
NoneUnder-Mem id [] kv none_there m = absurd (not-nil m)
NoneUnder-Mem id (x ∷ kvs) kv (other, none_there) m = elim (cases_cons m) [
  | inl same ↦ ap (λ y. str_eq (server_id_of y) id) same ∙ other
  | inr later ↦ NoneUnder-Mem id kvs kv none_there later
]
