-- ===== src/Logic/Redis.antt =====
-- The Redis server behind logic/publish.go, as an interface: the commands that the logic layer
-- sends, and, for theorems that need it, what Redis documents of them.
use zhibo.Prelude.{
  ℤ, pos, Bool, Bytes, str_eq, Option, none, some, List, [], ◌∷◌, ◌++◌, ◌≡◌, ◌≢◌, if◌then◌else◌,
  inc, dec, itoa, codes,
}
use zhibo.Prelude.Decimal.{atoi}

-- A Go duration of n seconds is the number n.
pub data Command : Type 0 where
  multi : Command
  exec : Command
  get : Bytes → Command
  set : Bytes → Bytes → ℤ → Command
  del : Bytes → Command
  expire : Bytes → ℤ → Command
  hmset : Bytes → List (Bytes × Bytes) → Command
  hset : Bytes → Bytes → Bytes → Command
  hget : Bytes → Bytes → Command
  hget_all : Bytes → Command
  hdel : Bytes → Bytes → Command
  incr : Bytes → Command
  decr : Bytes → Command
  publish : Bytes → Bytes → Command

pub data Reply : Type 0 where
  failed : Bytes → Reply
  nil : Reply
  status : Reply
  text : Bytes → Reply
  fields : List (Bytes × Bytes) → Reply

pub record Redis : Type 1 where
  pub Db : Type 0
  pub run : Command → Db → Reply × Db

-- `.Err()`, `.Val()` of a string, of a map, and `.Int()`; a missing value is an error to the client
-- (redis.Nil), with the zero value beside it.
abbrev pub err_of : Reply → Option Bytes
err_of (failed e) = some e
err_of nil = some (codes "redis: nil")
err_of _ = none

abbrev pub string_of : Reply → Bytes
string_of (text t) = t
string_of _ = []

abbrev pub map_of : Reply → List (Bytes × Bytes)
map_of (fields fs) = fs
map_of _ = []

-- `m[key]` of a map[string]string: a missing key reads as the empty string.
unfoldable pub field : Bytes → List (Bytes × Bytes) → Bytes
field k [] = []
field k ((j, v) ∷ fs) = if str_eq j k then v else field k fs

unfoldable pub put_field : Bytes → Bytes → List (Bytes × Bytes) → List (Bytes × Bytes)
put_field k v [] = (k, v) ∷ []
put_field k v ((j, w) ∷ fs) = if str_eq j k then (j, v) ∷ fs else (j, w) ∷ put_field k v fs

unfoldable pub put_fields : List (Bytes × Bytes) → List (Bytes × Bytes) → List (Bytes × Bytes)
unfolding put_field
put_fields [] fs = fs
put_fields ((k, v) ∷ new) fs = put_fields new (put_field k v fs)

unfoldable pub remove_field : Bytes → List (Bytes × Bytes) → List (Bytes × Bytes)
remove_field k [] = []
remove_field k ((j, v) ∷ fs) = if str_eq j k then fs else (j, v) ∷ remove_field k fs

-- What Redis documents. A key holds a text, a hash with at least one field, or nothing; a command
-- for the other kind of value is an error and changes nothing.
pub data Value : Type 0 where
  absent : Value
  a_text : Bytes → Value
  a_hash : List (Bytes × Bytes) → Value

abbrev pub Data : Type 0
Data = Bytes → Value

unfoldable pub write : Bytes → Value → Data → Data
write k v d j = if str_eq j k then v else d j

abbrev pub hash_of : List (Bytes × Bytes) → Value
hash_of [] = absent
hash_of (f ∷ fs) = a_hash (f ∷ fs)

abbrev pub to_hash : (List (Bytes × Bytes) → List (Bytes × Bytes)) → Value → Value
to_hash f absent = hash_of (f [])
to_hash f (a_hash fs) = hash_of (f fs)
to_hash f (a_text t) = a_text t

-- Redis counts on a text only where it is the decimal notation of an integer; a missing key counts
-- from 0. That an int64 would overflow is not part of it.
abbrev pub is_integer : Bytes → Bool
is_integer t = str_eq (itoa (atoi t)) t

abbrev pub to_count : (ℤ → ℤ) → Value → Value
to_count f absent = a_text (itoa (f (pos 0)))
to_count f (a_text t) = if is_integer t then a_text (itoa (f (atoi t))) else a_text t
to_count f (a_hash fs) = a_hash fs

abbrev pub count_reply : Bytes → Reply
count_reply t = if is_integer t then status else failed (codes "ERR value is not an integer")

abbrev pub hash_reply : (List (Bytes × Bytes) → Reply) → Value → Reply
hash_reply f absent = f []
hash_reply f (a_hash fs) = f fs
hash_reply f (a_text t) = failed (codes "WRONGTYPE")

abbrev pub text_reply : (Bytes → Reply) → Reply → Value → Reply
text_reply f missing absent = missing
text_reply f missing (a_text t) = f t
text_reply f missing (a_hash fs) = failed (codes "WRONGTYPE")

unfoldable pub find_field : Bytes → List (Bytes × Bytes) → Option Bytes
find_field k [] = none
find_field k ((j, v) ∷ fs) = if str_eq j k then some v else find_field k fs

abbrev pub field_reply : Option Bytes → Reply
field_reply none = nil
field_reply (some v) = text v

-- The effect of a command outside a transaction, and its reply. Expiry by time is not part of it.
unfoldable pub apply : Command → Data → Data
unfolding write put_field put_fields remove_field itoa
apply (set k v ttl) d = write k (a_text v) d
apply (del k) d = write k absent d
apply (hmset k fs) d = write k (to_hash (put_fields fs) (d k)) d
apply (hset k f v) d = write k (to_hash (put_field f v) (d k)) d
apply (hdel k f) d = write k (to_hash (remove_field f) (d k)) d
apply (incr k) d = write k (to_count inc (d k)) d
apply (decr k) d = write k (to_count dec (d k)) d
apply multi d = d
apply exec d = d
apply (get k) d = d
apply (expire k n) d = d
apply (hget k f) d = d
apply (hget_all k) d = d
apply (publish c m) d = d

unfoldable pub answer : Command → Data → Reply
unfolding find_field
answer (get k) d = text_reply text nil (d k)
answer (hget k f) d = hash_reply (λ fs. field_reply (find_field f fs)) (d k)
answer (hget_all k) d = hash_reply fields (d k)
answer (hmset k fs) d = hash_reply (λ _. status) (d k)
answer (hset k f v) d = hash_reply (λ _. status) (d k)
answer (hdel k f) d = hash_reply (λ _. status) (d k)
answer (incr k) d = text_reply count_reply status (d k)
answer (decr k) d = text_reply count_reply status (d k)
answer multi d = status
answer exec d = failed (codes "ERR EXEC without MULTI")
answer (set k v ttl) d = status
answer (del k) d = status
answer (expire k n) d = status
answer (publish c m) d = status

unfoldable pub apply_all : List Command → Data → Data
unfolding apply
apply_all [] d = d
apply_all (c ∷ cs) d = apply_all cs (apply c d)

-- A server that is reached by every call and does as documented: outside a transaction a command
-- takes effect and answers; MULTI opens one, commands in it are queued, and EXEC applies them.
pub record IsHealthy (R : Redis) : Type 0 where
  pub view : R.Db → Data
  pub queued : R.Db → Option (List Command)
  pub answers : (c : Command) (db : R.Db) → queued db ≡ none → (R.run c db).0 ≡ answer c (view db)
  pub applies :
      (c : Command) (db : R.Db) → queued db ≡ none → view (R.run c db).1 ≡ apply c (view db)
  pub stays :
      (c : Command) (db : R.Db) → queued db ≡ none → c ≢ multi → queued (R.run c db).1 ≡ none
  pub begins : (db : R.Db) → queued db ≡ none → queued (R.run multi db).1 ≡ some []
  pub queues :
      (c : Command) (db : R.Db) (q : List Command)
      → queued db ≡ some q
      → c ≢ exec
      → c ≢ multi
      → (view (R.run c db).1 ≡ view db) × (queued (R.run c db).1 ≡ some (q ++ c ∷ []))
  pub commits :
      (db : R.Db) (q : List Command)
      → queued db ≡ some q
      → ((R.run exec db).0 ≡ status)
        × (view (R.run exec db).1 ≡ apply_all q (view db))
        × (queued (R.run exec db).1 ≡ none)
