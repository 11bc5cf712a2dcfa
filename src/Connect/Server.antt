-- ===== src/Connect/Server.antt =====
-- connect/server.go: the server's buckets, and the bucket of a user. `hash` is CityHash32 of
-- tools/cityhash.go, a copy of another project's library: a parameter.
use zhibo.Prelude.{
  ℕ, ◌%◌, ◌^◌, ℤ, Bytes, Option, none, some, List, length, get_elem?, itoa, if◌then◌else◌, ◌==◌,
}
use zhibo.Connect.Heap.{Heap}
use zhibo.Connect.Bucket.{Bucket, Outcome, done, panics}

-- `bucket_idx` is a uint32. The operator is in connect/operator.go; the options are in the records
-- that use them.
pub record Server : Type 0 where
  pub buckets : List Bucket
  pub bucket_idx : ℕ

-- NewServer
unfoldable pub new_server : List Bucket → Server
new_server b = record { buckets = b; bucket_idx = length b % 2 ^ 32 }

-- The state of the connection layer: DefaultServer and the objects that its buckets point to.
pub record State : Type 0 where
  pub server : Server
  pub heap : Heap

module _ (hash : Bytes → ℕ → ℕ) where
  -- `CityHash32([]byte(userIdStr), uint32(len(userIdStr))) % s.bucketIdx`
  unfoldable pub index : ℤ → Server → ℕ
  unfolding itoa
  index uid s = hash (itoa uid) (length (itoa uid) % 2 ^ 32) % s.bucket_idx

  unfoldable pub at_index : ℕ → Option Bucket → Outcome (ℕ × Bucket)
  at_index i none = panics
  at_index i (some b) = done (i, b)

  -- Server.Bucket: the index and the bucket. A division by zero and an index out of range panic.
  unfoldable pub bucket : ℤ → Server → Outcome (ℕ × Bucket)
  unfolding index at_index
  bucket uid s =
      if s.bucket_idx == 0
      then panics
      else at_index (index uid s) (get_elem? s.buckets (index uid s))
