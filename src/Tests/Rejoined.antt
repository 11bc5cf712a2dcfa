-- ===== src/Tests/Rejoined.antt =====
-- A server of two buckets, where one websocket joins as two users.
use zhibo.Prelude.{ℕ, Bytes, pos, codes, [], ◌∷◌, ◌≡◌, refl, itoa}
use zhibo.Connect.Bucket.{new_bucket, done, put}
use zhibo.Connect.Server.{State, new_server, bucket, index, at_index}
use zhibo.Connect.Session.{crash, put_at, close}
use zhibo.Connect.Session.Whole.Rejoined.{rejoined-close}
use zhibo.Tests.Buckets.{b0, g0}
use zhibo.Tests.Sessions.{logic}

-- Users by the first digit of their number.
first_digit : Bytes → ℕ → ℕ
first_digit [] n = 0
first_digit (d ∷ ds) n = d

abbrev two_buckets : State
two_buckets = record { server = new_server (b0 ∷ b0 ∷ []); heap = g0 }

of_7 : bucket first_digit (pos 7) two_buckets.server ≡ done (1, b0)
unfolding first_digit bucket index at_index new_server itoa
of_7 = refl

of_8 : bucket first_digit (pos 8) two_buckets.server ≡ done (0, b0)
unfolding first_digit bucket index at_index new_server itoa
of_8 = refl

rejoined-close_example :
    let put_in = put_at first_digit logic (codes "s1") in
    let b1 = (put (pos 7) (pos 5) 1 b0 g0).0 in
    let s1 = (put_in (pos 7) (pos 5) 1 two_buckets 1 b0).0 in
    let s2 = (put_in (pos 7) (pos 5) 2 s1 1 b1).0 in
    let s3 = (put_in (pos 8) (pos 5) 2 s2 0 b0).0 in
    (bucket first_digit (pos 7) s1.server ≡ done (1, b1))
    × (bucket first_digit (pos 8) s2.server ≡ done (0, b0))
    × (close first_digit logic (codes "s1") 1 (s3, 0) ≡ crash)
unfolding new_bucket
rejoined-close_example =
    rejoined-close first_digit logic (codes "s1") 2 1 (pos 7) (pos 8) (pos 5) (pos 5) (pos 5)
      two_buckets 0 1 0 b0 b0 of_7 of_8 refl refl refl refl refl refl
