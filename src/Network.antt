-- ===== src/Network.antt =====
-- ParseNetwork of tools/network.go: an address as network@address.
use zhibo.Prelude.{
  ℕ, suc, Bytes, codes, Option, none, some, [], ◌∷◌, ◌++◌, ◌≡◌, refl, ap, ◌∙◌, ◌==◌, ◌∉◌, length,
  take, drop, take-append, if◌then◌else◌, arith,
}
use zhibo.Logic.Exec.{Result, ok, err}

-- strings.Index of a string of one byte; `none` is -1.
abbrev pub next_index : Option ℕ → Option ℕ
next_index none = none
next_index (some i) = some (suc i)

unfoldable pub index_of : ℕ → Bytes → Option ℕ
index_of c [] = none
index_of c (x ∷ xs) = if x == c then some 0 else next_index (index_of c xs)

abbrev pub bad_address : Bytes → Bytes
bad_address str =
    codes "addr: \"" ++ str ++ codes "\" error, must be network@tcp:port or network@unixsocket"

unfoldable pub cut : Bytes → Option ℕ → Result (Bytes × Bytes)
cut str none = err (bad_address str)
cut str (some i) = ok (take i str, drop (suc i) str)

unfoldable pub parse_network : Bytes → Result (Bytes × Bytes)
unfolding index_of cut
parse_network str = cut str (index_of b'@' str)

index_of-join : (c : ℕ) (n a : Bytes) → c ∉ n → index_of c (n ++ c ∷ a) ≡ some (length n)
unfolding index_of
index_of-join c [] a out = ground arith
index_of-join c (x ∷ n) a out = ground (arith, index_of-join c n a)

drop-join : (c : ℕ) (n a : Bytes) → drop (suc (length n)) (n ++ c ∷ a) ≡ a
drop-join c [] a = refl
drop-join c (x ∷ n) a = drop-join c n a

-- A network without an @, an @ and any address are taken apart again at the first @.
pub parse_network-join :
    (network addr : Bytes)
    → b'@' ∉ network
    → parse_network (network ++ b'@' ∷ addr) ≡ ok (network, addr)
unfolding parse_network cut
parse_network-join network addr out =
    ap (cut (network ++ b'@' ∷ addr)) (index_of-join b'@' network addr out)
    ∙ rw (take-append network (b'@' ∷ addr), drop-join b'@' network addr) refl

index_of-none : (c : ℕ) (str : Bytes) → c ∉ str → index_of c str ≡ none
unfolding index_of
index_of-none c [] out = refl
index_of-none c (x ∷ str) out = ground (arith, index_of-none c str)

-- What has no @ is not an address.
pub parse_network-err : (str : Bytes) → b'@' ∉ str → parse_network str ≡ err (bad_address str)
unfolding parse_network cut
parse_network-err str out = ap (cut str) (index_of-none b'@' str out)
