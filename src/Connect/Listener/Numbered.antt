-- ===== src/Connect/Listener/Numbered.antt =====
-- The numbers that acceptTcp of connect/server_tcp.go gives to its connections.
use zhibo.Prelude.{
  ℕ, zero, suc, ◌+◌, ◌%◌, ◌<◌, Bytes, Option, none, some, List, [], ◌∷◌, ◌≡◌, ap, ◌∙◌, arith,
  get_elem?,
}
use zhibo.Config.{ConnectTcp}
use zhibo.Logic.Exec.{Result, ok, err}
use zhibo.Connect.Listener.{Net, Accepting, max_int, next_number, set_up, after_set_up, accept_tcp}

next_number-mod : (k : ℕ) → next_number (k % max_int) ≡ suc k % max_int
unfolding next_number
next_number-mod k = ground arith

module _ {W L A C : Type 0} (net : Net W L A C) where
  served-first :
      (rest : W → Accepting C × W) (c conn : C) (m r : ℕ) (o : Option Bytes × W)
      → get_elem? (after_set_up net rest (c, m) o).0.served zero ≡ some (conn, r)
      → (c ≡ conn) × (r ≡ m)
  served-first rest c conn m r (none, w) found = (cc (found), cc (found))
  served-first rest c conn m r (some e, w) found = cc (found)

  served-next :
      (rest : W → Accepting C × W) (c conn : C) (m r k : ℕ) (o : Option Bytes × W)
      → get_elem? (after_set_up net rest (c, m) o).0.served (suc k) ≡ some (conn, r)
      → get_elem? (rest o.1).0.served k ≡ some (conn, r)
  served-next rest c conn m r k (none, w) found = found
  served-next rest c conn m r k (some e, w) found = cc (found)

  served-numbers :
      (conf : ConnectTcp) (n m k : ℕ) (accepted : List (Result C)) (w : W) (conn : C) (r : ℕ)
      → m ≡ n % max_int
      → get_elem? (accept_tcp net conf m accepted w).0.served k ≡ some (conn, r)
      → (get_elem? accepted k ≡ some (ok conn)) × (r ≡ (n + k) % max_int)
  unfolding accept_tcp
  served-numbers conf n m k [] w conn r from found = cc (found)
  served-numbers conf n m k (err e ∷ rest) w conn r from found = cc (found)
  served-numbers conf n m zero (ok c ∷ rest) w conn r from found =
      let (same, number) =
        served-first (accept_tcp net conf (next_number m) rest) c conn m r (set_up net conf c w)
          found in
      (ap (λ x. some (ok x)) same, omega (arith, number, from))
  served-numbers conf n m (suc k) (ok c ∷ rest) w conn r from found =
      let later =
        served-next (accept_tcp net conf (next_number m) rest) c conn m r k (set_up net conf c w)
          found in
      let (there, number) =
        served-numbers conf (suc n) (next_number m) k rest (set_up net conf c w).1 conn r
          (ap next_number from ∙ next_number-mod n) later in
      (there, omega (arith, number))

  -- The k-th connection that one acceptTcp serves is the k-th that AcceptTCP gave it, whatever the
  -- errors, and its number is k modulo maxInt, so below maxInt: it never is maxInt itself.
  pub accept_tcp-numbers :
      (conf : ConnectTcp) (k : ℕ) (accepted : List (Result C)) (w : W) (conn : C) (r : ℕ)
      → get_elem? (accept_tcp net conf 0 accepted w).0.served k ≡ some (conn, r)
      → (get_elem? accepted k ≡ some (ok conn)) × (r ≡ k % max_int) × (r < max_int)
  accept_tcp-numbers conf k accepted w conn r found =
      let (there, number) = served-numbers conf 0 0 k accepted w conn r (omega arith) found in
      (there, omega (arith, number), omega (arith, number))
