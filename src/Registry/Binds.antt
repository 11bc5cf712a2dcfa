-- ===== src/Registry/Binds.antt =====
-- The addresses of a server's configuration, taken apart into the goroutines' arguments.
use zhibo.Prelude.{
  ℕ, Bytes, codes, none, some, List, [], ◌∷◌, ◌++◌, map, ◌≡◌, refl, sym, ap, ◌∙◌, ◌∉◌, is_empty,
  false, arith,
}
use zhibo.Config.{Config}
use zhibo.Logic.Exec.{Result}
use zhibo.Network.{parse_network-join, parse_network-err, bad_address}
use zhibo.Registry.{split_by, Started, also, bind_one, bind_each, init_rpc_server}
use mathlib.Core.List.{append-nil}

-- strings.Join by a separator of one byte.
abbrev pub join : ℕ → List Bytes → Bytes
join c [] = []
join c (f ∷ []) = f
join c (f ∷ g ∷ fs) = f ++ c ∷ join c (g ∷ fs)

abbrev pub AllWithout : ℕ → List Bytes → Type 0
AllWithout c [] = Unit
AllWithout c (f ∷ fs) = (c ∉ f) × AllWithout c fs

split_by-last : (c : ℕ) (f : Bytes) → c ∉ f → split_by c f ≡ f ∷ []
unfolding split_by
split_by-last c [] out = refl
split_by-last c (x ∷ f) out = ground (arith, split_by-last c f)

split_by-first : (c : ℕ) (f rest : Bytes) → c ∉ f → split_by c (f ++ c ∷ rest) ≡ f ∷ split_by c rest
unfolding split_by
split_by-first c [] rest out = ground arith
split_by-first c (x ∷ f) rest out = ground (arith, split_by-first c f rest)

-- Fields without the separator are what the split of their joining gives.
pub split_by-join :
    (c : ℕ) (f : Bytes) (fs : List Bytes)
    → AllWithout c (f ∷ fs)
    → split_by c (join c (f ∷ fs)) ≡ f ∷ fs
split_by-join c f [] (out, _) = split_by-last c f out
split_by-join c f (g ∷ fs) (out, outs) =
    split_by-first c f (join c (g ∷ fs)) out ∙ ap (λ gs. f ∷ gs) (split_by-join c g fs outs)

-- A server's network and address, as one address of the configuration.
abbrev pub bind_of : Bytes × Bytes → Bytes
bind_of (network, addr) = network ++ b'@' ∷ addr

-- The first @ of an address ends the network, and a comma ends the address.
pub record IsBind (s : Bytes × Bytes) : Type 0 where
  pub network : b'@' ∉ s.0
  pub one : b',' ∉ bind_of s

abbrev pub AllBind : List (Bytes × Bytes) → Type 0
AllBind [] = Unit
AllBind (s ∷ ss) = IsBind s × AllBind ss

AllBind-AllWithout :
    (ss : List (Bytes × Bytes)) (fs : List Bytes)
    → AllBind ss
    → AllWithout b',' fs
    → AllWithout b',' (map bind_of ss ++ fs)
AllBind-AllWithout [] fs is outs = outs
AllBind-AllWithout (s ∷ ss) fs (is, rest) outs = (is.one, AllBind-AllWithout ss fs rest outs)

-- The goroutines of the first addresses are started before what follows is looked at.
abbrev pub also_all : List (Bytes × Bytes) → Started → Started
also_all ss s = record { servers = ss ++ s.servers; panicked = s.panicked }

bind_each-append :
    (where_ : Bytes) (ss : List (Bytes × Bytes)) (rest : List Bytes)
    → AllBind ss
    → bind_each where_ (map bind_of ss ++ rest) ≡ also_all ss (bind_each where_ rest)
unfolding bind_each
bind_each-append where_ [] rest is = refl
bind_each-append where_ ((network, addr) ∷ ss) rest (is, all) =
    ap
      (λ (p : Result (Bytes × Bytes)).
        bind_one where_ p (bind_each where_ (map bind_of ss ++ rest)))
      (parse_network-join network addr is.network)
    ∙ ap (also (network, addr)) (bind_each-append where_ ss rest all)

split_by-all :
    (c : ℕ) (fs : List Bytes) → is_empty fs ≡ false → AllWithout c fs → split_by c (join c fs) ≡ fs
split_by-all c [] some_field outs = cc
split_by-all c (f ∷ fs) some_field outs = split_by-join c f fs outs

is_empty-append {ℓ} : {A : Type ℓ} (xs ys : List A) (y : A) → is_empty (xs ++ y ∷ ys) ≡ false
is_empty-append [] ys y = refl
is_empty-append (x ∷ xs) ys y = refl

-- What a function over the addresses comes to that are joined by commas.
bind_each-join :
    (where_ : Bytes) (ss : List (Bytes × Bytes)) (rest : List Bytes)
    → is_empty (map bind_of ss ++ rest) ≡ false
    → AllBind ss
    → AllWithout b',' rest
    → bind_each where_ (split_by b',' (join b',' (map bind_of ss ++ rest)))
      ≡ also_all ss (bind_each where_ rest)
bind_each-join where_ ss rest some_bind is outs =
    ap (bind_each where_)
      (split_by-all b',' (map bind_of ss ++ rest) some_bind (AllBind-AllWithout ss rest is outs))
    ∙ bind_each-append where_ ss rest is

-- A goroutine is started for every address.
abbrev pub all_started : List (Bytes × Bytes) → Started
all_started ss = record { servers = ss; panicked = none }

abbrev pub bind_error : Bytes → Bytes → Bytes
bind_error where_ bad = where_ ++ codes " ParseNetwork error : " ++ bad_address bad

pub bind_each-good :
    (where_ : Bytes) (s : Bytes × Bytes) (ss : List (Bytes × Bytes))
    → AllBind (s ∷ ss)
    → bind_each where_ (split_by b',' (join b',' (map bind_of (s ∷ ss)))) ≡ all_started (s ∷ ss)
unfolding bind_each
bind_each-good where_ s ss is =
    ap (λ (bs : List Bytes). bind_each where_ (split_by b',' (join b',' bs)))
      (sym (append-nil (map bind_of (s ∷ ss))))
    ∙ bind_each-join where_ (s ∷ ss) [] refl is tt
    ∙ ap all_started (append-nil (s ∷ ss))

bind_each-bad :
    (where_ : Bytes) (ss : List (Bytes × Bytes)) (bad : Bytes) (rest : List Bytes)
    → AllBind ss
    → b'@' ∉ bad
    → AllWithout b',' (bad ∷ rest)
    → bind_each where_ (split_by b',' (join b',' (map bind_of ss ++ bad ∷ rest)))
      ≡ record { servers = ss; panicked = some (bind_error where_ bad) }
unfolding bind_each
bind_each-bad where_ ss bad rest is no_at outs =
    bind_each-join where_ ss (bad ∷ rest) (is_empty-append (map bind_of ss) rest bad) is outs
    ∙ ap (λ p. also_all ss (bind_one where_ p (bind_each where_ rest)))
        (parse_network-err bad no_at)
    ∙ ap (λ ss. record { servers = ss; panicked = some (bind_error where_ bad) }) (append-nil ss)

abbrev pub with_rpc_address : Config → Bytes → Config
with_rpc_address conf address = record conf {
  logic = record { logic_base = record conf.logic.logic_base { rpc_address = address } };
}

-- The logic layer, configured with addresses network@address that are joined by commas, where no
-- network has an @ and no address a comma: a goroutine that creates an RPC server on its network and
-- address is started for each, in their order. Where one that has no @ follows them, whatever comes
-- after it, these goroutines are started already, though they may not have run, when the start panics
-- with the address in its message.
pub init_rpc_server-binds :
    (conf : Config) (s : Bytes × Bytes) (ss : List (Bytes × Bytes)) (bad : Bytes)
    (rest : List Bytes)
    → AllBind (s ∷ ss)
    → b'@' ∉ bad
    → AllWithout b',' (bad ∷ rest)
    → (init_rpc_server (with_rpc_address conf (join b',' (map bind_of (s ∷ ss))))
        ≡ all_started (s ∷ ss))
      × (init_rpc_server (with_rpc_address conf (join b',' (map bind_of (s ∷ ss) ++ bad ∷ rest)))
          ≡ record { servers = s ∷ ss; panicked = some (bind_error (codes "InitLogicRpc") bad) })
unfolding init_rpc_server
init_rpc_server-binds conf s ss bad rest is no_at outs = (
  bind_each-good (codes "InitLogicRpc") s ss is,
  bind_each-bad (codes "InitLogicRpc") (s ∷ ss) bad rest is no_at outs,
)
