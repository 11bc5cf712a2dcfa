-- ===== src/RedisInstance.antt =====
-- GetRedisInstance of tools/redis.go: the clients by address, and the lock over them. A client and
-- redis.NewClient are parameters.
use zhibo.Prelude.{
  ℤ, Bytes, str_eq, str_eq_self, Bool, true, false, Option, none, some, List, [], ◌∷◌, ◌≡◌, refl,
  if◌then◌else◌,
}
use zhibo.Connect.Bucket.{Outcome, done, waits}

pub record RedisOption : Type 0 where
  pub address : Bytes
  pub password : Bytes
  pub db : ℤ

-- RedisClientMap, and whether syncLock is held.
pub record Clients (C : Type 0) : Type 0 where
  pub client_map : List (Bytes × C)
  pub locked : Bool

unfoldable pub lookup : {C : Type 0} → Bytes → List (Bytes × C) → Option C
lookup addr [] = none
lookup addr ((a, c) ∷ cs) = if str_eq a addr then some c else lookup addr cs

module _ {C : Type 0} (new_client : RedisOption → C) where
  -- With the lock: a known client is returned as it is found; a new one is noted, and the lock is
  -- given back.
  unfoldable pub instance_in : Option C → RedisOption → Clients C → C × Clients C
  instance_in (some c) opt s = (c, record s { locked = true })
  instance_in none opt s =
      let c = new_client opt in
      (c, record { client_map = (opt.address, c) ∷ s.client_map; locked = false })

  unfoldable pub get_redis_instance : RedisOption → Clients C → Outcome (C × Clients C)
  unfolding instance_in lookup
  get_redis_instance opt s =
      if s.locked then waits else done (instance_in (lookup opt.address s.client_map) opt s)

  -- A known address: the client is given, and no later call returns.
  known-waits :
      (opt next : RedisOption) (c : C) (s : Clients C)
      → s.locked ≡ false
      → lookup opt.address s.client_map ≡ some c
      → (t : Clients C) × (get_redis_instance opt s ≡ done (c, t))
        × (get_redis_instance next t ≡ waits)
  unfolding get_redis_instance instance_in
  known-waits opt next c s free known = (record s { locked = true }, rw (free, known) refl, refl)

  -- Where nobody holds the lock and the address is not known yet: the first call gives a new client,
  -- the second call for the address gives the same one, and every call after that, for whatever
  -- address, waits for ever, since the second one returned with the lock held.
  pub get_redis_instance-twice :
      (opt again next : RedisOption) (s : Clients C)
      → s.locked ≡ false
      → lookup opt.address s.client_map ≡ none
      → again.address ≡ opt.address
      → (t : Clients C) × (u : Clients C) × (get_redis_instance opt s ≡ done (new_client opt, t))
        × (get_redis_instance again t ≡ done (new_client opt, u))
        × (get_redis_instance next u ≡ waits)
  unfolding get_redis_instance instance_in lookup
  get_redis_instance-twice opt again next s free unknown same =
      let t : Clients C = record {
        client_map = (opt.address, new_client opt) ∷ s.client_map;
        locked = false;
      } in
      let there : lookup again.address t.client_map ≡ some (new_client opt) =
        rw (same, str_eq_self opt.address) refl in
      let (u, second, third) = known-waits again next (new_client opt) t refl there in
      (t, u, rw (free, unknown) refl, second, third)
