-- ===== src/Tests/Instances.antt =====
-- Three calls of GetRedisInstance, where a client is its own options.
use zhibo.Prelude.{pos, codes, [], ◌≡◌, refl, false}
use zhibo.Connect.Bucket.{done, waits}
use zhibo.RedisInstance.{RedisOption, Clients, lookup, get_redis_instance, get_redis_instance-twice}

abbrev local : RedisOption
local = record { address = codes "127.0.0.1:6379"; password = []; db = pos 0 }

abbrev other : RedisOption
other = record { address = codes "10.0.0.1:6379"; password = []; db = pos 0 }

abbrev at_start : Clients RedisOption
at_start = record { client_map = []; locked = false }

get_redis_instance-twice_example :
    (t : Clients RedisOption) × (u : Clients RedisOption) × (get_redis_instance
        (λ o. o)
        local
        at_start
      ≡ done (local, t))
    × (get_redis_instance (λ o. o) local t ≡ done (local, u))
    × (get_redis_instance (λ o. o) other u ≡ waits)
unfolding lookup
get_redis_instance-twice_example =
    get_redis_instance-twice (λ o. o) local local other at_start refl refl refl
