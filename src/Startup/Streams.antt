-- ===== src/Startup/Streams.antt =====
-- runtime/scripts/init_redis_streams.py, and the client of runtime/src/argus/services/redis.py that it opens and
-- closes: the consumer group of the ingest stream. What Redis answers is a parameter.
use argus_services.Prelude.{ℕ, ◌≡◌, refl, String, Bool, true, false, if◌then◌else◌}
use argus_services.Exec.{Exec, Result, ok, raised, service_error}

-- `_client`: whether a client is open.
pub record RedisClient : Type 0 where
  pub is_open : Bool

unfoldable pub get_redis : RedisClient → RedisClient
get_redis c = record { is_open = true }

-- An open client is closed; `none` of the source is a client that is not open.
unfoldable pub close_redis : RedisClient → RedisClient
close_redis c = if c.is_open then record { is_open = false } else c

-- `xgroup_create` returns, or raises a `ResponseError` with a text.
pub data GroupAnswer : Type 0 where
  created : GroupAnswer
  response_error : String → GroupAnswer

module _ (is_within : String → String → Bool) where
  unfoldable pub group_result : GroupAnswer → Result ℕ
  group_result created = ok 0
  group_result (response_error message) =
      if is_within "BUSYGROUP" message then ok 0 else raised (service_error message)

  -- `main`, with its `finally`.
  unfoldable pub init_streams : GroupAnswer → Exec RedisClient ℕ
  init_streams answer c = (group_result answer, close_redis (get_redis c))

  -- Whatever Redis answers, also when the script raises, no client is left open; and a group that is there
  -- already is no failure.
  init_streams-closes :
      (answer : GroupAnswer) (message : String) (c : RedisClient)
      → is_within "BUSYGROUP" message ≡ true
      → ((init_streams answer c).1.is_open ≡ false)
        × ((init_streams created c).0 ≡ ok 0)
        × ((init_streams (response_error message) c).0 ≡ ok 0)
  unfolding init_streams group_result get_redis close_redis
  init_streams-closes answer message c busy = (refl, refl, rw busy refl)
