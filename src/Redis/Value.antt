-- ===== src/Redis/Value.antt =====
-- packages/apalis-redis/src/storage.rs: errors, replies of the server and the codec.
use apalis_cron_jobs.Prelude.{String, Option, none, some, List, [], ◌∷◌, ◌≡◌}
use apalis_cron_jobs.Prelude.Outcome.{Result, ok, err}
use apalis_cron_jobs.Core.Error.{DynError}
use apalis_cron_jobs.Core.Request.{Request}
use apalis_cron_jobs.Redis.Config.{RedisContext}

pub data RedisError : Type 0 where
  encode_error decode_error duration_error : String → RedisError
  invalid_data unknown_result id_not_found not_registered script_error panic : RedisError

-- A reply of the server, as far as the storage looks into it: of an array it reads the first
-- element, `none` for one that is no byte string.
pub data Value (Bytes : Type 0) : Type 0 where
  nil other : Value Bytes
  bulk_string : Bytes → Value Bytes
  array set : List (Option Bytes) → Value Bytes

-- The codec and the text of errors. The extensions and the namespace of a request are not
-- serialised, so they do not come back.
pub record Codec (Args Bytes : Type 0) : Type 0 where
  pub encode : Request Args RedisContext → Result String Bytes
  pub decode : Bytes → Result String (Request Args RedisContext)
  pub encode_result : Bytes → Result String Bytes
  pub to_bytes : DynError → Bytes
  pub decode-encode :
      (r : Request Args RedisContext) {b : Bytes}
      → encode r ≡ ok b
      → decode b ≡ ok (record r { parts = record (r.parts) { namespace = none } })

module _ {Bytes : Type 0} where
  first_bytes : List (Option Bytes) → Result RedisError Bytes
  first_bytes [] = err invalid_data
  first_bytes (none ∷ rest) = err invalid_data
  first_bytes (some bytes ∷ rest) = ok bytes

  unfoldable pub deserialize_job : Value Bytes → Result RedisError Bytes
  unfolding first_bytes
  deserialize_job (bulk_string bytes) = ok bytes
  deserialize_job (array val) = first_bytes val
  deserialize_job (set val) = first_bytes val
  deserialize_job nil = err unknown_result
  deserialize_job other = err unknown_result

  -- An element of a reply, as a value.
  abbrev pub element : Option Bytes → Value Bytes
  element none = nil
  element (some bytes) = bulk_string bytes
