-- ===== src/Storage/Redis.antt =====
-- src/modules/core/infra/cache/Redis.client.ts and `generateKey` of
-- src/modules/common/utils/helpers/CacheAccess.helper.ts.
use node_back_end_boilerplat.Storage.Json.{Json, to_string, to_object}
use node_back_end_boilerplat.Prelude.{
  ℕ, String, Bool, Option, some, none, false, if◌then◌else◌, is_truthy, or_else, List, [], ◌∷◌, map,
  length, eqb, join_text, includes, ◌==◌, ◌&&◌,
}
use node_back_end_boilerplat.Value.{Value, null, str, Fields, end, field}
use node_back_end_boilerplat.Effects.{Exec, ok, pure, fail, try_catch, ◌>>=◌, ◌>>◌}
use node_back_end_boilerplat.Exceptions.{integration, detailed_error, thrown_message}
use node_back_end_boilerplat.Text.{remove_first}

-- The driver: a missing key is `none`, and a command may throw.
pub record RedisDriver (S : Type 0) : Type 0 where
  pub get_text : String → Exec S (Option String)
  pub set_text : String → String → Exec S String
  pub expire : String → ℕ → Exec S (Unit {0})
  pub keys_like : String → Exec S (List String)
  pub get_texts : List String → Exec S (List (Option String))
  pub remove_key : String → Exec S ℕ
  pub flush : Exec S String
  pub connect_socket : Exec S (Unit {0})
  pub quit : Exec S String
  pub status : S → String

-- `generateKey`
unfoldable pub generate_key : String → String → String
generate_key id key_pattern = join_text key_pattern (join_text ":" id)

-- `getId`: the pattern and its colon are taken out where they first stand.
unfoldable pub get_id : String → String → String
unfolding remove_first
get_id key key_pattern = remove_first (join_text key_pattern ":") key

-- `String(value)` of what a driver returns.
abbrev pub string_or_null : Option String → String
string_or_null none = "null"
string_or_null (some text) = text

module _ {S : Type 0} (json : Json) (driver : RedisDriver S) where
  -- `isConnected`
  unfoldable pub is_connected : S → Bool
  is_connected s = includes ("connect" ∷ "ready" ∷ []) (driver.status s)

  -- `connect`
  unfoldable pub connect : Exec S Bool
  unfolding is_connected
  connect =
      try_catch driver.connect_socket (λ e.
        fail integration (detailed_error "Error to connect redis client" (str (thrown_message e))))
      >> (λ s. (ok (is_connected s), s))

  -- `disconnect`
  unfoldable pub disconnect : Exec S Bool
  disconnect =
      try_catch
        (do
          answer ← driver.quit
          (λ s. (
            ok (answer == "OK" && includes ("wait" ∷ "close" ∷ "end" ∷ []) (driver.status s)),
            s,
          )))
        (λ _. pure false)

  -- `get`
  unfoldable pub get : String → Exec S Value
  unfolding to_object
  get key = do
    value ← driver.get_text key
    pure (if is_truthy value then to_object json (or_else value "") else null)

  -- `set`
  unfoldable pub set : String → Value → ℕ → Exec S String
  unfolding to_string
  set key value ttl = do
    result ← driver.set_text key (to_string json value false)
    driver.expire key ttl
    pure result

  -- What `getByKeyPattern` reads for a key; a read that throws is left out by `allSettled`, and leaves
  -- `{}`.
  unfoldable pub read_entry : String → Exec S Fields
  unfolding to_object
  read_entry key =
      try_catch
        (do
          value ← driver.get_text key
          pure (field "key" (str key) (field "value" (to_object json (string_or_null value)) end)))
        (λ _. pure end)

  unfoldable pub read_entries : List String → Exec S (List Fields)
  unfolding read_entry
  read_entries [] = pure []
  read_entries (key ∷ keys) = do
    entry ← read_entry key
    rest ← read_entries keys
    pure (entry ∷ rest)

  -- `getByKeyPattern`
  unfoldable pub get_by_key_pattern : String → Exec S (List Fields)
  unfolding read_entries
  get_by_key_pattern pattern = do keys ← driver.keys_like pattern; read_entries keys

  -- `getValuesByKeyPattern`
  unfoldable pub get_values_by_key_pattern : String → Exec S (List Value)
  unfolding to_object
  get_values_by_key_pattern pattern = do
    keys ← driver.keys_like pattern
    (if eqb (length keys) 0
        then pure []
        else driver.get_texts keys >>= λ texts.
            pure (map (λ text. to_object json (string_or_null text)) texts))

  -- `delete` and `deleteAll`
  unfoldable pub delete : String → Exec S ℕ
  delete key = driver.remove_key key

  unfoldable pub delete_all : Exec S String
  delete_all = driver.flush

  -- `listKeys`
  unfoldable pub list_keys : Exec S (List String)
  list_keys = driver.keys_like "*"

-- The stream of keys that the driver scans for an argument, batch after batch, and a pipeline of
-- deletions; what a pipeline answers is not waited for.
pub record KeyStream (S : Type 0) : Type 0 where
  pub scan_stream : Value → S → List (List String)
  pub exec_deletions : List String → S → S

module _ {S : Type 0} (stream : KeyStream S) where
  -- The listener of `data`
  unfoldable pub on_keys : List String → S → S
  on_keys [] s = s
  on_keys (key ∷ keys) s = stream.exec_deletions (key ∷ keys) s

  unfoldable pub on_batches : List (List String) → S → S
  unfolding on_keys
  on_batches [] s = s
  on_batches (keys ∷ batches) s = on_batches batches (on_keys keys s)

  -- `remove`: the argument of the scan is a text.
  unfoldable pub remove : String → S → S
  unfolding on_batches
  remove key_pattern s = on_batches (stream.scan_stream (str (join_text key_pattern ":*")) s) s
