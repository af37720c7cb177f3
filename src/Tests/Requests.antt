-- ===== src/Tests/Requests.antt =====
-- Examples of what is read of a stream and of what is logged of a request.
use node_back_end_boilerplat.Storage.Json.{Json}
use node_back_end_boilerplat.Storage.Buffers.{Read, chunk, to_buffer, readable, readable_stream}
use node_back_end_boilerplat.Storage.Buffers.Streams.{contents, to_buffer-eq-contents}
use node_back_end_boilerplat.Interceptor.{Request, Surroundings, Payload, plain, intercept}
use node_back_end_boilerplat.Interceptor.Lines.{intercept-Alike, with_data, by_path}
use node_back_end_boilerplat.Logging.{Logger, LogLevel, value}
use node_back_end_boilerplat.Logging.Writing.{
  Call, write, set_request, run, IsMirrored, run-IsMirrored,
}
use node_back_end_boilerplat.Text.{split}
use node_back_end_boilerplat.Value.Masking.{sensitive_data_fields}
use node_back_end_boilerplat.Value.Masking.Alike.{Alike, same, objects, hidden, kept, ends}
use node_back_end_boilerplat.Value.{Value, str, obj, field, end, undefined}
use node_back_end_boilerplat.Effects.{Exec, ok, pure}
use node_back_end_boilerplat.Prelude.{ℕ, String, List, [], ◌∷◌, ◌≡◌, refl, some, none}

abbrev reads : List Read
reads = chunk (1 ∷ 2 ∷ []) ∷ chunk [] ∷ chunk (3 ∷ []) ∷ []

three_bytes : contents reads ≡ ok (1 ∷ 2 ∷ 3 ∷ [])
unfolding contents
three_bytes = refl

to_buffer-eq-contents_example :
    (to_buffer (λ t e. []) (readable reads) "utf8" ≡ contents reads)
    × (to_buffer (λ t e. []) (readable_stream reads) "utf8" ≡ contents reads)
to_buffer-eq-contents_example = to_buffer-eq-contents (λ t e. []) reads "utf8"

abbrev json : Json
json = record { parse = λ t. none; stringify = λ v. "{}"; string_of = λ v. "1" }

abbrev around : Surroundings
around = record {
  json = json;
  to_upper = λ t. t;
  parse_int = λ t. none;
  error_name = λ e. "Error";
  new_uuid = "r1";
  requested_at = 10;
  responded_at = 30;
}

abbrev login : Request
login = record {
  method = "POST";
  params = plain undefined;
  query = plain undefined;
  body = plain undefined;
  request_ids = [];
  timestamps = [];
  id = none;
  ip = some "::1";
  remote_address = none;
  user_client = undefined;
  original_url = "/user?x=1";
  url = "/user";
  route_url = none;
}

abbrev credentials : String → Value
credentials password =
    obj (field "email" (str "ana@mail.dev") (field "password" (str password) end))

credentials-Alike : (p q : String) → Alike sensitive_data_fields (credentials p) (credentials q)
credentials-Alike p q =
    objects (kept "email" (same _) (hidden "password" (str p) (str q) refl refl refl ends))

abbrev answer : Exec ℕ Payload
answer = pure (plain (obj (field "token" (str "t1") end)))

abbrev other_answer : Exec ℕ Payload
other_answer = pure (plain (obj (field "token" (str "t2") end)))

-- A key in the query of the URL and of the request.
abbrev with_token : String → Value
with_token token = obj (field "token" (str token) end)

intercept-Alike_example :
    let request =
      with_data login "/user?token=k1" "/user" undefined (with_token "k1") (credentials "one") in
    let request' =
      with_data login "/user?token=k2" "/user" undefined (with_token "k2") (credentials "two") in
    ((intercept around request answer (0, [])).1.1
      ≡ (intercept around request' other_answer (0, [])).1.1)
    × ((intercept around request answer (0, [])).0 ≡ (answer 0).0)
    × ((intercept around request answer (0, [])).1.0 ≡ (answer 0).1)
unfolding split
intercept-Alike_example =
    intercept-Alike around login answer other_answer 0 [] (by_path refl refl) (same undefined)
      (objects (hidden "token" (str "k1") (str "k2") refl refl refl ends))
      (credentials-Alike "one" "two")
      (objects (hidden "token" (str "t1") (str "t2") refl refl refl ends)) refl refl

abbrev fresh_logger : Logger
fresh_logger = record {
  context_name = none;
  request_id = none;
  message_id = none;
  socket_id = none;
  client_ip = none;
  logged = [];
  captured_logs = [];
  captured_messages = [];
}

abbrev calls : List Call
calls = set_request (some "r1") ∷ write LogLevel.warn none (value (str "late") ∷ []) ∷ []

run-IsMirrored_example : IsMirrored (run json calls fresh_logger)
run-IsMirrored_example =
    run-IsMirrored json calls fresh_logger (record { logs = refl; messages = refl })
