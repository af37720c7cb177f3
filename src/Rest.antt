-- ===== src/Rest.antt =====
-- src/modules/core/infra/integration/rest/AbstractRestClient.client.ts and
-- src/modules/core/infra/providers/RestMockedService.provider.ts. Axios, with its retries, is an argument.
use node_back_end_boilerplat.Prelude.{String}
use node_back_end_boilerplat.Value.{Value, undefined, Fields, end, field, get}
use node_back_end_boilerplat.Effects.{Exec, pure, raise, try_catch, ◌>>=◌}
use node_back_end_boilerplat.Exceptions.{http, external_error_parser}

-- `client.request` with its method, its url, its query and its body; it answers an object.
abbrev pub Request : Type 0 → Type 0
Request S = String → String → Value → Value → Exec S Fields

module _ {S : Type 0} (request : Request S) where
  -- `makeRequest`
  unfoldable pub make_request : String → String → Value → Value → Exec S Fields
  unfolding external_error_parser
  make_request method endpoint query body =
      try_catch
        (do
          answer ← request method endpoint query body
          pure (
              field "data" (get "data" answer) (
                field "status" (get "status" answer) (field "headers" (get "headers" answer) end))))
        (λ error. raise (http (external_error_parser error)))

  -- `get`, `post`, `put`, `patch` and `delete`
  unfoldable pub get_request : String → Value → Exec S Fields
  unfolding make_request
  get_request endpoint query = make_request "get" endpoint query undefined

  unfoldable pub post_request : String → Value → Value → Exec S Fields
  unfolding make_request
  post_request endpoint body query = make_request "post" endpoint query body

  unfoldable pub put_request : String → Value → Value → Exec S Fields
  unfolding make_request
  put_request endpoint body query = make_request "put" endpoint query body

  unfoldable pub patch_request : String → Value → Value → Exec S Fields
  unfolding make_request
  patch_request endpoint body query = make_request "patch" endpoint query body

  unfoldable pub delete_request : String → Value → Exec S Fields
  unfolding make_request
  delete_request endpoint query = make_request "delete" endpoint query undefined

  -- `healthcheck` and `requestHook` of the mocked service
  unfoldable pub healthcheck : Exec S Value
  unfolding get_request
  healthcheck = do
    answer ← get_request "mockedService/api/check" undefined
    pure (get "data" answer)

  unfoldable pub request_hook : String → String → Value → Value → Exec S Fields
  unfolding make_request
  request_hook method endpoint query body = make_request method endpoint query body
