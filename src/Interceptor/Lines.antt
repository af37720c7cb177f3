-- ===== src/Interceptor/Lines.antt =====
-- What the lines of src/modules/api/interceptors/Response.interceptor.ts tell.
use node_back_end_boilerplat.Prelude.{refl, String, List, ap, ◌≡◌, ap₂, ◌∷◌, is_truthy, true}
use node_back_end_boilerplat.Value.Masking.Alike.{
  Alike, same, objects, arrays, mask_object_sensitive_data-Alike,
}
use node_back_end_boilerplat.Interceptor.{
  Request, Surroundings, Payload, plain, logged_data, requested_line, responding_line,
  parse_request_data_to_string, parse_response_data_to_string, intercept, Value, Exec, List, String,
  get_request_path, is_truthy, first, split,
}
use node_back_end_boilerplat.Value.{Value}
use node_back_end_boilerplat.Value.Masking.{sensitive_data_fields}
use node_back_end_boilerplat.Effects.{Exec, ok}
use node_back_end_boilerplat.Prelude.{◌≡◌}
use node_back_end_boilerplat.Text.{first, split}

pub logged_data-Alike :
    {v w : Value} → Alike sensitive_data_fields v w → logged_data (plain v) ≡ logged_data (plain w)
unfolding logged_data
logged_data-Alike (same v) = refl
logged_data-Alike (objects {o} {p} h) = mask_object_sensitive_data-Alike refl refl (objects h)
logged_data-Alike (arrays {xs} {ys} h) = mask_object_sensitive_data-Alike refl refl (arrays h)

module _ (around : Surroundings) where
  request_text-Alike :
      {v w : Value}
      → Alike sensitive_data_fields v w
      → parse_request_data_to_string around (plain v)
        ≡ parse_request_data_to_string around (plain w)
  unfolding parse_request_data_to_string
  request_text-Alike h = ap around.json.stringify (logged_data-Alike h)

module _ (r : Request) where
  -- A request with other parameters, another query and another body, under another URL.
  abbrev pub with_data : String → String → Value → Value → Value → Request
  with_data original url params query body = record r {
    params = plain params;
    query = plain query;
    body = plain body;
    original_url = original;
    url = url;
  }

  -- URLs of one route, or URLs that agree before what follows the first `?`.
  pub data OnePath (original original' url url' : String) : Type 0 where
    by_route : is_truthy r.route_url ≡ true → OnePath original original' url url'
    by_path :
        first (split b'?' original) ≡ first (split b'?' original')
        → first (split b'?' url) ≡ first (split b'?' url')
        → OnePath original original' url url'

  get_request_path-OnePath :
      {original original' url url' : String} (params params' query query' body body' : Value)
      → OnePath original original' url url'
      → get_request_path (with_data original url params query body)
        ≡ get_request_path (with_data original' url' params' query' body')
  unfolding get_request_path
  get_request_path-OnePath params params' query query' body body' (by_route h) = rw h
  get_request_path-OnePath params params' query query' body body' (by_path p q) = rw (p, q)

module _ (around : Surroundings) (r : Request) where
  requested_line-Alike :
      {params params' query query' body body' : Value} {original original' url url' : String}
      → OnePath r original original' url url'
      → Alike sensitive_data_fields params params'
      → Alike sensitive_data_fields query query'
      → Alike sensitive_data_fields body body'
      → requested_line around (with_data r original url params query body)
        ≡ requested_line around (with_data r original' url' params' query' body')
  unfolding requested_line
  requested_line-Alike {params} {params'} {query} {query'} {body} {body'} one hp hq hb = rw (
    get_request_path-OnePath r params params' query query' body body' one,
    request_text-Alike around hp,
    request_text-Alike around hq,
    request_text-Alike around hb,
  )

  responding_line-Alike :
      {original original' url url' : String} {answer answer' : Value}
      (params params' query query' body body' : Value)
      → OnePath r original original' url url'
      → Alike sensitive_data_fields answer answer'
      → responding_line around (with_data r original url params query body) (ok (plain answer))
        ≡ responding_line around
            (with_data r original' url' params' query' body')
            (ok (plain answer'))
  unfolding responding_line parse_response_data_to_string
  responding_line-Alike params params' query query' body body' one h =
      rw
        (get_request_path-OnePath r params params' query query' body body' one, logged_data-Alike h)

-- Nothing that is logged of a request depends on what is sensitive: two requests that differ only in
-- what stands, at any depth of their parameters, their query and their body, at one of the five
-- sensitive names, and in their URLs, which are of one route or agree before the first `?`, and two
-- answers that differ only so, leave the same two lines; the outcome and the store are the handler's own.
pub intercept-Alike :
    {S : Type 0} (around : Surroundings) (r : Request) {original original' url url' : String}
    {params params' query query' body body' : Value} {answer answer' : Value}
    (handle handle' : Exec S Payload) (s : S) (lines : List String)
    → OnePath r original original' url url'
    → Alike sensitive_data_fields params params'
    → Alike sensitive_data_fields query query'
    → Alike sensitive_data_fields body body'
    → Alike sensitive_data_fields answer answer'
    → (handle s).0 ≡ ok (plain answer)
    → (handle' s).0 ≡ ok (plain answer')
    → let request = with_data r original url params query body in
      let request' = with_data r original' url' params' query' body' in
      ((intercept around request handle (s, lines)).1.1
        ≡ (intercept around request' handle' (s, lines)).1.1)
      × ((intercept around request handle (s, lines)).0 ≡ (handle s).0)
      × ((intercept around request handle (s, lines)).1.0 ≡ (handle s).1)
unfolding intercept
intercept-Alike around r {params} {params'} {query} {query'} {body} {body'} handle handle' s lines
      one hp hq hb ha h h' =
    (
      rw (h, h')
          (ap₂ (λ responding requested. responding ∷ requested ∷ lines)
            (responding_line-Alike around r params params' query query' body body' one ha)
            (requested_line-Alike around r one hp hq hb)),
      refl,
      refl,
    )
