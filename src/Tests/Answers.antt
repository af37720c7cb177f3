-- ===== src/Tests/Answers.antt =====
-- Examples of what clients are answered: files and failed requests.
use node_back_end_boilerplat.Prelude.{ℕ, true, false, ◌≡◌, some}
use node_back_end_boilerplat.Value.{end}
use node_back_end_boilerplat.Effects.{pure}
use node_back_end_boilerplat.Exceptions.{
  contract, plain_error, http, axios, native, exception, exception_name,
}
use node_back_end_boilerplat.Exceptions.Laws.{status_of}
use node_back_end_boilerplat.Filters.{catch_http}
use node_back_end_boilerplat.Filters.Answers.{catch_http_answers}
use node_back_end_boilerplat.Files.{FileServices}

abbrev services_of : FileServices ℕ
services_of = record {
  send = λ command input. pure end;
  upload_bucket = "bucket";
  body_to_buffer = λ v. pure v;
  to_buffer = λ v encoding. pure v;
  trim = λ t. t;
  changed = λ t. t;
}

catch_http_answers_example :
    ((catch_http (http (exception contract (plain_error "x") false)) "t").status ≡ 400)
    × ((catch_http (http (exception contract (plain_error "x") false)) "t").response.error
        ≡ some "contract")
    × ((catch_http (http (exception contract (plain_error "x") false)) "t").response.message ≡ "x")
    × ((catch_http (http (exception contract (plain_error "x") false)) "t").reported ≡ false)
    × ((catch_http (axios (some 404) (plain_error "x")) "t").status ≡ 404)
    × ((catch_http (native (plain_error "x")) "t").status ≡ 500)
    × ((catch_http (native (plain_error "x")) "t").reported ≡ true)
unfolding status_of exception_name
catch_http_answers_example = catch_http_answers contract (some 404) (plain_error "x") "t"
