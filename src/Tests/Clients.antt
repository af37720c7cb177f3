-- ===== src/Tests/Clients.antt =====
-- Examples of the clients of AWS and of what uses them.
use node_back_end_boilerplat.Prelude.{ℕ, String, none, ◌∷◌, List}
use node_back_end_boilerplat.Value.{Fields, str, field, end}
use node_back_end_boilerplat.Storage.Json.{Json}
use node_back_end_boilerplat.Effects.{Exec, ok, pure}
use node_back_end_boilerplat.Aws.{Send}
use node_back_end_boilerplat.Aws.Errors.{SqsFails, SnsFails, CognitoFails, S3Fails, aws_errors}

-- A service that answers each command with its name.
abbrev named : Send (List String)
named command input s = (ok (field "MessageId" (str command) end), command ∷ s)

abbrev json_of : Json
json_of = record { parse = λ t. none; stringify = λ v. "{}"; string_of = λ v. "" }

abbrev sign_of : String → Fields → ℕ → Exec (List String) String
sign_of command input seconds = pure "https://files"

aws_errors_example :
    SqsFails named json_of (λ v. "undefined")
    × SnsFails named json_of
    × CognitoFails named "client"
    × S3Fails named pure sign_of 60
aws_errors_example = aws_errors named json_of (λ v. "undefined") "client" pure sign_of 60
