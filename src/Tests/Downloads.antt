-- ===== src/Tests/Downloads.antt =====
-- A file that is uploaded and downloaded: src/modules/app/file/services on a bucket that holds one object.
use node_back_end_boilerplat.Prelude.{
  String, Bool, true, false, refl, ◌≡◌, some, none, eq_refl, if◌then◌else◌, ◌==◌,
}
use node_back_end_boilerplat.Value.{Value, Fields, str, num, field, end, get, undefined}
use node_back_end_boilerplat.Effects.{ok, err, pure, Exec, try_catch, ◌>>=◌}
use node_back_end_boilerplat.Exceptions.{native, plain_error}
use node_back_end_boilerplat.Aws.{Send, or_integration, required}
use node_back_end_boilerplat.Aws.S3
use node_back_end_boilerplat.Files.{
  FileServices, Uploaded, download_file, upload_file, download_type, upload_buffer, or_internal,
  get_file_name_with_extension, upload_name, upload_type,
}
use node_back_end_boilerplat.Files.RoundTrip.{Keeps, IsKept, download_file-upload_file}

abbrev same_key : Value → Value → Bool
same_key (str s) (str t) = s == t
same_key v w = false

-- The bucket is the input of the last command that put an object in.
abbrev answer_get : Fields → Exec Fields Fields
answer_get input kept =
    if same_key (get "Key" input) (get "Key" kept)
    then (ok (field "Body" (get "Body" kept) (field "ContentLength" (num 3) end)), kept)
    else (err (native (plain_error "NoSuchKey")), kept)

abbrev send : Send Fields
send command input kept =
    if command == "PutObjectCommand"
    then (ok (field "ETag" (str "tag") end), input)
    else answer_get input kept

abbrev services : FileServices Fields
services = record {
  send = send;
  upload_bucket = "bucket";
  body_to_buffer = λ v. pure v;
  to_buffer = λ v encoding. pure v;
  trim = λ t. t;
  changed = λ t. t;
}

abbrev content : Value
content = str "abc"

send-IsKept :
    (key : String) → IsKept services key content (S3.upload_params "bucket" key content undefined)
unfolding S3.upload_params S3.get_object_params
send-IsKept key = record {
  answer = field "Body" content (field "ContentLength" (num 3) end);
  answered = rw (eq_refl key);
  has_body = refl;
  has_length = refl;
  body_read = refl;
}

keeps : Keeps services content
keeps = record {
  kept = λ key result s h. send-IsKept key;
  is_buffer = λ encoding s. refl;
  is_there = refl;
}

abbrev uploaded : Uploaded
uploaded = record {
  file_path = "upload/reports/june.csv";
  file_content_type = "text/csv";
  upload_tag = str "tag";
}

was_uploaded :
    (upload_file services "report.csv" (some "text/csv") (pure content) true "june" none end).0
    ≡ ok uploaded
unfolding upload_file or_internal try_catch ◌>>=◌ upload_buffer S3.upload_file or_integration
    required upload_name get_file_name_with_extension upload_type
was_uploaded = refl

download_file-upload_file_example :
    (download_file services none
      (some "upload/reports/june.csv")
      (some "text/plain")
      (upload_file services "report.csv" (some "text/csv") (pure content) true "june" none end).1).0
    ≡ ok (record { file_name = "file"; content_type = "text/plain"; content = content })
unfolding download_type
download_file-upload_file_example =
    download_file-upload_file services "report.csv" "june" (some "text/csv") none none
      (some "text/plain") (pure content) content uploaded end keeps refl was_uploaded
