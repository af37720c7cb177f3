-- ===== src/Files/RoundTrip.antt =====
-- From `uploadFile` to `downloadFile` of src/modules/app/file/services/File.service.ts, through the service of
-- src/modules/app/reports/services/Upload.service.ts and the client of S3.
use node_back_end_boilerplat.Prelude.{
  String, true, false, Option, none, some, or_else, join_text, ◌≡◌, refl, ap, sym, ◌∙◌, is_blank,
  Bool-cases, inl, inr, arith,
}
use node_back_end_boilerplat.Value.{Value, Fields, truthy, get, undefined}
use node_back_end_boilerplat.Effects.{Result, ok, pure, Exec, ◌>>=◌}
use node_back_end_boilerplat.Effects.Runs.{bind_run, bind_goes_on, try_catch_run, try_catch_of_ok}
use node_back_end_boilerplat.Text.Laws.{is_blank-join_text}
use node_back_end_boilerplat.Aws.S3
use node_back_end_boilerplat.Aws.S3.{upload_params, get_object_params}
use node_back_end_boilerplat.Aws.{or_integration, required}
use node_back_end_boilerplat.Files.{
  FileServices, Uploaded, get_file, define_encoding, upload_buffer, or_internal, download_file,
  upload_file, download_type, upload_name, upload_type, Encoding,
}

-- What a bucket answers of an object that was put in under a key: its body, which is read as what was put in.
pub record IsKept {S : Type 0} (services : FileServices S) (key : String) (content : Value) (s : S)
    : Type 0 where
  pub answer : Fields
  pub answered :
      services.send "GetObjectCommand" (get_object_params services.upload_bucket key) s
      ≡ (ok answer, s)
  pub has_body : truthy (get "Body" answer) ≡ true
  pub has_length : truthy (get "ContentLength" answer) ≡ true
  pub body_read : services.body_to_buffer (get "Body" answer) s ≡ (ok content, s)

-- A bucket keeps what is put in; and the parser answers a buffer as it is.
pub record Keeps {S : Type 0} (services : FileServices S) (content : Value) : Type 0 where
  pub kept :
      (key : String) (result : Fields) (s : S)
      → (services.send "PutObjectCommand"
          (upload_params services.upload_bucket key content undefined)
          s).0
        ≡ ok result
      → IsKept services key content
          (services.send "PutObjectCommand"
            (upload_params services.upload_bucket key content undefined)
            s).1
  pub is_buffer :
      (encoding : Encoding) (s : S) → services.to_buffer content encoding s ≡ (ok content, s)
  pub is_there : truthy content ≡ true

-- The path of an upload.
abbrev path_of : String → String
path_of name = join_text "upload/reports/" name

path_given : (name : String) → is_blank (path_of name) ≡ false
path_given name = is_blank-join_text "upload/reports/" name refl

required_run :
    {S : Type 0} (value : Value) (message : String) (s : S)
    → truthy value ≡ true
    → required value message s ≡ (ok value, s)
unfolding required
required_run value message s h = rw h

required_left :
    {S : Type 0} (value : Value) (message : String) (s : S) → (required value message s).1 ≡ s
unfolding required
required_left value message s = elim (Bool-cases (truthy value)) [ inl h ↦ rw h | inr h ↦ rw h ]

path_answered :
    (path : String) (tag : Value) (uploaded : String × Value)
    → ◌≡◌ {A = Result (String × Value)} (ok (path, tag)) (ok uploaded)
    → uploaded.0 ≡ path
path_answered path tag uploaded h = ground arith

-- What `uploadFile` answers.
abbrev uploaded_as : String → String × Value → Uploaded
uploaded_as type uploaded = record {
  file_path = uploaded.0;
  file_content_type = type;
  upload_tag = uploaded.1;
}

file_path_answered :
    (type : String) (uploaded : String × Value) (answer : Uploaded)
    → ok (uploaded_as type uploaded) ≡ ok answer
    → answer.file_path ≡ uploaded.0
file_path_answered type uploaded answer h = ground arith

module _ {S : Type 0} (services : FileServices S) where
  object_read :
      (key : String) (content : Value) (s : S)
      → (k : IsKept services key content s)
      → S3.download_file services.send services.body_to_buffer services.upload_bucket key s
        ≡ (ok (record { content = content; content_length = get "ContentLength" k.answer }), s)
  unfolding S3.download_file or_integration
  object_read key content s k = try_catch_of_ok _ _ s s _ (
      bind_goes_on _ _ s s k.answer k.answered
      ∙ bind_goes_on _ _ s s _ (required_run _ "Empty body" s k.has_body)
      ∙ bind_goes_on _ _ s s _ (required_run _ "Empty body" s k.has_length)
      ∙ bind_goes_on _ _ s s content k.body_read)

  file_read :
      (key : String) (content : Value) (s : S)
      → is_blank key ≡ false
      → Keeps services content
      → IsKept services key content s
      → get_file services key s ≡ (ok content, s)
  unfolding get_file
  file_read key content s named keeps k = rw named (
      bind_goes_on _ _ s s _ (object_read key content s k)
      ∙ rw (keeps.is_there, keeps.is_buffer (define_encoding key none) s))

  put_run :
      (key : String) (content tag : Value) (s : S)
      → (S3.upload_file services.send services.upload_bucket key content undefined s).0 ≡ ok tag
      → (result : Fields) × ((services.send "PutObjectCommand"
            (upload_params services.upload_bucket key content undefined)
            s).0
          ≡ ok result)
        × ((S3.upload_file services.send services.upload_bucket key content undefined s).1
            ≡ (services.send "PutObjectCommand"
                (upload_params services.upload_bucket key content undefined)
                s).1)
  unfolding S3.upload_file or_integration
  put_run key content tag s h =
      let (run, same) = try_catch_run _ _ s tag (λ e t. (_, refl)) h in
      let (result, sent, same1, _) = bind_run _ _ s tag run in
      (
        result,
        sent,
        ap (λ r. r.1) same
            ∙ ap (λ r. r.1) same1
            ∙ required_left (get "ETag" result) "File not uploaded" _,
      )

  buffer_run :
      (name : String) (content : Value) (uploaded : String × Value) (s : S)
      → (upload_buffer services name content true s).0 ≡ ok uploaded
      → (result : Fields) × ((services.send "PutObjectCommand"
            (upload_params services.upload_bucket (path_of name) content undefined)
            s).0
          ≡ ok result)
        × (uploaded.0 ≡ path_of name)
        × ((upload_buffer services name content true s).1
            ≡ (services.send "PutObjectCommand"
                (upload_params services.upload_bucket (path_of name) content undefined)
                s).1)
  unfolding upload_buffer
  buffer_run name content uploaded s h =
      let (tag, put, same, end) = bind_run _ _ s uploaded h in
      let (result, sent, left) = put_run (path_of name) content tag s put in
      (result, sent, path_answered _ tag uploaded end, ap (λ r. r.1) same ∙ left)

  stored_run :
      (name type : String) (content : Value) (answer : Uploaded) (s : S)
      → ((upload_buffer services name content true >>= λ uploaded. pure (uploaded_as type uploaded))
          s).0
        ≡ ok answer
      → (result : Fields) × ((services.send "PutObjectCommand"
            (upload_params services.upload_bucket (path_of name) content undefined)
            s).0
          ≡ ok result)
        × (answer.file_path ≡ path_of name)
        × (((upload_buffer services name content true >>= λ uploaded.
                pure (uploaded_as type uploaded))
              s).1
            ≡ (services.send "PutObjectCommand"
                (upload_params services.upload_bucket (path_of name) content undefined)
                s).1)
  stored_run name type content answer s h =
      let (uploaded, put, same, end) = bind_run _ _ s answer h in
      let (result, sent, path, left) = buffer_run name content uploaded s put in
      (result, sent, file_path_answered type uploaded answer end ∙ path, ap (λ r. r.1) same ∙ left)

  read_back :
      (asked accept : Option String) (key : String) (content : Value) (s : S)
      → is_blank key ≡ false
      → Keeps services content
      → IsKept services key content s
      → (download_file services asked (some key) accept s).0
        ≡ ok (record {
          file_name = or_else asked "file";
          content_type = download_type accept;
          content = content;
        })
  unfolding download_file or_internal
  read_back asked accept key content s named keeps k =
      ap (λ o. o.0)
        (try_catch_of_ok _ _ s s _
          (bind_goes_on _ _ s s content (file_read key content s named keeps k)))

  -- What was uploaded is downloaded: a file with a length whose upload returned a path is, on what the upload
  -- left, downloaded from that path with its content, under the name that is asked; if the bucket keeps what is
  -- put in and the parser answers a buffer as it is.
  pub download_file-upload_file :
      (file_name header : String) (mimetype accept asked accept1 : Option String)
      (read : Exec S Value) (content : Value) (uploaded : Uploaded) (s : S)
      → Keeps services content
      → (read s).0 ≡ ok content
      → (upload_file services file_name mimetype read true header accept s).0 ≡ ok uploaded
      → (download_file services asked
          (some uploaded.file_path)
          accept1
          (upload_file services file_name mimetype read true header accept s).1).0
        ≡ ok (record {
          file_name = or_else asked "file";
          content_type = download_type accept1;
          content = content;
        })
  unfolding upload_file or_internal
  download_file-upload_file file_name header mimetype accept asked accept1 read content uploaded s
        keeps given h =
      let name = services.changed (upload_name services.trim header file_name) in
      let (run, same) = try_catch_run _ _ s uploaded (λ e t. (_, refl)) h in
      let onward =
        bind_goes_on read
          (λ buffer. upload_buffer services name buffer true >>= λ stored.
            pure (uploaded_as (upload_type mimetype accept) stored))
          s (read s).1 content (ap (λ r. (r, (read s).1)) given) in
      let (result, sent, path, left) =
        stored_run name (upload_type mimetype accept) content uploaded (read s).1
          (sym (ap (λ o. o.0) onward) ∙ run) in
      ap
        (λ p.
          (download_file services asked (some p) accept1
            (upload_file services file_name mimetype read true header accept s).1).0)
        path
      ∙ ap (λ t. (download_file services asked (some (path_of name)) accept1 t).0)
          (ap (λ r. r.1) same ∙ ap (λ r. r.1) onward ∙ left)
      ∙ read_back asked accept1 (path_of name) content _ (path_given name) keeps
          (keeps.kept (path_of name) result (read s).1 sent)
