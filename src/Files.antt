-- ===== src/Files.antt =====
-- src/modules/app/file/services/File.service.ts, src/modules/app/file/strategies/File.strategy.ts and
-- src/modules/app/reports/services/Upload.service.ts, outside the test environment. Node's buffers and
-- their encodings, and `trim`, are arguments.
pub mod Accepted
pub mod RoundTrip
use Prim.Native.String
use Prim.Native.String.{String}
use node_back_end_boilerplat.Prelude.{
  Bool, true, false, if◌then◌else◌, Option, some, none, or_else, or_option, is_truthy, is_some,
  is_blank, List, [], ◌∷◌, map, any, includes, join_text, ◌||◌,
}
use node_back_end_boilerplat.Value.{Value, undefined, null, truthy}
use node_back_end_boilerplat.Text.{split, strip_prefix}
use node_back_end_boilerplat.ContentType.{
  ContentType, content_type_name, octet_stream, plain, csv, text_xml, pdf, json, zip, gif, jpeg,
  png, svg_xml, audio_mpeg, x_wav, video_mpeg, mp4, webm, form_data, binaries_extensions,
}
use node_back_end_boilerplat.Effects.{Exec, pure, fail, try_catch, ◌>>=◌, ◌>>◌}
use node_back_end_boilerplat.Exceptions.{internal, contract, not_found, plain_error, thrown_message}
use node_back_end_boilerplat.Aws.{Send}
use node_back_end_boilerplat.Aws.S3
use node_back_end_boilerplat.Aws.S3.{Download}

-- `text.includes(part)`
unfoldable pub includes_text : String → String → Bool
includes_text part String.[] = is_some (strip_prefix part "")
includes_text part (String.◌∷◌ c s) =
    is_some (strip_prefix part (String.◌∷◌ c s)) || includes_text part s

-- What `defineEncoding` answers.
pub data Encoding : Type 0 where
  utf8 binary : Encoding

abbrev pub names_of : List ContentType → List String
unfolding content_type_name
names_of types = map content_type_name types

abbrev pub text_contents : List ContentType
text_contents = plain ∷ csv ∷ text_xml ∷ json ∷ []

abbrev pub binaries_contents : List ContentType
binaries_contents =
    pdf ∷ zip ∷ gif ∷ jpeg ∷ png ∷ svg_xml ∷ audio_mpeg ∷ x_wav ∷ video_mpeg ∷ mp4 ∷ webm ∷ []

-- The encoding by the name alone.
unfoldable pub encoding_by_name : String → Encoding
unfolding includes_text
encoding_by_name file_name =
    if any (λ extension. includes_text extension file_name) binaries_extensions
    then binary
    else utf8

-- `defineEncoding`
unfoldable pub define_encoding : String → Option String → Encoding
unfolding names_of encoding_by_name
define_encoding file_name content_type =
    if is_truthy content_type
    then if includes (names_of text_contents) (or_else content_type "")
      then utf8
      else if includes (names_of binaries_contents) (or_else content_type "")
      then binary
      else encoding_by_name file_name
    else encoding_by_name file_name

-- The content types that are answered and those that are taken.
abbrev pub downloadable_types : List ContentType
downloadable_types = octet_stream ∷ plain ∷ []

abbrev pub uploadable_types : List ContentType
uploadable_types =
    plain ∷ csv ∷ text_xml ∷ pdf ∷ json ∷ zip ∷ gif ∷ jpeg ∷ png ∷ svg_xml ∷ audio_mpeg ∷ x_wav
    ∷ video_mpeg ∷ mp4 ∷ webm ∷ form_data ∷ []

-- A type that is asked for if it is acceptable, or else another.
unfoldable pub acceptable_type : List ContentType → String → ContentType → String
unfolding names_of content_type_name
acceptable_type types asked fallback =
    if includes (names_of types) asked then asked else content_type_name fallback

unfoldable pub download_type : Option String → String
unfolding acceptable_type
download_type accept_header =
    acceptable_type downloadable_types (or_else accept_header "") octet_stream

unfoldable pub upload_type : Option String → Option String → String
unfolding acceptable_type
upload_type mimetype accept_header =
    acceptable_type uploadable_types (or_else mimetype (or_else accept_header "")) plain

-- `parts.slice(0, -1).join('-')`, of a first part and the others.
abbrev pub join_but_last : String → List String → String
join_but_last part [] = ""
join_but_last part (last ∷ []) = part
join_but_last part (next ∷ rest ∷ parts) =
    join_text part (join_text "-" (join_but_last next (rest ∷ parts)))

-- The last of a first part and the others.
abbrev pub last_part : String → List String → String
last_part part [] = part
last_part part (next ∷ parts) = last_part next parts

-- The name and the extension, from the parts of a name.
unfoldable pub name_of_parts : String → List String → String × Option String
name_of_parts full_file_name [] = (full_file_name, none)
name_of_parts full_file_name (part ∷ []) = (full_file_name, none)
name_of_parts full_file_name (part ∷ next ∷ parts) =
    (join_but_last part (next ∷ parts), some (last_part next parts))

-- `getFileNameWithExtension`
unfoldable pub get_file_name_with_extension : (String → String) → String → String × Option String
unfolding split name_of_parts
get_file_name_with_extension trim full_file_name =
    name_of_parts full_file_name (split b'.' (trim full_file_name))

-- An extension in a template.
abbrev pub extension_text : Option String → String
extension_text extension = or_else extension "undefined"

-- `fileName` and `fileExtension` of `uploadFile`, put together.
unfoldable pub upload_name : (String → String) → String → String → String
unfolding get_file_name_with_extension
upload_name trim file_name_header file_name =
    let (header_name, header_extension) = get_file_name_with_extension trim file_name_header in
    let (original_name, original_extension) = get_file_name_with_extension trim file_name in
    join_text header_name
      (join_text "." (extension_text (or_option original_extension header_extension)))

-- What is answered of a download and of an upload.
pub record Downloaded : Type 0 where
  pub file_name : String
  pub content_type : String
  pub content : Value

pub record Uploaded : Type 0 where
  pub file_path : String
  pub file_content_type : String
  pub upload_tag : Value

-- What the services are built with. `to_buffer` is the parser's; `changed` is `changeBufferEncoding`
-- from UTF-8 to ASCII.
pub record FileServices (S : Type 0) : Type 0 where
  pub send : Send S
  pub upload_bucket : String
  pub body_to_buffer : Value → Exec S Value
  pub to_buffer : Value → Encoding → Exec S Value
  pub trim : String → String
  pub changed : String → String

module _ {S : Type 0} (services : FileServices S) where
  -- `getFile`
  unfoldable pub get_file : String → Exec S Value
  unfolding define_encoding S3.download_file
  get_file file_path =
      if is_blank file_path then fail contract (plain_error "Invalid filePath") else (do
        file ←
            S3.download_file services.send services.body_to_buffer services.upload_bucket file_path
        (if truthy file.content
            then services.to_buffer file.content (define_encoding file_path none)
            else fail not_found (plain_error "File not founded!")))

  -- `uploadFile` of the upload service, on the file's buffer and whether it has a length.
  unfoldable pub upload_buffer : String → Value → Bool → Exec S (String × Value)
  unfolding S3.upload_file
  upload_buffer file_name file_buffer is_valid_file =
      let file_path = join_text "upload/reports/" file_name in
      if is_valid_file
      then (do
        upload_tag ←
            S3.upload_file services.send services.upload_bucket file_path file_buffer undefined
        pure (file_path, upload_tag))
      else pure (file_path, null)

  -- `throw this.exceptions.internal({ message: error.message })`
  unfoldable pub or_internal : {A : Type 0} → Exec S A → Exec S A
  or_internal m = try_catch m (λ e. fail internal (plain_error (thrown_message e)))

  -- `downloadFile`
  unfoldable pub download_file : Option String → Option String → Option String → Exec S Downloaded
  unfolding or_internal get_file download_type
  download_file file_name_header file_path_header accept_header = or_internal (do
    content ← get_file (or_else file_path_header "")
    pure (record {
      file_name = or_else file_name_header "file";
      content_type = download_type accept_header;
      content = content;
    }))

  -- `uploadFile` of the file service
  unfoldable pub upload_file :
      String → Option String → Exec S Value → Bool → String → Option String → Exec S Uploaded
  unfolding or_internal upload_buffer upload_type upload_name
  upload_file file_name mimetype to_buffer is_valid_file file_name_header accept_header =
      or_internal (do
        file_buffer ← to_buffer
        uploaded ←
            upload_buffer (services.changed (upload_name services.trim file_name_header file_name))
              file_buffer is_valid_file
        pure (record {
          file_path = uploaded.0;
          file_content_type = upload_type mimetype accept_header;
          upload_tag = uploaded.1;
        }))
