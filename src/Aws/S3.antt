-- ===== src/Aws/S3.antt =====
-- src/modules/core/infra/integration/aws/S3.client.ts. The signer of URLs and the reader of bodies are
-- arguments.
use node_back_end_boilerplat.Prelude.{ℕ, String, Bool, if◌then◌else◌, List, [], ◌∷◌}
use node_back_end_boilerplat.Value.{
  Value, str, Fields, field, end, get, fields_of, truthy, is_null_or_undefined,
}
use node_back_end_boilerplat.Effects.{Exec, pure, fail, ◌>>=◌}
use node_back_end_boilerplat.Exceptions.{internal, plain_error}
use node_back_end_boilerplat.Aws.{Send, is_success, items_of, item_list, or_integration, required}

-- `uploadParams`
unfoldable pub upload_params : String → String → Value → Value → Fields
upload_params bucket_name file_name file_content expiration_date =
    field "Bucket" (str bucket_name) (
      field "Key" (str file_name) (field "Body" file_content (field "Expires" expiration_date end)))

-- `getObjectParams`
unfoldable pub get_object_params : String → String → Fields
get_object_params bucket_name object_key =
    field "Bucket" (str bucket_name) (field "Key" (str object_key) end)

-- The names that `listBuckets` keeps.
unfoldable pub bucket_names : List Value → List Value
bucket_names [] = []
bucket_names (bucket ∷ buckets) =
    let rest = bucket_names buckets in
    let name = get "Name" (fields_of bucket) in if truthy name then name ∷ rest else rest

-- A file that was downloaded.
pub record Download : Type 0 where
  pub content : Value
  pub content_length : Value

module _ {S : Type 0} (send : Send S) where
  -- `listBuckets`
  unfoldable pub list_buckets : Exec S (List Value)
  unfolding or_integration bucket_names
  list_buckets = or_integration (do
    result ← send "ListBucketsCommand" end
    pure (bucket_names (item_list (items_of (get "Buckets" result)))))

  -- `createBucket`
  unfoldable pub create_bucket : String → Exec S Value
  unfolding or_integration required
  create_bucket bucket_name = or_integration (do
    result ← send "CreateBucketCommand" (field "Bucket" (str bucket_name) end)
    required (get "Location" result) "Bucket not created")

  -- `deleteBucket`
  unfoldable pub delete_bucket : String → Exec S Bool
  unfolding or_integration is_success
  delete_bucket bucket_name = or_integration (do
    result ← send "DeleteBucketCommand" (field "Bucket" (str bucket_name) end)
    pure (is_success result))

  -- `putBucketNotification`
  unfoldable pub put_bucket_notification : String → Value → Exec S Bool
  unfolding or_integration is_success
  put_bucket_notification bucket_name configuration = or_integration (do
    result ←
        send "PutBucketNotificationConfigurationCommand"
          (field "Bucket" (str bucket_name) (field "NotificationConfiguration" configuration end))
    pure (is_success result))

  -- `uploadFile`
  unfoldable pub upload_file : String → String → Value → Value → Exec S Value
  unfolding or_integration required upload_params
  upload_file bucket_name file_name file_content expiration_date = or_integration (do
    result ←
        send "PutObjectCommand" (upload_params bucket_name file_name file_content expiration_date)
    required (get "ETag" result) "File not uploaded")

  -- `downloadFile`
  unfoldable pub download_file : (Value → Exec S Value) → String → String → Exec S Download
  unfolding or_integration required get_object_params
  download_file to_buffer bucket_name object_key = or_integration (do
    result ← send "GetObjectCommand" (get_object_params bucket_name object_key)
    body ← required (get "Body" result) "Empty body"
    length ← required (get "ContentLength" result) "Empty body"
    content ← to_buffer body
    pure (record { content = content; content_length = length }))

  -- `getFileSignedUrl`
  unfoldable pub get_file_signed_url :
      (String → Fields → ℕ → Exec S String) → ℕ → String → String → Exec S String
  unfolding or_integration get_object_params
  get_file_signed_url get_signed_url files_expiration bucket_name object_key = or_integration (
      get_signed_url "GetObjectCommand" (get_object_params bucket_name object_key) files_expiration)

  -- `deleteFile`
  unfoldable pub delete_file : String → String → Exec S Value
  unfolding or_integration get_object_params
  delete_file bucket_name object_key = or_integration (do
    result ← send "DeleteObjectCommand" (get_object_params bucket_name object_key)
    (if is_null_or_undefined (get "DeleteMarker" result)
        then fail internal (plain_error "File not deleted")
        else pure (get "DeleteMarker" result)))
