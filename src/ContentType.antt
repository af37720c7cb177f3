-- ===== src/ContentType.antt =====
-- src/modules/common/constants/ContentType.constants.ts
use node_back_end_boilerplat.Prelude.{String, List, [], ◌∷◌}

-- The content types, by the group and the name that the source gives them.
pub data ContentType : Type 0 where
  octet_stream pdf ogg zip x_shockwave_flash java_archive application_javascript json : ContentType
  application_xml xhtml_xml www_form_urlencoded : ContentType
  audio_mpeg x_wav x_ms_wma : ContentType
  png jpeg gif svg_xml x_icon vnd_microsoft_icon : ContentType
  text_xml html css text_javascript csv plain : ContentType
  video_mpeg mp4 webm x_ms_wmv x_flv : ContentType
  mixed alternative related form_data : ContentType

unfoldable pub content_type_name : ContentType → String
content_type_name octet_stream = "application/octet-stream"
content_type_name pdf = "application/pdf"
content_type_name ogg = "application/ogg"
content_type_name zip = "application/zip"
content_type_name x_shockwave_flash = "application/x-shockwave-flash"
content_type_name java_archive = "application/java-archive"
content_type_name application_javascript = "application/javascript"
content_type_name json = "application/json"
content_type_name application_xml = "application/xml"
content_type_name xhtml_xml = "application/xhtml+xml"
content_type_name www_form_urlencoded = "application/x-www-form-urlencoded"
content_type_name audio_mpeg = "audio/mpeg"
content_type_name x_wav = "audio/x-wav"
content_type_name x_ms_wma = "audio/x-ms-wma"
content_type_name png = "image/png"
content_type_name jpeg = "image/jpeg"
content_type_name gif = "image/gif"
content_type_name svg_xml = "image/svg+xml"
content_type_name x_icon = "image/x-icon"
content_type_name vnd_microsoft_icon = "image/vnd.microsoft.icon"
content_type_name text_xml = "text/xml"
content_type_name html = "text/html"
content_type_name css = "text/css"
content_type_name text_javascript = "text/javascript"
content_type_name csv = "text/csv"
content_type_name plain = "text/plain"
content_type_name video_mpeg = "video/mpeg"
content_type_name mp4 = "video/mp4"
content_type_name webm = "video/webm"
content_type_name x_ms_wmv = "video/x-ms-wmv"
content_type_name x_flv = "video/x-flv"
content_type_name mixed = "multipart/mixed"
content_type_name alternative = "multipart/alternative"
content_type_name related = "multipart/related"
content_type_name form_data = "multipart/form-data"

-- `binariesExtensions`
abbrev pub binaries_extensions : List String
binaries_extensions =
    "gif" ∷ "jpeg" ∷ "jpg" ∷ "png" ∷ "svg" ∷ "mp3" ∷ "mp4" ∷ "wav" ∷ "mov" ∷ "wmv" ∷ []
