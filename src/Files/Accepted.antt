-- ===== src/Files/Accepted.antt =====
-- The content types, the names and the errors of src/modules/app/file/services/File.service.ts.
use Prim.Native.Char.{Char}
use text.Mathlib.TextLemmas.{nil-append, cons-append}
use node_back_end_boilerplat.Files.{
  get_file, acceptable_type, upload_type, download_type, uploadable_types, downloadable_types,
  names_of, get_file_name_with_extension, name_of_parts, FileServices, download_file, or_internal,
}
use node_back_end_boilerplat.ContentType.{ContentType, content_type_name, octet_stream, plain}
use node_back_end_boilerplat.Prelude.{
  String, true, ◌≡◌, refl, ap, ◌∙◌, Option, some, or_else, includes, List, Bool-cases, inl, inr,
  join_text, [], ◌∷◌,
}
use node_back_end_boilerplat.Text.{split, Lacks}
use node_back_end_boilerplat.Text.Laws.{split-join_text, split_of_Lacks}
use node_back_end_boilerplat.Effects.{err, try_catch, throw_exception, ◌>>=◌}
use node_back_end_boilerplat.Exceptions.{Thrown, internal, plain_error, thrown_message}

abbrev dot : Char
dot = "."

acceptable_type_lem :
    (types : List ContentType) (asked : String) (fallback : ContentType)
    → includes (names_of types) (content_type_name fallback) ≡ true
    → includes (names_of types) (acceptable_type types asked fallback) ≡ true
unfolding acceptable_type
acceptable_type_lem types asked fallback h = elim (Bool-cases (includes (names_of types) asked)) [
  | inl p ↦ rw (p, p)
  | inr p ↦ rw (p, h)
]

-- Whatever a client asks for or sends, the content type that is answered is one of the acceptable
-- ones: the two of a download, and the sixteen of an upload.
pub acceptable_types :
    (mimetype accept_header : Option String)
    → (includes (names_of downloadable_types) (download_type accept_header) ≡ true)
      × (includes (names_of uploadable_types) (upload_type mimetype accept_header) ≡ true)
unfolding download_type upload_type names_of content_type_name
acceptable_types mimetype accept_header = (
  acceptable_type_lem downloadable_types (or_else accept_header "") octet_stream refl,
  acceptable_type_lem uploadable_types (or_else mimetype (or_else accept_header "")) plain refl,
)

dot-join_text : (s : String) → join_text "." s ≡ String.◌∷◌ dot s
dot-join_text s = cons-append dot String.[] s ∙ ap (String.◌∷◌ dot) (nil-append s)

two_parts :
    (base extension : String)
    → Lacks b'.' base
    → Lacks b'.' extension
    → split b'.' (join_text base (join_text "." extension)) ≡ base ∷ extension ∷ []
two_parts base extension p q = rw (
  dot-join_text extension,
  split-join_text b'.' base extension dot p refl,
  split_of_Lacks b'.' extension q,
)

-- A name and an extension without dots are read back from the name that they make together.
pub get_file_name_with_extension-join_text :
    (trim : String → String) (base extension : String)
    → trim (join_text base (join_text "." extension)) ≡ join_text base (join_text "." extension)
    → Lacks b'.' base
    → Lacks b'.' extension
    → get_file_name_with_extension trim (join_text base (join_text "." extension))
      ≡ (base, some extension)
unfolding get_file_name_with_extension name_of_parts
get_file_name_with_extension-join_text trim base extension h p q =
    ap (λ text. name_of_parts (join_text base (join_text "." extension)) (split b'.' text)) h
    ∙ ap (name_of_parts (join_text base (join_text "." extension))) (two_parts base extension p q)

-- Every error of a download becomes the internal exception, of status 500, that keeps only the message
-- of what `getFile` threw: also the contract exception of a missing path and the not-found exception
-- of a file that is not there.
pub download_file_throws :
    {S : Type 0} (services : FileServices S) (name path accept : Option String) (s : S) (c : Thrown)
    → (get_file services (or_else path "") s).0 ≡ err c
    → (download_file services name path accept s).0
      ≡ throw_exception internal (plain_error (thrown_message c))
unfolding download_file or_internal try_catch ◌>>=◌
download_file_throws services name path accept s c h = rw h
