-- ===== src/Table/Preview.antt =====
-- The kind of preview of a file, the limits on its size, and the dialog of its details.
pub mod Limits
use light_oss.Base.{
  ℕ, ◌*◌, ◌≤◌, ◌≡◌, refl, Bool, true, false, not, ◌&&◌, ◌||◌, Option, none, some, List, [], ◌∷◌,
  ◌++◌, ltb, if◌then◌else◌, is_empty, arith, Bool-cases, inl, inr,
}
use light_oss.Base.Text.{Text, codes, text_eq, trim, starts_with}
use light_oss.Base.Search.{lower_text, ends_with, contains}
use light_oss.Base.Split.{split}
use light_oss.Api.Types.{ObjectVisibility, public, private, ExplorerFileEntry}

-- `null` is `none` of an Option.
pub data PreviewType : Type 0 where
  image video audio pdf markdown text : PreviewType

abbrev pub max_markdown_preview_bytes : ℕ
max_markdown_preview_bytes = 100 * 1024

abbrev pub max_text_preview_bytes : ℕ
max_text_preview_bytes = 100 * 1024

abbrev pub open_xml_office_extensions : List Text
open_xml_office_extensions =
    codes ".docx"
    ∷ codes ".dotx"
    ∷ codes ".docm"
    ∷ codes ".dotm"
    ∷ codes ".xlsx"
    ∷ codes ".xltx"
    ∷ codes ".xlsm"
    ∷ codes ".xltm"
    ∷ codes ".pptx"
    ∷ codes ".potx"
    ∷ codes ".ppsx"
    ∷ codes ".pptm"
    ∷ codes ".potm"
    ∷ codes ".ppsm"
    ∷ codes ".ppam"
    ∷ []

abbrev some_ends : Text → List Text → Bool
some_ends name [] = false
some_ends name (extension ∷ extensions) =
    let rest = some_ends name extensions in if ends_with name extension then true else rest

abbrev pub is_open_xml_office_extension : Text → Bool
is_open_xml_office_extension name = some_ends name open_xml_office_extensions

abbrev first_part : List Text → Text
first_part [] = []
first_part (w ∷ ws) = w

abbrev pub mime_type_of : ExplorerFileEntry → Text
mime_type_of entry = trim (first_part (split b';' (lower_text entry.content_type)))

-- The chain of tests on the type and the name.
abbrev pub preview_of : Text → Text → Option PreviewType
preview_of mime_type name =
    if starts_with mime_type (codes "image/")
    then some image
    else if starts_with mime_type (codes "video/")
    then some video
    else if starts_with mime_type (codes "audio/")
    then some audio
    else if text_eq mime_type (codes "application/pdf") || ends_with name (codes ".pdf")
    then some pdf
    else if contains mime_type (codes "markdown")
        || ends_with name (codes ".md")
        || ends_with name (codes ".markdown")
    then some markdown
    else if starts_with mime_type (codes "application/vnd.openxmlformats-officedocument.")
        || is_open_xml_office_extension name
    then none
    else if starts_with mime_type (codes "text/")
        || contains mime_type (codes "json")
        || text_eq mime_type (codes "application/xml")
        || ends_with mime_type (codes "+xml")
        || contains mime_type (codes "javascript")
        || contains mime_type (codes "sql")
        || ends_with name (codes ".log")
    then some text
    else none

unfoldable pub get_preview_type : ExplorerFileEntry → Option PreviewType
get_preview_type entry = preview_of (mime_type_of entry) (lower_text entry.original_filename)

abbrev pub is_markdown : Option PreviewType → Bool
is_markdown (some markdown) = true
is_markdown _ = false

abbrev pub is_text : Option PreviewType → Bool
is_text (some text) = true
is_text _ = false

unfoldable pub markdown_preview_too_large : ExplorerFileEntry → Bool
unfolding get_preview_type
markdown_preview_too_large entry =
    is_markdown (get_preview_type entry) && ltb max_markdown_preview_bytes entry.size

unfoldable pub text_preview_too_large : ExplorerFileEntry → Bool
unfolding get_preview_type
text_preview_too_large entry =
    is_text (get_preview_type entry) && ltb max_text_preview_bytes entry.size

pub data DetailsToast : Type 0 where
  visibility_updated : DetailsToast
  failure : Text → DetailsToast

-- The dialog, with the entry that it shows.
pub record Details : Type 0 where
  pub entry : Option ExplorerFileEntry
  pub selected_visibility : ObjectVisibility
  pub current_visibility : ObjectVisibility
  pub is_saving_visibility : Bool
  pub updates : List (Text × ObjectVisibility)
  pub toasts : List DetailsToast

abbrev pub same_visibility : ObjectVisibility → ObjectVisibility → Bool
same_visibility public public = true
same_visibility private private = true
same_visibility _ _ = false

-- The dialog after a render with another entry.
unfoldable pub show_entry : Option ExplorerFileEntry → Details → Details
show_entry none d = record d { entry = none }
show_entry (some entry) d = record d {
  entry = some entry;
  selected_visibility = entry.visibility;
  current_visibility = entry.visibility;
}

abbrev asked : Option ExplorerFileEntry → Details → Details
asked none d = d
asked (some entry) d =
    if same_visibility d.selected_visibility d.current_visibility || d.is_saving_visibility
    then d
    else record d {
      is_saving_visibility = true;
      updates = d.updates ++ (entry.object_key, d.selected_visibility) ∷ [];
    }

-- `handleSaveVisibility` up to the answer, with what was selected when it was called.
unfoldable pub handle_save_visibility : Details → Details
handle_save_visibility d = asked d.entry d

unfoldable pub save_succeeded : ObjectVisibility → Details → Details
save_succeeded visibility d = record d {
  current_visibility = visibility;
  toasts = d.toasts ++ visibility_updated ∷ [];
  is_saving_visibility = false;
}

unfoldable pub save_failed : Text → Details → Details
save_failed message d = record d {
  toasts = d.toasts ++ failure message ∷ [];
  is_saving_visibility = false;
}

-- The public address of the entry, where it is public.
abbrev pub public_url_for : ObjectVisibility → (Text → Text) → Text → Text
public_url_for public build_public_url object_key = build_public_url object_key
public_url_for private build_public_url object_key = []

abbrev pub PreviewDisplayMode : Type 0
PreviewDisplayMode = Bool

abbrev pub fullscreen : PreviewDisplayMode
fullscreen = true

-- `buildPdfPreviewUrl`
unfoldable pub build_pdf_preview_url : Text → PreviewDisplayMode → Text
build_pdf_preview_url public_url display_mode =
    public_url
    ++ (if contains public_url (codes "#") then codes "&" else codes "#")
    ++ (if display_mode
        then codes "toolbar=0&navpanes=0&pagemode=none&zoom=page-width"
        else codes "toolbar=0&navpanes=0&pagemode=none&view=Fit&zoom=page-fit")

-- What `FilePreview` mounts: nothing, an element that loads the address, or a text preview with
-- the address, whether it is Markdown, and whether it is too large.
pub data Mounted : Type 0 where
  not_available : Mounted
  element : PreviewType → Text → Mounted
  remote_text : (is_markdown : Bool) → Text → (too_large : Bool) → Mounted

abbrev pub mount : PreviewType → Text → PreviewDisplayMode → Bool → Bool → Mounted
mount markdown url mode markdown_large text_large = remote_text true url markdown_large
mount text url mode markdown_large text_large = remote_text false url text_large
mount pdf url mode markdown_large text_large = element pdf (build_pdf_preview_url url mode)
mount image url mode markdown_large text_large = element image url
mount video url mode markdown_large text_large = element video url
mount audio url mode markdown_large text_large = element audio url

abbrev pub mount_any : Option PreviewType → Text → PreviewDisplayMode → Bool → Bool → Mounted
mount_any none url mode markdown_large text_large = not_available
mount_any (some type) url mode markdown_large text_large =
    if is_empty url then not_available else mount type url mode markdown_large text_large

abbrev pub preview_entry :
    Option ExplorerFileEntry → (Text → Text) → Details → PreviewDisplayMode → Mounted
preview_entry none build_public_url d mode = not_available
preview_entry (some entry) build_public_url d mode =
    mount_any (get_preview_type entry)
      (public_url_for d.current_visibility build_public_url entry.object_key) mode
      (markdown_preview_too_large entry) (text_preview_too_large entry)

-- The preview of the dialog.
unfoldable pub file_preview :
    (build_public_url : Text → Text) → Details → PreviewDisplayMode → Mounted
file_preview build_public_url d mode = preview_entry d.entry build_public_url d mode
