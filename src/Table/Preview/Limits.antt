-- ===== src/Table/Preview/Limits.antt =====
-- Which texts are fetched for a preview.
use light_oss.Base.{
  ℕ, ◌*◌, ◌≤◌, ◌≡◌, refl, sym, ap, ◌∙◌, Bool, true, false, Option, none, some, ltb, is_empty, arith,
  Option-cases, inl, inr, ◌&&◌, ◌||◌, [], ◌∷◌,
}
use light_oss.Base.Text.{Text}
use light_oss.Api.Types.{ObjectVisibility, public, private, ExplorerFileEntry}
use light_oss.Table.Preview.{
  PreviewType, image, video, audio, pdf, markdown, text, get_preview_type, is_markdown, is_text,
  markdown_preview_too_large, text_preview_too_large, Details, public_url_for, remote_text, mount,
  mount_any, preview_entry, PreviewDisplayMode, file_preview,
}

mount_inv :
    (type : PreviewType) (url : Text) (mode : PreviewDisplayMode) (large large' md : Bool)
    (shown : Text)
    → mount type url mode large large' ≡ remote_text md shown false
    → (url ≡ shown)
      × ((is_markdown (some type) && large) ≡ false)
      × ((is_text (some type) && large') ≡ false)
      × ((is_markdown (some type) || is_text (some type)) ≡ true)
mount_inv image url mode large large' md shown e = cc
mount_inv video url mode large large' md shown e = cc
mount_inv audio url mode large large' md shown e = cc
mount_inv pdf url mode large large' md shown e = cc
mount_inv markdown url mode large large' md shown e = (cc, cc, refl, refl)
mount_inv text url mode large large' md shown e = (cc, refl, cc, refl)

mount_any_inv :
    (type : Option PreviewType) (url : Text) (mode : PreviewDisplayMode) (large large' md : Bool)
    (shown : Text)
    → mount_any type url mode large large' ≡ remote_text md shown false
    → (url ≡ shown)
      × (is_empty url ≡ false)
      × ((is_markdown type && large) ≡ false)
      × ((is_text type && large') ≡ false)
      × ((is_markdown type || is_text type) ≡ true)
mount_any_inv none url mode large large' md shown e = cc
mount_any_inv (some type) [] mode large large' md shown e = cc
mount_any_inv (some type) (c ∷ url) mode large large' md shown e =
    let (a, b, c, d) = mount_inv type (c ∷ url) mode large large' md shown e in (a, refl, b, c, d)

public_of :
    (v : ObjectVisibility) (build : Text → Text) (key : Text)
    → is_empty (public_url_for v build key) ≡ false
    → v ≡ public
public_of public build key h = refl
public_of private build key h = cc

fits :
    (is_md is_txt : Bool) (size : ℕ)
    → (is_md && (is_md && ltb (100 * 1024) size)) ≡ false
    → (is_txt && (is_txt && ltb (100 * 1024) size)) ≡ false
    → (is_md || is_txt) ≡ true
    → size ≤ 100 * 1024
fits true t size h k e = ground arith
fits false true size h k e = ground arith
fits false false size h k e = cc

entry_lem :
    (entry : ExplorerFileEntry) (build : Text → Text) (d : Details) (mode : PreviewDisplayMode)
    (md : Bool) (url : Text)
    → preview_entry (some entry) build d mode ≡ remote_text md url false
    → (entry.size ≤ 100 * 1024) × (d.current_visibility ≡ public) × (url ≡ build entry.object_key)
unfolding markdown_preview_too_large text_preview_too_large
entry_lem entry build d mode md url e =
    let (same, there, a, b, c) =
      mount_any_inv (get_preview_type entry)
        (public_url_for d.current_visibility build entry.object_key) mode
        (markdown_preview_too_large entry) (text_preview_too_large entry) md url e in
    let is_public = public_of d.current_visibility build entry.object_key there in
    (
      fits (is_markdown (get_preview_type entry)) (is_text (get_preview_type entry)) entry.size a b
          c,
      is_public,
      sym same ∙ ap (λ v. public_url_for v build entry.object_key) is_public,
    )

none_lem :
    (build : Text → Text) (d : Details) (mode : PreviewDisplayMode) (md : Bool) (url : Text)
    → preview_entry none build d mode ≡ remote_text md url false
    → ⊥
none_lem build d mode md url e = cc

-- A text preview that is not marked as too large is mounted only for an entry of at most 100 KiB
-- that is public now, with the public address of that entry.
pub file_preview-bounds :
    (build_public_url : Text → Text) (d : Details) (mode : PreviewDisplayMode) (md : Bool)
    (url : Text)
    → file_preview build_public_url d mode ≡ remote_text md url false
    → (entry : ExplorerFileEntry) × (d.entry ≡ some entry)
      × (entry.size ≤ 100 * 1024)
      × (d.current_visibility ≡ public)
      × (url ≡ build_public_url entry.object_key)
unfolding file_preview
file_preview-bounds build_public_url d mode md url e = elim (Option-cases d.entry) [
  | inl absent ↦ absurd (
      none_lem build_public_url d mode md url
        (ap (λ o. preview_entry o build_public_url d mode) (sym absent) ∙ e))
  | inr (entry, shown) ↦
      let (a, b, c) =
        entry_lem entry build_public_url d mode md url
          (ap (λ o. preview_entry o build_public_url d mode) (sym shown) ∙ e) in
      (entry, shown, a, b, c)
]
