-- ===== src/Actions/Publishing.antt =====
-- frontend/src/features/explorer/PublishSiteDialog.tsx and PublishObjectSiteDialog.tsx: the dialogs
-- that publish a directory or an object, with the form of a site and locked fields.
use light_oss.Base.{
  ℕ, ◌≡◌, refl, sym, ap, ◌∙◌, true, not, ◌&&◌, ◌||◌, some, [], ◌∷◌, ◌++◌, ◌==◌, ==_iff,
  if◌then◌else◌, is_empty, arith, Bool-cases, inl, inr,
}
use light_oss.Base.Text.{Text, slash, trim, is_slash, ends_in}
use light_oss.Base.Split.{Lacks}
use light_oss.Api.Sites.{create_site}
use light_oss.Sites.Form.{
  SiteFormValue, SiteForm, index_html, build_site_form_value, open_form, can_submit, sent,
  submitted, to_site_request,
}
use light_oss.Actions.{PublishSiteValue, PublishObjectSiteValue, site_publication, requests_of}

-- The initial form of the dialog for a directory.
abbrev pub publish_site_form : Text → Text → SiteForm
publish_site_form bucket prefix = open_form true [] (
    build_site_form_value (record {
      bucket = some bucket;
      root_prefix = some prefix;
      domains = some [];
      enabled = some true;
      index_document = some index_html;
      error_document = some [];
      spa_fallback = some true;
    }))

-- What the dialog hands on of the value of its form.
abbrev pub publish_site_value : SiteFormValue → PublishSiteValue
publish_site_value value = record {
  domains = value.domains;
  enabled = value.enabled;
  index_document = value.index_document;
  error_document = value.error_document;
  spa_fallback = value.spa_fallback;
}

abbrev pub publish_object_site_value : SiteFormValue → PublishObjectSiteValue
publish_object_site_value value = record {
  domains = value.domains;
  enabled = value.enabled;
  error_document = value.error_document;
  spa_fallback = value.spa_fallback;
}

pub record SiteLocation : Type 0 where
  pub root_prefix : Text
  pub index_document : Text

abbrev after_char : ℕ → SiteLocation → SiteLocation
after_char c location =
    if is_empty location.root_prefix && not (c == slash)
    then record location { index_document = c ∷ location.index_document }
    else record location { root_prefix = c ∷ location.root_prefix }

-- The parts before and after the last slash; a key without one has an empty first part.
unfoldable pub resolve_site_location : Text → SiteLocation
resolve_site_location [] = record { root_prefix = []; index_document = [] }
resolve_site_location (c ∷ object_key) = after_char c (resolve_site_location object_key)

-- A location of a key: its parts make up the key, the second is a name, and the first a directory.
pub record IsLocation (object_key : Text) (location : SiteLocation) : Type 0 where
  pub parts : location.root_prefix ++ location.index_document ≡ object_key
  pub name : Lacks slash location.index_document
  pub directory : (is_empty location.root_prefix || ends_in is_slash location.root_prefix) ≡ true

after_char-IsLocation :
    (c : ℕ) (object_key prefix document : Text)
    → IsLocation object_key (record { root_prefix = prefix; index_document = document })
    → IsLocation
        (c ∷ object_key)
        (after_char c (record { root_prefix = prefix; index_document = document }))
after_char-IsLocation c object_key (d ∷ prefix) document h = record {
  parts = ap (λ s. c ∷ s) h.parts;
  name = h.name;
  directory = h.directory;
}
after_char-IsLocation c object_key [] document h = elim (Bool-cases (c == slash)) [
  | inl found ↦
      simp found (record { parts = ap (λ s. c ∷ s) h.parts; name = h.name; directory = found })
  | inr other ↦ simp other (record {
    parts = ap (λ s. c ∷ s) h.parts;
    name = (ground (arith, ==_iff c slash), h.name);
    directory = refl;
  })
]

-- The location that the dialog derives from an object key has a name without slashes and a
-- directory that is empty or ends in a slash, and both together are the key.
resolve_site_location-IsLocation :
    (object_key : Text) → IsLocation object_key (resolve_site_location object_key)
unfolding resolve_site_location
resolve_site_location-IsLocation [] = record { parts = refl; name = tt; directory = refl }
resolve_site_location-IsLocation (c ∷ object_key) =
    let location = resolve_site_location object_key in
    after_char-IsLocation c object_key location.root_prefix location.index_document
      (resolve_site_location-IsLocation object_key)

module _ (bucket prefix folder_path : Text) (f : SiteForm)
    (bucket_locked : (f.value).bucket ≡ bucket)
    (prefix_locked : (f.value).root_prefix ≡ folder_path) (bucket_trimmed : trim bucket ≡ bucket)
    (folder_trimmed : trim folder_path ≡ folder_path) where
  -- For a form with the bucket and the directory of the dialog, both trimmed: where the form
  -- submits a value, publishing the directory sends exactly the request that creates the site of
  -- that value.
  site_publication-agree :
      (v : SiteFormValue)
      → submitted f ≡ some v
      → requests_of bucket prefix (site_publication folder_path (publish_site_value v))
        ≡ some (create_site (to_site_request v)) ∷ []
  unfolding requests_of submitted to_site_request
  site_publication-agree v e = elim (Bool-cases (can_submit f)) [
    | inr closed ↦ cc (rw closed at e)
    | inl open_ ↦
        let same : sent f ≡ v = cc (rw open_ at e) in
        let own_bucket : v.bucket ≡ bucket =
          ap (λ x. x.bucket) (sym same) ∙ ap trim bucket_locked ∙ bucket_trimmed in
        let own_prefix : v.root_prefix ≡ folder_path =
          ap (λ x. x.root_prefix) (sym same) ∙ ap trim prefix_locked ∙ folder_trimmed in
        rw own_bucket (rw own_prefix refl)
  ]
