-- ===== src/Sites/Form.antt =====
-- frontend/src/features/sites/SiteFormDialog.tsx, and `toSiteRequest` of the page of the sites.
pub mod Domains
pub mod Edits
use light_oss.Base.{
  Bool, true, false, not, ◌&&◌, Option, none, some, List, [], ◌∷◌, ◌++◌, map, if◌then◌else◌,
  or_else, is_empty, keep,
}
use light_oss.Base.Text.{Text, codes, trim}
use light_oss.Base.Split.{split}
use light_oss.Api.Types.{Bucket, Site, CreateSiteRequest}

pub record SiteFormValue : Type 0 where
  pub bucket : Text
  pub root_prefix : Text
  pub domains : List Text
  pub enabled : Bool
  pub index_document : Text
  pub error_document : Text
  pub spa_fallback : Bool

pub record PartialSiteFormValue : Type 0 where
  pub bucket : Option Text
  pub root_prefix : Option Text
  pub domains : Option (List Text)
  pub enabled : Option Bool
  pub index_document : Option Text
  pub error_document : Option Text
  pub spa_fallback : Option Bool

abbrev pub index_html : Text
index_html = codes "index.html"

unfoldable pub build_site_form_value : PartialSiteFormValue → SiteFormValue
build_site_form_value value = record {
  bucket = or_else value.bucket [];
  root_prefix = or_else value.root_prefix [];
  domains = or_else value.domains [];
  enabled = or_else value.enabled true;
  index_document = or_else value.index_document index_html;
  error_document = or_else value.error_document [];
  spa_fallback = or_else value.spa_fallback true;
}

unfoldable pub site_to_site_form_value : Site → SiteFormValue
unfolding build_site_form_value
site_to_site_form_value site = build_site_form_value (record {
  bucket = some site.bucket;
  root_prefix = some site.root_prefix;
  domains = some site.domains;
  enabled = some site.enabled;
  index_document = some site.index_document;
  error_document = some site.error_document;
  spa_fallback = some site.spa_fallback;
})

-- The state of the dialog.
pub record SiteForm : Type 0 where
  pub value : SiteFormValue
  pub domains_input : Text

abbrev first_name : List Bucket → Text
first_name [] = []
first_name (bucket ∷ buckets) = bucket.name

-- `domains.join(", ")`
unfoldable pub join_domains : List Text → Text
join_domains [] = []
join_domains (w ∷ []) = w
join_domains (w ∷ (v ∷ ws)) = w ++ (b',' ∷ b' ' ∷ join_domains (v ∷ ws))

-- The effect of an open dialog.
unfoldable pub open_form : (bucket_locked : Bool) → List Bucket → SiteFormValue → SiteForm
unfolding join_domains
open_form bucket_locked buckets initial =
    let default_bucket_name = first_name buckets in
    record {
      value = record initial {
        bucket =
            if not bucket_locked && is_empty initial.bucket && not (is_empty default_bucket_name)
            then default_bucket_name
            else initial.bucket;
      };
      domains_input = join_domains initial.domains;
    }

-- `.split(",").map((value) => value.trim()).filter(Boolean)`
unfoldable pub parsed_domains : Text → List Text
parsed_domains input = keep (λ w. not (is_empty w)) (map trim (split b',' input))

unfoldable pub can_submit : SiteForm → Bool
unfolding parsed_domains
can_submit f =
    not (is_empty (trim (f.value).bucket)) && not (is_empty (parsed_domains f.domains_input))

abbrev pub or_index : Text → Text
or_index document = if is_empty document then index_html else document

-- What `handleSubmit` hands to `onSubmit`, if anything.
abbrev pub sent : SiteForm → SiteFormValue
sent f = record (f.value) {
  bucket = trim (f.value).bucket;
  root_prefix = trim (f.value).root_prefix;
  domains = parsed_domains f.domains_input;
  index_document = or_index (trim (f.value).index_document);
  error_document = trim (f.value).error_document;
}

unfoldable pub submitted : SiteForm → Option SiteFormValue
unfolding can_submit
submitted f = if can_submit f then some (sent f) else none

-- `toSiteRequest`
unfoldable pub to_site_request : SiteFormValue → CreateSiteRequest
to_site_request value = record {
  bucket = value.bucket;
  root_prefix = value.root_prefix;
  enabled = value.enabled;
  index_document = value.index_document;
  error_document = value.error_document;
  spa_fallback = value.spa_fallback;
  domains = value.domains;
}
