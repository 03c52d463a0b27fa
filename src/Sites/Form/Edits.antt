-- ===== src/Sites/Form/Edits.antt =====
-- What the form sends.
use light_oss.Base.{
  ◌≡◌, ◌≢◌, refl, sym, ap, ◌∙◌, Bool, true, false, some, List, [], ◌∷◌, is_empty, All, Bool-cases,
  inl, inr,
}
use light_oss.Base.Text.{Text, trim}
use light_oss.Base.Split.{Lacks}
use light_oss.Api.Types.{Bucket, Site, CreateSiteRequest}
use light_oss.Sites.Form.{
  SiteFormValue, SiteForm, build_site_form_value, site_to_site_form_value, open_form, join_domains,
  parsed_domains, can_submit, or_index, sent, submitted, to_site_request,
}
use mathlib.Core.Option
use light_oss.Sites.Form.Domains.{
  IsDomain, trim_twice, ne_of_empty, parsed_domains-IsDomain, parsed_domains-join_domains,
}

-- A value that can be sent.
pub record IsSendable (v : SiteFormValue) : Type 0 where
  pub bucket : v.bucket ≢ []
  pub bucket_trimmed : trim v.bucket ≡ v.bucket
  pub domains : v.domains ≢ []
  pub each_domain : All IsDomain v.domains
  pub index_document : v.index_document ≢ []

or_index_ne : (s : Text) → or_index s ≢ []
or_index_ne [] = λ e. cc e
or_index_ne (c ∷ s) = λ e. cc e

-- Whatever the site dialog submits has a trimmed bucket that is not empty, at least one domain,
-- each trimmed and not empty, and an index document.
pub submitted-IsSendable : (f : SiteForm) (v : SiteFormValue) → submitted f ≡ some v → IsSendable v
unfolding submitted can_submit
submitted-IsSendable f v e = elim (Bool-cases (is_empty (trim (f.value).bucket))) [
  | inl nothing ↦ cc (rw nothing at e)
  | inr bucket ↦ elim (Bool-cases (is_empty (parsed_domains f.domains_input))) [
    | inl nowhere ↦ cc (rw nowhere at (rw bucket at e))
    | inr domains ↦
        let same : sent f ≡ v = cc (rw domains at (rw bucket at e)) in
        rw (sym same) (record {
          bucket = ne_of_empty (trim (f.value).bucket) bucket;
          bucket_trimmed = trim_twice (f.value).bucket;
          domains = ne_of_empty (parsed_domains f.domains_input) domains;
          each_domain = parsed_domains-IsDomain f.domains_input;
          index_document = or_index_ne (trim (f.value).index_document);
        })
  ]
]

-- A site as the server keeps it.
pub record IsSite (s : Site) : Type 0 where
  pub bucket : s.bucket ≢ []
  pub bucket_trimmed : trim s.bucket ≡ s.bucket
  pub root_trimmed : trim s.root_prefix ≡ s.root_prefix
  pub index_document : s.index_document ≢ []
  pub index_trimmed : trim s.index_document ≡ s.index_document
  pub error_trimmed : trim s.error_document ≡ s.error_document
  pub domains : s.domains ≢ []
  pub each_domain : All IsDomain s.domains
  pub no_commas : All (Lacks b',') s.domains

empty_of_ne {ℓ} : {A : Type ℓ} (xs : List A) → xs ≢ [] → is_empty xs ≡ false
empty_of_ne [] h = absurd (h refl)
empty_of_ne (x ∷ xs) h = refl

abbrev pub request_of : Site → CreateSiteRequest
request_of s = record {
  bucket = s.bucket;
  root_prefix = s.root_prefix;
  enabled = s.enabled;
  index_document = s.index_document;
  error_document = s.error_document;
  spa_fallback = s.spa_fallback;
  domains = s.domains;
}

abbrev shown_form : Site → SiteForm
shown_form s = record { value = site_to_site_form_value s; domains_input = join_domains s.domains }

open_form-site :
    (bucket_locked : Bool) (buckets : List Bucket) (s : Site)
    → is_empty s.bucket ≡ false
    → open_form bucket_locked buckets (site_to_site_form_value s) ≡ shown_form s
unfolding open_form site_to_site_form_value build_site_form_value
open_form-site true buckets s full = refl
open_form-site false buckets s full = simp full refl

or_index_fix : (s : Text) → s ≢ [] → or_index s ≡ s
or_index_fix [] h = absurd (h refl)
or_index_fix (c ∷ s) h = refl

sent-shown_form : (s : Site) → IsSite s → to_site_request (sent (shown_form s)) ≡ request_of s
unfolding to_site_request site_to_site_form_value build_site_form_value
sent-shown_form s h = λ i. record {
  bucket = h.bucket_trimmed i;
  root_prefix = h.root_trimmed i;
  enabled = s.enabled;
  index_document = (ap or_index h.index_trimmed ∙ or_index_fix s.index_document h.index_document) i;
  error_document = h.error_trimmed i;
  spa_fallback = s.spa_fallback;
  domains = parsed_domains-join_domains s.domains h.each_domain h.no_commas i;
}

can_submit-shown_form : (s : Site) → IsSite s → can_submit (shown_form s) ≡ true
unfolding can_submit site_to_site_form_value build_site_form_value
can_submit-shown_form s h = rw (parsed_domains-join_domains s.domains h.each_domain h.no_commas) (
    rw h.bucket_trimmed
      (rw (empty_of_ne s.bucket h.bucket) (rw (empty_of_ne s.domains h.domains) refl)))

-- For a site with trimmed texts, a bucket, an index document, and domains that are trimmed, not
-- empty and without commas, at least one: submitting the edit dialog as it opens for the site
-- sends a request with exactly the values of the site.
pub submitted-open_form :
    (bucket_locked : Bool) (buckets : List Bucket) (s : Site)
    → IsSite s
    → Option.map to_site_request
        (submitted (open_form bucket_locked buckets (site_to_site_form_value s)))
      ≡ some (request_of s)
unfolding submitted
submitted-open_form bucket_locked buckets s h =
    rw (open_form-site bucket_locked buckets s (empty_of_ne s.bucket h.bucket))
      (rw (can_submit-shown_form s h) (ap some (sent-shown_form s h)))
