-- ===== src/Sites/Page/Tests.antt =====
-- The page of the sites at concrete states.
use light_oss.Base.{refl, true, false, [], ◌∷◌, arith}
use light_oss.Base.Reach.{here, next}
use light_oss.Base.Text.{codes, trim, is_space}
use light_oss.Base.Split.{split}
use light_oss.Sites.Form.{
  SiteForm, SiteFormValue, index_html, parsed_domains, can_submit, submitted,
}
use light_oss.Sites.Page.{
  SitesPage, site_creation, refreshing, started, succeeded, land, create, succeed,
}
use light_oss.Sites.Page.Sent.{IsProper, Reach-IsProper}

abbrev typed : SiteForm
typed = record {
  value = record {
    bucket = codes " docs ";
    root_prefix = [];
    domains = [];
    enabled = true;
    index_document = [];
    error_document = [];
    spa_fallback = false;
  };
  domains_input = codes "a.example";
}

abbrev typed_value : SiteFormValue
typed_value = record (typed.value) {
  bucket = codes "docs";
  domains = codes "a.example" ∷ [];
  index_document = index_html;
}

abbrev quiet : SitesPage
quiet = record {
  upload_progress = 0;
  requests = [];
  flights = [];
  toasts = [];
  sites_invalidations = 0;
}

abbrev created : SitesPage
created =
    succeeded (site_creation typed_value) (
      land (refreshing (site_creation typed_value) ∷ [])
        (started (site_creation typed_value) quiet))

Reach-IsProper_example : IsProper created
Reach-IsProper_example =
    Reach-IsProper {p = quiet} (record { sent = tt; single = omega arith; measured = refl })
      (next
        (next here (
          create quiet typed typed_value
            (unfold submitted can_submit parsed_domains split trim is_space in refl)))
        (succeed (started (site_creation typed_value) quiet) [] [] (site_creation typed_value)
          (unfold started in refl)))
