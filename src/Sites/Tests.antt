-- ===== src/Sites/Tests.antt =====
-- The theorems on the dialogs of sites at concrete forms.
use light_oss.Base.{◌≡◌, refl, true, false, none, some, [], ◌∷◌}
use mathlib.Core.Option
use light_oss.Base.Text.{codes, trim, is_space}
use light_oss.Base.Split.{Lacks_of_all}
use light_oss.Api.Types.{Site}
use light_oss.Api.FolderUpload.{File}
use light_oss.Sites.Form.{
  SiteForm, SiteFormValue, index_html, open_form, site_to_site_form_value, submitted,
  to_site_request,
}
use light_oss.Sites.Form.Edits.{IsSite, request_of, submitted-open_form}
use light_oss.Sites.Publish.{PublishForm, file_mode}

abbrev typed : SiteForm
typed = record {
  value = record {
    bucket = codes " docs ";
    root_prefix = [];
    domains = [];
    enabled = true;
    index_document = [];
    error_document = [];
    spa_fallback = false;
  };
  domains_input = codes "a.example, ,b.example ";
}

abbrev typed_value : SiteFormValue
typed_value = record (typed.value) {
  bucket = codes "docs";
  domains = codes "a.example" ∷ codes "b.example" ∷ [];
  index_document = index_html;
}

abbrev stored : Site
stored = record {
  id = 1;
  bucket = codes "docs";
  root_prefix = codes "v1/";
  enabled = true;
  index_document = index_html;
  error_document = [];
  spa_fallback = true;
  domains = codes "a.example" ∷ codes "b.example" ∷ [];
  created_at = [];
  updated_at = [];
}

stored-IsSite : IsSite stored
unfolding trim is_space
stored-IsSite = record {
  bucket = λ e. cc e;
  bucket_trimmed = refl;
  root_trimmed = refl;
  index_document = λ e. cc e;
  index_trimmed = refl;
  error_trimmed = refl;
  domains = λ e. cc e;
  each_domain = (
    record { inhabited = λ e. cc e; trimmed = refl },
    (record { inhabited = λ e. cc e; trimmed = refl }, tt),
  );
  no_commas = (
    Lacks_of_all b',' (codes "a.example") refl,
    (Lacks_of_all b',' (codes "b.example") refl, tt),
  );
}

submitted-open_form_example :
    Option.map to_site_request (submitted (open_form false [] (site_to_site_form_value stored)))
    ≡ some (request_of stored)
submitted-open_form_example = submitted-open_form false [] stored stored-IsSite

abbrev page : File
page = record {
  name = codes "page.html";
  content_type = codes "text/html";
  webkit_relative_path = none;
}

abbrev chosen_page : PublishForm
chosen_page = record {
  selected_mode = file_mode;
  selected_bucket = codes "docs";
  selected_folder_files = [];
  selected_file = some page;
  parent_prefix_value = [];
  domains_input = codes "a.example";
  enabled = true;
  index_document = [];
  error_document = [];
  spa_fallback = true;
}
