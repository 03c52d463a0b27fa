-- ===== src/Table/Tests.antt =====
-- The theorems on the table at concrete rows, dialogs and previews.
use light_oss.Base.{
  number_key, ◌*◌, ◌+◌, ◌/◌, ◌≤◌, ◌≡◌, refl, true, false, ◌&&◌, some, List, [], ◌∷◌, ◌++◌, leb,
  length, arith, inr,
}
use light_oss.Base.Reach.{here, next}
use light_oss.Base.Text.{Text, codes, trim, is_space}
use light_oss.Base.Split.{split}
use light_oss.Base.JsSet.{has}
use light_oss.Api.Types.{ExplorerEntry, file, ExplorerFileEntry, public}
use light_oss.Table.Window.{row_estimate, window_of, fallback_window-bounds}
use light_oss.Table.Preview.{
  Details, get_preview_type, markdown_preview_too_large, text_preview_too_large, file_preview,
  fullscreen,
}
use light_oss.Table.Preview.Limits.{file_preview-bounds}
use light_oss.Recycle.{indeterminate}
use light_oss.Bulk.{Selection, handle_select_all}
use light_oss.Table.Selection.{header_state, clicked, header_state-clicked}
use light_oss.Table.Remote.{
  Inputs, RemoteText, ready, run_effect, fetch_succeeded, change, serve, IsCurrent, Reach-IsCurrent,
}

fallback_window-bounds_example :
    ((window_of [] 0 100 500).top
        + length (window_of [] 0 100 500).rows * row_estimate
        + (window_of [] 0 100 500).bottom
      ≡ 100 * row_estimate)
    × (length (window_of [] 0 100 500).rows ≤ 21)
    × ((has 12 (window_of [] 0 100 500).rows && leb 100 12) ≡ false)
    × (has (500 / row_estimate) (window_of [] 0 100 500).rows ≡ true)
fallback_window-bounds_example = fallback_window-bounds 0 100 500 12 (ground arith)

abbrev notes : ExplorerFileEntry
notes = record {
  path = codes "notes.md";
  name = codes "notes.md";
  object_key = codes "notes.md";
  original_filename = codes "Notes.MD";
  size = 12;
  content_type = codes "text/plain";
  etag = [];
  visibility = public;
  created_at = [];
  updated_at = [];
}

abbrev shown : Details
shown = record {
  entry = some notes;
  selected_visibility = public;
  current_visibility = public;
  is_saving_visibility = false;
  updates = [];
  toasts = [];
}

abbrev address : Text → Text
address key = codes "http://a/" ++ key

file_preview-bounds_example :
    (entry : ExplorerFileEntry) × (some notes ≡ some entry)
    × (entry.size ≤ 100 * 1024)
    × (shown.current_visibility ≡ public)
    × (codes "http://a/notes.md" ≡ address entry.object_key)
file_preview-bounds_example =
    file_preview-bounds address shown fullscreen true (codes "http://a/notes.md") (
      unfold file_preview get_preview_type markdown_preview_too_large text_preview_too_large split
        trim is_space in
      refl)

-- A server whose answer is the address itself.
abbrev Echo : Text → Text → Type 0
Echo url text = text ≡ url

abbrev at_a : Inputs
at_a = record { is_markdown = false; public_url = codes "a"; too_large = false }

abbrev at_b : Inputs
at_b = record { is_markdown = false; public_url = codes "b"; too_large = false }

abbrev start : RemoteText
start = run_effect at_a (record { inputs = at_a; preview_text = []; status = ready; fetches = [] })

start-IsCurrent : IsCurrent Echo start
unfolding run_effect
start-IsCurrent = record { live = (inr (refl, refl), tt); shown = refl }

-- The address changes while the first request runs; then the second one is served.
Reach-IsCurrent_example : IsCurrent Echo (
    fetch_succeeded (codes "b") (record (run_effect at_b start) {
      fetches = record { url = codes "a"; aborted = true } ∷ [];
    }))
Reach-IsCurrent_example = Reach-IsCurrent Echo start-IsCurrent (
    next (next here (change start at_b)) (
      serve (run_effect at_b start) (record { url = codes "a"; aborted = true } ∷ []) [] (codes "b")
        (codes "b") (unfold run_effect in refl) refl))

abbrev one_of_two : Selection
one_of_two = record {
  selected_paths = codes "notes.md" ∷ [];
  bulk_download_pending = false;
  bulk_delete_pending = false;
  bulk_delete_dialog_open = false;
  downloads = [];
  toasts = [];
  invalidations = 0;
}

abbrev old_notes : ExplorerFileEntry
old_notes = record notes { path = codes "old.md" }

abbrev two_files : List ExplorerEntry
two_files = file notes ∷ (file old_notes ∷ [])

partly : header_state two_files one_of_two.selected_paths ≡ indeterminate
unfolding header_state
partly = refl

header_state-clicked_example :
    header_state two_files
      (handle_select_all two_files
        (clicked (header_state two_files one_of_two.selected_paths))
        one_of_two).selected_paths
    ≡ clicked (header_state two_files one_of_two.selected_paths)
header_state-clicked_example =
    header_state-clicked (file notes) (file old_notes ∷ []) one_of_two refl
