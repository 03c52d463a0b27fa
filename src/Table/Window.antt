-- ===== src/Table/Window.antt =====
-- The rows that the table renders, and the empty rows above and below them. The virtual rows are
-- those of the virtualizer; without any, the window follows the scroll offset, in whole pixels.
use light_oss.Base.JsSet.{has}
use light_oss.Base.{
  number_key, ltb, true, false, ◌&&◌, ==_iff, ℕ, zero, suc, ◌+◌, ◌-◌, ◌*◌, ◌/◌, ◌≤◌, ◌<◌, ◌≡◌, refl,
  ◌∙◌, List, [], ◌∷◌, map, leb, if◌then◌else◌, length, arith,
}

abbrev pub row_estimate : ℕ
row_estimate = 49

abbrev pub overscan : ℕ
overscan = 10

abbrev pub min : ℕ → ℕ → ℕ
min a b = if leb a b then a else b

abbrev pub fallback_row_count : ℕ → ℕ
fallback_row_count count = min count (overscan * 2 + 1)

abbrev pub fallback_start_index : ℕ → ℕ → ℕ
fallback_start_index count scroll_offset =
    min (scroll_offset / row_estimate) (count - fallback_row_count count)

abbrev pub fallback_end_index : ℕ → ℕ → ℕ
fallback_end_index count scroll_offset =
    min (fallback_start_index count scroll_offset + fallback_row_count count) count

-- `Array.from({ length }, (_, index) => start + index)`
abbrev pub range : ℕ → ℕ → List ℕ
range start zero = []
range start (suc n) = start ∷ range (start + 1) n

pub record VirtualRow : Type 0 where
  pub index : ℕ
  pub start : ℕ
  pub end : ℕ

-- What is rendered: the indexes of the rows, and the heights of the two spacers.
pub record Window : Type 0 where
  pub top : ℕ
  pub rows : List ℕ
  pub bottom : ℕ

unfoldable pub fallback_window : ℕ → ℕ → Window
fallback_window count scroll_offset =
    let start = fallback_start_index count scroll_offset in
    let end = fallback_end_index count scroll_offset in
    record {
      top = start * row_estimate;
      rows = range start (end - start);
      bottom = (count - end) * row_estimate;
    }

abbrev virtual_window : VirtualRow → List VirtualRow → ℕ → Window
virtual_window row rows total_size = record {
  top = row.start;
  rows = map (λ r. r.index) (row ∷ rows);
  bottom = total_size - last_end row rows;
}
  where
    last_end : VirtualRow → List VirtualRow → ℕ
    last_end row [] = row.end
    last_end row (next ∷ rows) = last_end next rows

unfoldable pub window_of : List VirtualRow → (total_size count scroll_offset : ℕ) → Window
unfolding fallback_window
window_of [] total_size count scroll_offset = fallback_window count scroll_offset
window_of (row ∷ rows) total_size count scroll_offset = virtual_window row rows total_size

length-range : (start n : ℕ) → length (range start n) ≡ n
length-range start zero = refl
length-range start (suc n) = omega (arith, length-range (start + 1) n)

has-range : (i start n : ℕ) → has i (range start n) ≡ (leb start i && ltb i (start + n))
has-range i start zero = ground arith
has-range i start (suc n) = ground (arith, has-range i (start + 1) n, ==_iff start i)

-- Where the virtualizer gives no rows and the scroll offset lies within the rows: the rendered
-- rows and both spacers together have the height of all rows, at most 21 rows are rendered, every
-- rendered index is that of a row, and the row at the scroll offset is rendered.
pub fallback_window-bounds :
    (total_size count scroll_offset i : ℕ)
    → scroll_offset / row_estimate < count
    → ((window_of [] total_size count scroll_offset).top
          + length (window_of [] total_size count scroll_offset).rows * row_estimate
          + (window_of [] total_size count scroll_offset).bottom
        ≡ count * row_estimate)
      × (length (window_of [] total_size count scroll_offset).rows ≤ 21)
      × ((has i (window_of [] total_size count scroll_offset).rows && leb count i) ≡ false)
      × (has (scroll_offset / row_estimate) (window_of [] total_size count scroll_offset).rows
          ≡ true)
unfolding window_of fallback_window
fallback_window-bounds total_size count scroll_offset i h =
    let start = fallback_start_index count scroll_offset in
    let end = fallback_end_index count scroll_offset in
    let rows = length-range start (end - start) in
    (
      rw rows (ground arith),
      rw rows (ground arith),
      ground (arith, has-range i start (end - start)),
      has-range (scroll_offset / row_estimate) start (end - start) ∙ ground arith,
    )
