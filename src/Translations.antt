-- ===== src/Translations.antt =====
-- frontend/src/lib/i18n.tsx: the values in a translated text, and the reasons why an item of the
-- recycle bin was not restored. The dictionaries are not modelled: a template is an argument.
pub mod Templates
mod Tests
use light_oss.Base.{
  ℕ, ◌==◌, Bool, true, false, not, ◌&&◌, ◌||◌, Option, none, some, List, [], ◌∷◌, ◌++◌, leb,
  if◌then◌else◌, is_empty,
}
use light_oss.Base.JsSet.{has}
use light_oss.Base.JsObject.{inherited_names}
use light_oss.Base.Text.{text_key, Text, codes, text_eq, trim}
use light_oss.Base.Search.{lower_text}
use light_oss.Settings.Stored.{AppLocale, en_us, zh_cn}

-- `\w`
abbrev pub is_word : ℕ → Bool
is_word c =
    (leb b'a' c && leb c b'z')
    || (leb b'A' c && leb c b'Z')
    || (leb b'0' c && leb c b'9')
    || c == b'_'

-- After `{` and the word characters `w`: the next code unit.
abbrev pub ends_token : Text → ℕ → Bool
ends_token w c = c == b'}' && not (is_empty w)

-- `replace(/\{(\w+)\}/g, …)`: the token that may have begun, and the rest of the template.
unfoldable pub interpolate : (values : Text → Text) → Option Text → Text → Text
interpolate values none [] = []
interpolate values (some w) [] = b'{' ∷ w
interpolate values none (c ∷ s) =
    let opened = interpolate values (some []) s in
    let rest = interpolate values none s in if c == b'{' then opened else c ∷ rest
interpolate values (some w) (c ∷ s) =
    let longer = interpolate values (some (w ++ c ∷ [])) s in
    let opened = interpolate values (some []) s in
    let rest = interpolate values none s in
    if is_word c
    then longer
    else if ends_token w c
    then values w ++ rest
    else if c == b'{'
    then b'{' ∷ (w ++ opened)
    else b'{' ∷ (w ++ c ∷ rest)

-- `translate` of a template; without values the template is the text.
unfoldable pub translate : Text → Option (Text → Text) → Text
unfolding interpolate
translate template none = template
translate template (some values) = interpolate values none template

pub data Reason : Type 0 where
  object_exists bucket_not_found recycle_bin_item_not_found bucket_lookup_failed
        object_lookup_failed recycle_bin_restore_failed :
      Reason

abbrev pub reason_text : AppLocale → Reason → Text
reason_text en_us object_exists = codes "Object already exists."
reason_text zh_cn object_exists = codes "目标路径已存在对象。"
reason_text en_us bucket_not_found = codes "Bucket not found."
reason_text zh_cn bucket_not_found = codes "bucket 不存在。"
reason_text en_us recycle_bin_item_not_found = codes "Recycle bin item not found."
reason_text zh_cn recycle_bin_item_not_found = codes "回收站项目不存在。"
reason_text en_us bucket_lookup_failed = codes "Failed to look up the bucket."
reason_text zh_cn bucket_lookup_failed = codes "查询 bucket 失败。"
reason_text en_us object_lookup_failed = codes "Failed to look up the object."
reason_text zh_cn object_lookup_failed = codes "查询对象失败。"
reason_text en_us recycle_bin_restore_failed = codes "Failed to restore the recycle bin item."
reason_text zh_cn recycle_bin_restore_failed = codes "还原回收站项目失败。"

abbrev pub Table : Type 0
Table = List (Text × Reason)

abbrev pub find_reason : Table → Text → Option Reason
find_reason [] key = none
find_reason ((k, reason) ∷ table) key =
    let rest = find_reason table key in if text_eq k key then some reason else rest

abbrev pub reasons_by_code : Table
reasons_by_code =
    (codes "object_exists", object_exists)
    ∷ (codes "bucket_not_found", bucket_not_found)
    ∷ (codes "recycle_bin_item_not_found", recycle_bin_item_not_found)
    ∷ (codes "bucket_lookup_failed", bucket_lookup_failed)
    ∷ (codes "object_lookup_failed", object_lookup_failed)
    ∷ (codes "recycle_bin_restore_failed", recycle_bin_restore_failed)
    ∷ []

abbrev pub reasons_by_message : Table
reasons_by_message =
    (codes "object already exists", object_exists)
    ∷ (codes "bucket not found", bucket_not_found)
    ∷ (codes "recycle bin item not found", recycle_bin_item_not_found)
    ∷ (codes "failed to look up bucket", bucket_lookup_failed)
    ∷ (codes "failed to look up object", object_lookup_failed)
    ∷ (codes "failed to load recycle bin item", recycle_bin_restore_failed)
    ∷ (codes "failed to load recycle bin item group", recycle_bin_restore_failed)
    ∷ (codes "failed to restore object", recycle_bin_restore_failed)
    ∷ (codes "failed to remove recycle bin item", recycle_bin_restore_failed)
    ∷ []

-- `normalizeMessage`
abbrev pub normalize_message : Text → Text
normalize_message message = lower_text (trim message)

abbrev by_message : AppLocale → Text → Option Reason → Text
by_message locale message none = message
by_message locale message (some reason) = reason_text locale reason

abbrev by_code : AppLocale → Option Reason → Option Text → Option Text
by_code locale none other = other
by_code locale (some reason) other = some (reason_text locale reason)

-- `none` is `undefined`: an inherited member is found, but has no text for a locale.
unfoldable pub translate_recycle_bin_failure_reason : AppLocale → Text → Text → Option Text
translate_recycle_bin_failure_reason locale code message =
    let normalized = normalize_message message in
    let found = some (by_message locale message (find_reason reasons_by_message normalized)) in
    let other = if has normalized inherited_names then none else found in
    if has code inherited_names
    then none
    else by_code locale (find_reason reasons_by_code code) other
