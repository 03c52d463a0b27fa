-- ===== src/Settings/Quota.antt =====
-- frontend/src/pages/SettingsPage.tsx: the storage limit, its text in GiB, and the mutation that
-- saves it. `Number.parseFloat` is read as the exact value of its text; a double keeps 53 bits of
-- it, which makes no difference for the texts that `bytesToGiBString` gives below 2 ^ 19 GiB.
pub mod Shown
pub mod Saved
mod Tests
use light_oss.Base.{
  ℕ, suc, ◌+◌, ◌-◌, ◌*◌, ◌/◌, ◌%◌, ◌^◌, ◌≡◌, Bool, true, false, not, ◌&&◌, ◌||◌, Option, none, some,
  List, [], ◌∷◌, ◌++◌, ◌==◌, ltb, if◌then◌else◌, is_empty,
}
use light_oss.Base.Decimal.{decimal, scan_digits}
use light_oss.Base.Text.{Text, codes, trim, is_space, strip_start, starts_with}
use light_oss.Api.Types.{SystemStorageStats}
use light_oss.Api.Requests.{AppSettings, RequestConfig, update_storage_quota}

-- `1024 ** 3`
abbrev pub gib : ℕ
gib = 1073741824

-- `(value / 1024 ** 3).toFixed(1)`: the nearest number of tenths, the larger one of two.
unfoldable pub tenths_of : ℕ → ℕ
tenths_of value = (10 * value + 536870912) / gib

unfoldable pub tenths_text : ℕ → Text
tenths_text tenths = decimal (tenths / 10) ++ (b'.' ∷ ((48 + tenths % 10) ∷ []))

unfoldable pub bytes_to_gi_b_string : ℕ → Text
unfolding tenths_of tenths_text
bytes_to_gi_b_string value = tenths_text (tenths_of value)

-- What `Number.parseFloat` finds in a text; a finite number is a fraction.
pub data Parsed : Type 0 where
  not_a_number infinite : Parsed
  finite : (negative : Bool) (numerator denominator : ℕ) → Parsed

abbrev pub drop_sign : Text → Text
drop_sign [] = []
drop_sign (c ∷ s) = if c == b'-' || c == b'+' then s else c ∷ s

abbrev pub is_negative : Text → Bool
is_negative [] = false
is_negative (c ∷ s) = c == b'-'

-- `value * 10 ** exponent`, where there is an exponent with digits.
abbrev pub raised : Bool → Bool → ℕ → ℕ → (ℕ × ℕ × Text) → Parsed
raised negative down numerator denominator (exponent, count, rest) =
    if count == 0
    then finite negative numerator denominator
    else if down
    then finite negative numerator (denominator * 10 ^ exponent)
    else finite negative (numerator * 10 ^ exponent) denominator

abbrev pub with_exponent : Bool → ℕ → ℕ → Text → Parsed
with_exponent negative numerator denominator [] = finite negative numerator denominator
with_exponent negative numerator denominator (c ∷ s) =
    if c == b'e' || c == b'E'
    then raised negative (is_negative s) numerator denominator (scan_digits 0 0 (drop_sign s))
    else finite negative numerator denominator

abbrev pub with_fraction : Bool → ℕ → (ℕ × ℕ × Text) → Parsed
with_fraction negative count (value, more, rest) =
    if count + more == 0 then not_a_number else with_exponent negative value (10 ^ more) rest

abbrev pub with_integer : Bool → (ℕ × ℕ × Text) → Parsed
with_integer negative (value, count, []) = with_fraction negative count (value, 0, [])
with_integer negative (value, count, c ∷ s) =
    if c == b'.'
    then with_fraction negative count (scan_digits value 0 s)
    else with_fraction negative count (value, 0, c ∷ s)

unfoldable pub parse_float : Text → Parsed
unfolding is_space
parse_float text =
    let s = strip_start is_space text in
    let t = drop_sign s in
    if starts_with t (codes "Infinity")
    then infinite
    else with_integer (is_negative s) (scan_digits 0 0 t)

-- From here on a double is infinite.
unfoldable pub double_limit : ℕ
double_limit = 2 ^ 1024 - 2 ^ 970

abbrev pub rounded : ℕ → ℕ → ℕ
rounded numerator denominator = (2 * numerator * gib + denominator) / (2 * denominator)

abbrev pub to_bytes : Parsed → Option ℕ
to_bytes not_a_number = none
to_bytes infinite = none
to_bytes (finite negative numerator denominator) =
    if not (ltb numerator (double_limit * denominator)) || (negative || numerator == 0)
    then none
    else some (rounded numerator denominator)

unfoldable pub parse_gi_b_to_bytes : Text → Option ℕ
unfolding parse_float
parse_gi_b_to_bytes value = to_bytes (parse_float value)

pub data Toast : Type 0 where
  invalid_limit storage_quota_saved : Toast
  failure : Text → Toast

-- The mutation `storageQuotaMutation` runs, or waits for the statistics after a success.
pub data Flight : Type 0 where
  running refreshing : ℕ → Flight

pub record Quota : Type 0 where
  pub settings : AppSettings
  pub storage_stats : Option SystemStorageStats
  pub storage_limit_gi_b : Text
  pub requests : List RequestConfig
  pub flights : List Flight
  pub toasts : List Toast
  pub stats_invalidations : ℕ

-- `storageQuotaEnabled`
unfoldable pub storage_quota_enabled : AppSettings → Bool
storage_quota_enabled settings =
    not (is_empty (trim settings.api_base_url)) && not (is_empty (trim settings.bearer_token))

abbrev has_stats : Option SystemStorageStats → Bool
has_stats none = false
has_stats (some stats) = true

-- The button that saves.
unfoldable pub save_disabled : Quota → Bool
unfolding storage_quota_enabled
save_disabled q =
    not (has_stats q.storage_stats)
    || (not (storage_quota_enabled q.settings) || not (is_empty q.flights))

abbrev pub saving : Option ℕ → Quota → Quota
saving none q = record q { toasts = q.toasts ++ invalid_limit ∷ [] }
saving (some max_bytes) q =
    if max_bytes == 0 then record q { toasts = q.toasts ++ invalid_limit ∷ [] } else record q {
      requests = q.requests ++ update_storage_quota max_bytes ∷ [];
      flights = q.flights ++ running max_bytes ∷ [];
    }

unfoldable pub handle_save_storage_limit : Quota → Quota
handle_save_storage_limit q = saving (parse_gi_b_to_bytes q.storage_limit_gi_b) q

-- The effect on new statistics.
unfoldable pub stats_loaded : Option SystemStorageStats → Quota → Quota
stats_loaded none q = record q { storage_stats = none }
stats_loaded (some stats) q = record q {
  storage_stats = some stats;
  storage_limit_gi_b = bytes_to_gi_b_string stats.max_bytes;
}

-- `onSuccess` and `onError`
unfoldable pub quota_saved : SystemStorageStats → Quota → Quota
quota_saved stats q = record q {
  storage_limit_gi_b = bytes_to_gi_b_string stats.max_bytes;
  toasts = q.toasts ++ storage_quota_saved ∷ [];
  stats_invalidations = q.stats_invalidations + 1;
}

unfoldable pub quota_failed : Text → Quota → Quota
quota_failed message q = record q { toasts = q.toasts ++ failure message ∷ [] }
