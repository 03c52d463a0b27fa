-- ===== src/Settings/Quota/Tests.antt =====
-- The storage limit at concrete values.
use light_oss.Base.{ℕ, ◌+◌, ◌≤◌, ◌≡◌, refl, false, some, [], arith}
use light_oss.Base.Decimal.{scan_digits, decimal, digits}
use light_oss.Base.Reach.{here, next}
use light_oss.Base.Text.{codes, trim, is_space}
use light_oss.Api.Types.{SystemStorageStats, limit_ok}
use light_oss.Settings.Quota.{
  tenths_of, tenths_text, bytes_to_gi_b_string, finite, parse_float, parse_gi_b_to_bytes, Quota,
  storage_quota_enabled, save_disabled, handle_save_storage_limit,
}
use light_oss.Settings.Quota.Shown.{shown-saved}
use light_oss.Settings.Quota.Saved.{IsSaving, save, Reach-IsSaving}

ten_gib : bytes_to_gi_b_string 10737418240 ≡ codes "10.0"
unfolding bytes_to_gi_b_string tenths_of tenths_text decimal digits
ten_gib = refl

with_exponent_read : parse_float (codes " +1.5e2x") ≡ finite false 1500 10
unfolding parse_float scan_digits is_space
with_exponent_read = refl

-- 10 GiB and one byte is shown as 10.0, and saved as 10 GiB.
shown-saved_example :
    (saved : ℕ) × (parse_gi_b_to_bytes (bytes_to_gi_b_string 10737418241) ≡ some saved)
    × (bytes_to_gi_b_string saved ≡ bytes_to_gi_b_string 10737418241)
    × (10737418241 ≤ saved + 53687092)
    × (saved ≤ 10737418241 + 53687092)
shown-saved_example = shown-saved 10737418241 (omega arith) (omega arith)

abbrev stats : SystemStorageStats
stats = record {
  root_path = codes "/data";
  used_bytes = 0;
  max_bytes = 10737418240;
  remaining_bytes = 10737418240;
  used_percent = record { negative = false; numerator = 0; denominator = 1 };
  limit_status = limit_ok;
}

abbrev loaded : Quota
loaded = record {
  settings = record { api_base_url = codes "http://a"; bearer_token = codes "t" };
  storage_stats = some stats;
  storage_limit_gi_b = codes "10.0";
  requests = [];
  flights = [];
  toasts = [];
  stats_invalidations = 0;
}

Reach-IsSaving_example : IsSaving (handle_save_storage_limit loaded)
Reach-IsSaving_example =
    Reach-IsSaving {q = loaded} (record { limits = tt; single = omega arith })
      (next here (save loaded (unfold save_disabled storage_quota_enabled trim is_space in refl)))
