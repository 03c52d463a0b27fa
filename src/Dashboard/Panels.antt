-- ===== src/Dashboard/Panels.antt =====
-- What the system part of the dashboard shows.
use light_oss.Base.{ℕ, ◌*◌, ◌≤◌, ◌≡◌, ◌↔◌, refl, false, none, leb, arith, Bool-cases, inl, inr}
use light_oss.Api.Types.{
  Fraction, StorageLimitStatus, limit_ok, limit_warning, limit_exceeded, SystemStorageStats,
}
use light_oss.Dashboard.{
  clamp_percent, Variant, destructive, alert_for, get_storage_status_badge_variant, storage_card,
}

-- A number of an answer with a denominator.
abbrev pub IsAtMost : Fraction → ℕ → Type 0
IsAtMost value percent = value.numerator ≤ percent * value.denominator

clamp_percent-bounds :
    (value : Fraction)
    → IsAtMost (clamp_percent value) 100 × ((clamp_percent value).negative ≡ false)
unfolding clamp_percent
clamp_percent-bounds value = elim (Bool-cases value.negative) [
  | inl below ↦ simp below (omega arith, refl)
  | inr above ↦ simp above (elim (Bool-cases (leb value.numerator (100 * value.denominator))) [
    | inl small ↦ simp small (ground (arith, small), above)
    | inr large ↦ simp large (omega arith, refl)
  ])
]

no_alert :
    (s : StorageLimitStatus) (v : Variant) (stats : SystemStorageStats)
    → (alert_for s v stats ≡ none) ↔ (s ≡ limit_ok)
unfolding alert_for
no_alert limit_ok v stats = ((λ e. refl), (λ e. refl))
no_alert limit_warning v stats = ((λ e. cc e), (λ e. cc e))
no_alert limit_exceeded v stats = ((λ e. cc e), (λ e. cc e))

destructive_badge :
    (s : StorageLimitStatus)
    → (get_storage_status_badge_variant s ≡ destructive) ↔ (s ≡ limit_exceeded)
unfolding get_storage_status_badge_variant
destructive_badge limit_ok = ((λ e. cc e), (λ e. cc e))
destructive_badge limit_warning = ((λ e. cc e), (λ e. cc e))
destructive_badge limit_exceeded = ((λ e. refl), (λ e. refl))

-- The progress bar of the storage card stands between 0 and 100, the card has no alert exactly
-- where the status is ok, and its badge is the destructive one exactly where the limit is exceeded.
pub storage_card_lem :
    (stats : SystemStorageStats)
    → IsAtMost (storage_card stats).progress 100
      × ((storage_card stats).progress.negative ≡ false)
      × (((storage_card stats).alert ≡ none) ↔ (stats.limit_status ≡ limit_ok))
      × (((storage_card stats).badge_variant ≡ destructive) ↔ (stats.limit_status ≡ limit_exceeded))
unfolding storage_card
storage_card_lem stats =
    let (small, positive) = clamp_percent-bounds stats.used_percent in
    (small, positive, no_alert stats.limit_status _ stats, destructive_badge stats.limit_status)
