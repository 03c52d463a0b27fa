-- ===== src/Settings/Quota/Saved.antt =====
-- What the page asks the server to save.
use light_oss.Base.{
  ℕ, ◌+◌, ◌≡◌, ◌≤◌, ◌<◌, refl, ap, true, false, Option, none, some, List, [], ◌∷◌, ◌++◌, ◌==◌,
  is_empty, All, All-append, length, length-append, arith, Bool-cases, inl, inr,
}
use light_oss.Base.Reach.{Reach, invariant}
use light_oss.Base.Text.{Text}
use light_oss.Api.Types.{SystemStorageStats}
use light_oss.Api.Requests.{RequestConfig, update_storage_quota}
use light_oss.Settings.Quota.{
  Flight, running, refreshing, Quota, save_disabled, saving, parse_gi_b_to_bytes,
  handle_save_storage_limit, stats_loaded, quota_saved, quota_failed,
}

abbrev pub land : List Flight → Quota → Quota
land flights q = record q { flights = flights }

-- `setStorageLimitGiB`
abbrev pub write_limit : Text → Quota → Quota
write_limit text q = record q { storage_limit_gi_b = text }

pub data Step : Quota → Quota → Type 0 where
  write : (q : Quota) (text : Text) → Step q (write_limit text q)
  save : (q : Quota) → save_disabled q ≡ false → Step q (handle_save_storage_limit q)
  load : (q : Quota) (stats : Option SystemStorageStats) → Step q (stats_loaded stats q)
  succeed :
      (q : Quota) (fs gs : List Flight) (max_bytes : ℕ) (stats : SystemStorageStats)
      → q.flights ≡ fs ++ running max_bytes ∷ gs
      → Step q (quota_saved stats (land (fs ++ refreshing max_bytes ∷ gs) q))
  fail :
      (q : Quota) (fs gs : List Flight) (max_bytes : ℕ) (message : Text)
      → q.flights ≡ fs ++ running max_bytes ∷ gs
      → Step q (quota_failed message (land (fs ++ gs) q))
  settle :
      (q : Quota) (fs gs : List Flight) (max_bytes : ℕ)
      → q.flights ≡ fs ++ refreshing max_bytes ∷ gs
      → Step q (land (fs ++ gs) q)

-- A request to save a limit that some text stands for.
abbrev pub IsLimit : RequestConfig → Type 0
IsLimit request =
    (text : Text) × (max_bytes : ℕ) × (parse_gi_b_to_bytes text ≡ some max_bytes)
    × (0 < max_bytes)
    × (request ≡ update_storage_quota max_bytes)

pub record IsSaving (q : Quota) : Type 0 where
  pub limits : All IsLimit q.requests
  pub single : length q.flights ≤ 1

length_none {ℓ} : {A : Type ℓ} (xs : List A) → is_empty xs ≡ true → length xs ≡ 0
length_none [] h = refl
length_none (x ∷ xs) h = cc h

flights-append : (fs gs : List Flight) → length (fs ++ gs) ≡ length fs + length gs
flights-append fs gs = length-append fs gs

ruleset counting = (arith, flights-append)

saving-IsSaving :
    (text : Text) (limit : Option ℕ) (q : Quota)
    → parse_gi_b_to_bytes text ≡ limit
    → is_empty q.flights ≡ true
    → IsSaving q
    → IsSaving (saving limit q)
saving-IsSaving text none q e free h = record { limits = h.limits; single = h.single }
saving-IsSaving text (some max_bytes) q e free h = elim (Bool-cases (max_bytes == 0)) [
  | inl nothing ↦ simp nothing (record { limits = h.limits; single = h.single })
  | inr positive ↦ simp positive (record {
    limits =
        All-append IsLimit q.requests _ h.limits
          ((text, max_bytes, e, ground (arith, positive), refl), tt);
    single =
        omega (arith, length-append q.flights (running max_bytes ∷ []), length_none q.flights free);
  })
]

Step-IsSaving : {q r : Quota} → Step q r → IsSaving q → IsSaving r
unfolding handle_save_storage_limit save_disabled quota_saved quota_failed stats_loaded
Step-IsSaving (write q text) h = record { limits = h.limits; single = h.single }
Step-IsSaving (save q enabled) h =
    saving-IsSaving q.storage_limit_gi_b _ q refl (ground (arith, enabled)) h
Step-IsSaving (load q none) h = record { limits = h.limits; single = h.single }
Step-IsSaving (load q (some stats)) h = record { limits = h.limits; single = h.single }
Step-IsSaving (succeed q fs gs max_bytes stats e) h = record {
  limits = h.limits;
  single = omega (counting, ap length e, h.single);
}
Step-IsSaving (fail q fs gs max_bytes message e) h = record {
  limits = h.limits;
  single = omega (counting, ap length e, h.single);
}
Step-IsSaving (settle q fs gs max_bytes e) h = record {
  limits = h.limits;
  single = omega (counting, ap length e, h.single);
}

-- From a page without requests, after any order of input, saves, statistics and answers: each
-- request saves a positive number of bytes that some text stands for, and at most one request is
-- under way.
pub Reach-IsSaving : {q r : Quota} → IsSaving q → Reach Step q r → IsSaving r
Reach-IsSaving h r = invariant Step IsSaving (λ s t k p. Step-IsSaving k p) _ _ h r
