-- ===== src/Buckets/Groups.antt =====
-- The sites of each bucket, and the pinned buckets in the order of their pins.
use light_oss.Base.{
  number_key, ℕ, ◌≡◌, refl, sym, ap, ◌∙◌, Bool, true, false, ◌||◌, none, some, List, [], ◌∷◌, ◌++◌,
  append_assoc, append-nil, map, if◌then◌else◌, keep, arith, Bool-cases, ◌⊎◌, inl, inr, ==_iff,
  ◌==◌,
}
use mathlib.Core.Option
use light_oss.Base.Text.{text_key, Text, text_eq, text_eq_iff}
use light_oss.Base.JsSet.{has}
use light_oss.Base.JsObject.{inherited_names}
use light_oss.Api.Types.{Bucket, Site}
use light_oss.Buckets.{
  Groups, group_of, put_site, is_inherited, group_sites, sites_by_bucket, shown_sites, last_or,
  bucket_by_id, pinned_buckets, ids_of_buckets,
}

abbrev pub some_inherited : List Site → Bool
some_inherited [] = false
some_inherited (site ∷ sites) = is_inherited site || some_inherited sites

-- The sites of a bucket, in their order.
abbrev pub sites_of : Text → List Site → List Site
sites_of bucket sites = keep (λ site. text_eq site.bucket bucket) sites

sites_of-cons :
    (bucket : Text) (site : Site) (sites : List Site)
    → sites_of bucket (site ∷ []) ++ sites_of bucket sites ≡ sites_of bucket (site ∷ sites)
sites_of-cons bucket site sites = elim (Bool-cases (text_eq site.bucket bucket)) [
  | inl same ↦ rw same refl
  | inr other ↦ rw other refl
]

group_of-put_site :
    (bucket : Text) (site : Site) (groups : Groups)
    → group_of bucket (put_site site groups) ≡ group_of bucket groups ++ sites_of bucket (site ∷ [])
group_of-put_site bucket site [] = refl
group_of-put_site bucket site ((name, sites) ∷ groups) =
    elim (Bool-cases (text_eq name site.bucket)) [
      | inl own ↦ rw own (
          rw ((text_eq_iff name site.bucket).0 own)
            (elim (Bool-cases (text_eq site.bucket bucket)) [
              | inl same ↦ rw same refl
              | inr other ↦ rw other (sym (append-nil (group_of bucket groups)))
            ]))
      | inr apart ↦ rw apart (elim (Bool-cases (text_eq name bucket)) [
        | inl same ↦
            let away : text_eq site.bucket bucket ≡ false = ground (
              arith,
              text_eq_iff name site.bucket,
              text_eq_iff name bucket,
              text_eq_iff site.bucket bucket,
            ) in
            rw same (rw away (sym (append-nil sites)))
        | inr other ↦ rw other (group_of-put_site bucket site groups)
      ])
    ]

group_of-group_sites :
    (bucket : Text) (sites : List Site) (groups : Groups)
    → Option.map (group_of bucket) (group_sites sites groups) ≡ (
        if some_inherited sites
        then none
        else some (group_of bucket groups ++ sites_of bucket sites))
group_of-group_sites bucket [] groups = ap some (sym (append-nil (group_of bucket groups)))
group_of-group_sites bucket (site ∷ sites) groups = elim (Bool-cases (is_inherited site)) [
  | inl bad ↦ rw bad refl
  | inr good ↦ rw good (
      rw (group_of-group_sites bucket sites (put_site site groups)) (
        rw (group_of-put_site bucket site groups) (
          ap (λ t. if some_inherited sites then none else some t)
            (append_assoc (group_of bucket groups) (sites_of bucket (site ∷ []))
                (sites_of bucket sites)
              ∙ ap (λ t. group_of bucket groups ++ t) (sites_of-cons bucket site sites)))))
]

-- The sites shown for a bucket are the sites of that bucket in their order, unless the bucket or
-- that of some site has a name that every object inherits, where there is no list to show.
pub shown_sites_lem :
    (bucket : Text) (sites : List Site)
    → shown_sites bucket sites ≡ (
        if has bucket inherited_names || some_inherited sites
        then none
        else some (sites_of bucket sites))
unfolding shown_sites sites_by_bucket
shown_sites_lem bucket sites = elim (Bool-cases (has bucket inherited_names)) [
  | inl bad ↦ rw bad refl
  | inr good ↦ rw good (group_of-group_sites bucket sites [])
]

bucket_by_id-cases :
    (id : ℕ) (buckets : List Bucket)
    → ((bucket_by_id id buckets ≡ none) × (has id (ids_of_buckets buckets) ≡ false))
      ⊎ ((b : Bucket) × (bucket_by_id id buckets ≡ some b)
          × (b.id ≡ id)
          × (has id (ids_of_buckets buckets) ≡ true))
bucket_by_id-cases id [] = inl (refl, refl)
bucket_by_id-cases id (x ∷ buckets) = elim (bucket_by_id-cases id buckets) [
  | inr (b, e, own, there) ↦ inr (
    b,
    ap (λ o. last_or o (if x.id == id then some x else none)) e,
    own,
    rw there (or_true (x.id == id)),
  )
  | inl (e, absent) ↦ elim (Bool-cases (x.id == id)) [
    | inl same ↦ inr (x, rw e (rw same refl), (==_iff x.id id).0 same, rw same refl)
    | inr other ↦ inl (rw e (rw other refl), rw other absent)
  ]
]
  where
    or_true : (b : Bool) → (b || true) ≡ true
    or_true true = refl
    or_true false = refl

-- The ids of the pinned buckets that the page shows are the pinned ids, in their order, that some
-- bucket of the full list has.
pub pinned_buckets_lem :
    (ids : List ℕ) (full_buckets : List Bucket)
    → map (λ b. b.id) (pinned_buckets ids full_buckets)
      ≡ keep (λ id. has id (ids_of_buckets full_buckets)) ids
unfolding pinned_buckets
pinned_buckets_lem [] full_buckets = refl
pinned_buckets_lem (id ∷ ids) full_buckets = elim (bucket_by_id-cases id full_buckets) [
  | inl (e, absent) ↦ rw e (rw absent (pinned_buckets_lem ids full_buckets))
  | inr (b, e, own, there) ↦
      rw e (rw there (rw own (ap (λ t. id ∷ t) (pinned_buckets_lem ids full_buckets))))
]
