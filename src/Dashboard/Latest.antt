-- ===== src/Dashboard/Latest.antt =====
-- The latest bucket of the dashboard.
use light_oss.Base.{
  ℕ, ◌≤◌, ◌<◌, ◌≡◌, refl, ap, ◌∙◌, Option, some, List, [], ◌∷◌, ◌++◌, ltb, or_else, All, arith,
  Bool-cases, inl, inr,
}
use light_oss.Base.Text.{Text}
use light_oss.Api.Types.{Bucket}
use light_oss.Dashboard.{later, time_of, latest_from, latest_bucket}

module _ (time : Text → Option ℕ) where
  abbrev pub moment : Bucket → ℕ
  moment bucket = or_else (time_of time bucket) 0

  -- The time of the bucket can be read.
  abbrev pub IsDated : Bucket → Type 0
  IsDated bucket = time_of time bucket ≡ some (moment bucket)

  -- The bucket is as late as any, and later than those before it.
  pub record IsLatest (buckets : List Bucket) (b : Bucket) : Type 0 where
    pub before : List Bucket
    pub after : List Bucket
    pub parts : buckets ≡ before ++ b ∷ after
    pub earlier : All (λ x. moment x < moment b) before
    pub not_later : All (λ x. moment x ≤ moment b) after

  later-moment :
      (c l : Bucket)
      → IsDated c
      → IsDated l
      → later (time_of time c) (time_of time l) ≡ ltb (moment l) (moment c)
  later-moment c l dc dl = ap (λ t. later t (time_of time l)) dc ∙ ap (later (some (moment c))) dl

  -- The first bucket is no later.
  first_not_later : (l b : Bucket) (bs : List Bucket) → IsLatest (l ∷ bs) b → moment l ≤ moment b
  first_not_later l b bs h = go h.before h.parts h.earlier
    where
      go :
          (xs : List Bucket)
          → l ∷ bs ≡ xs ++ b ∷ h.after
          → All (λ x. moment x < moment b) xs
          → moment l ≤ moment b
      go [] e all_earlier = let same : l ≡ b = cc e in rw same (omega arith)
      go (x ∷ xs) e (p, ps) = let same : l ≡ x = cc e in rw same (omega (arith, p))

  -- A bucket that is no later than the first one can stand behind it.
  put_behind :
      (l c b : Bucket) (bs : List Bucket)
      → moment c ≤ moment l
      → IsLatest (l ∷ bs) b
      → IsLatest (l ∷ (c ∷ bs)) b
  put_behind l c b bs k h = go h.before h.after h.parts h.earlier h.not_later
    where
      go :
          (xs ys : List Bucket)
          → l ∷ bs ≡ xs ++ b ∷ ys
          → All (λ x. moment x < moment b) xs
          → All (λ x. moment x ≤ moment b) ys
          → IsLatest (l ∷ (c ∷ bs)) b
      go [] ys e p q =
          let same : l ≡ b = cc e in
          let rest : bs ≡ ys = cc e in
          record {
            before = [];
            after = c ∷ ys;
            parts = rw same (rw rest refl);
            earlier = tt;
            not_later = (rw same at k, q);
          }
      go (x ∷ xs) ys e (p, ps) q =
          let same : l ≡ x = cc e in
          let rest : bs ≡ xs ++ b ∷ ys = cc e in
          let below : moment c < moment b =
            let le : moment c ≤ moment x = rw same at k in omega (arith, le, p) in
          record {
            before = x ∷ (c ∷ xs);
            after = ys;
            parts = rw same (rw rest refl);
            earlier = (p, (below, ps));
            not_later = q;
          }

  put_before :
      (l c b : Bucket) (bs : List Bucket)
      → moment l < moment c
      → IsLatest (c ∷ bs) b
      → IsLatest (l ∷ (c ∷ bs)) b
  put_before l c b bs k h = record {
    before = l ∷ h.before;
    after = h.after;
    parts = ap (λ xs. l ∷ xs) h.parts;
    earlier = (omega (arith, k, first_not_later c b bs h), h.earlier);
    not_later = h.not_later;
  }

  latest_from-IsLatest :
      (l : Bucket) (bs : List Bucket)
      → IsDated l
      → All IsDated bs
      → IsLatest (l ∷ bs) (latest_from time l bs)
  latest_from-IsLatest l [] d ds = record {
    before = [];
    after = [];
    parts = refl;
    earlier = tt;
    not_later = tt;
  }
  latest_from-IsLatest l (c ∷ bs) d (dc, ds) =
      elim (Bool-cases (later (time_of time c) (time_of time l))) [
        | inl newer ↦ rw newer (
            put_before l c _ bs (ground (arith, later-moment c l dc d, newer))
              (latest_from-IsLatest c bs dc ds))
        | inr older ↦ rw older (
            put_behind l c _ bs (ground (arith, later-moment c l dc d, older))
              (latest_from-IsLatest l bs d ds))
      ]

  -- Where the times of all buckets can be read, there is a latest bucket unless there are none,
  -- and it is the first one of the latest time: no bucket is later, and those before it are
  -- earlier.
  pub latest_bucket_lem :
      (b : Bucket) (bs : List Bucket)
      → All IsDated (b ∷ bs)
      → (latest : Bucket) × (latest_bucket time (b ∷ bs) ≡ some latest) × IsLatest (b ∷ bs) latest
  unfolding latest_bucket
  latest_bucket_lem b bs (d, ds) = (latest_from time b bs, refl, latest_from-IsLatest b bs d ds)
