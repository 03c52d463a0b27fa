-- ===== src/Api/Objects/Addresses.antt =====
-- The path of an object in the address of its requests.
use light_oss.Base.{
  ◌≡◌, refl, sym, ap, ◌∙◌, none, some, List, [], ◌∷◌, ◌++◌, All, arith, Option-cases, inl, inr,
  or_else, last_of, last_of-append,
}
use light_oss.Base.Text.{Text, codes, slash, is_slash, strip_end}
use light_oss.Base.Split.{split, split-append, Lacks, join, split-join}
use light_oss.Api.Encoding.{encode_uri_component, encode_object_key, encode_segments}
use light_oss.Api.Encoding.Wire.{IsUnit, IsWire, encode_from-IsWire}
use light_oss.Api.Encoding.Keys.{encode_object_key-split}
use light_oss.Base.Strip.{strip_end-append, strip_end_fix}
use light_oss.Explorer.Segments.{path_of, IsSegment, join-eq-path_of, join-IsTrunk, keep_segments}
use light_oss.Api.Objects.{object_url, build_folder_archive_fallback_name}

wire-Lacks : (s : Text) → All IsWire s → Lacks slash s
wire-Lacks [] h = tt
wire-Lacks (c ∷ s) (h, hs) = (ground arith, wire-Lacks s hs)

-- The segments of the address of a key in a bucket, both encoded.
abbrev pub address : Text → List Text → List Text
address name segments =
    [] ∷ codes "api" ∷ codes "v1" ∷ codes "buckets" ∷ name ∷ codes "objects" ∷ segments

split-object_url :
    (name key : Text)
    → Lacks slash name
    → split slash (codes "/api/v1/buckets/" ++ (name ++ (codes "/objects/" ++ key)))
      ≡ address name (split slash key)
split-object_url name key h =
    let inner : split slash (name ++ (slash ∷ (codes "objects" ++ (slash ∷ key))))
        ≡ name ∷ codes "objects" ∷ split slash key =
      split-append slash name (codes "objects" ++ (slash ∷ key)) h
      ∙ ap (λ t. name ∷ t) (split-append slash (codes "objects") key (ground arith)) in
    unfold split in ap (λ t. [] ∷ codes "api" ∷ codes "v1" ∷ codes "buckets" ∷ t) inner

-- For a bucket and a key of code units whose address can be made, the segments of the address are
-- those of the route, with the encoded name of the bucket and the encoded segments of the key in
-- their order.
pub object_url-split :
    (bucket object_key url : Text)
    → All IsUnit bucket
    → All IsUnit object_key
    → object_url bucket [] object_key ≡ some url
    → (name : Text) × (segments : List Text) × (encode_uri_component bucket ≡ some name)
      × (encode_segments (split slash object_key) ≡ some segments)
      × (split slash url ≡ address name segments)
unfolding object_url
object_url-split bucket object_key url h k e = elim (Option-cases (encode_uri_component bucket)) [
  | inl thrown ↦ cc (rw thrown at e)
  | inr (name, got) ↦ elim (Option-cases (encode_object_key object_key)) [
    | inl failed ↦ cc (rw failed at (rw got at e))
    | inr (key, encoded) ↦
        let same : codes "/api/v1/buckets/" ++ (name ++ (codes "/objects/" ++ key)) ≡ url =
          cc (rw encoded at (rw got at e)) in
        (
          name,
          split slash key,
          got,
          (encode_object_key-split object_key key k encoded).0,
          ap (split slash) (sym same)
              ∙ split-object_url name key
                  (wire-Lacks name (encode_from-IsWire none bucket name tt h got)),
        )
  ]
]

archive_of_segments :
    (w : Text) (ws : List Text)
    → All IsSegment (w ∷ ws)
    → build_folder_archive_fallback_name (path_of (w ∷ ws))
      ≡ or_else (last_of (w ∷ ws)) (codes "folder") ++ codes ".zip"
unfolding build_folder_archive_fallback_name
archive_of_segments w ws h =
    let stripped : strip_end is_slash (path_of (w ∷ ws)) ≡ join slash (w ∷ ws) =
      ap (strip_end is_slash) (sym (join-eq-path_of w ws))
      ∙ strip_end-append is_slash (join slash (w ∷ ws)) slash refl
      ∙ strip_end_fix is_slash (join slash (w ∷ ws)) (join-IsTrunk w ws h).no_end in
    rw stripped
      (rw (split-join slash w ws (segments-Lacks (w ∷ ws) h)) (rw (keep_segments (w ∷ ws) h) refl))
  where
    segments-Lacks : (ws : List Text) → All IsSegment ws → All (Lacks slash) ws
    segments-Lacks [] h = tt
    segments-Lacks (w ∷ ws) (h, hs) = (h.1, segments-Lacks ws hs)

-- The fallback name of the archive of a directory given by its segments is the last segment and
-- ".zip".
pub build_folder_archive_fallback_name-path_of :
    (ws : List Text) (w : Text)
    → All IsSegment (ws ++ w ∷ [])
    → build_folder_archive_fallback_name (path_of (ws ++ w ∷ [])) ≡ w ++ codes ".zip"
build_folder_archive_fallback_name-path_of [] w h = archive_of_segments w [] h
build_folder_archive_fallback_name-path_of (v ∷ ws) w h =
    archive_of_segments v (ws ++ w ∷ []) h
    ∙ ap (λ o. or_else o (codes "folder") ++ codes ".zip") (last_of-append (v ∷ ws) w)
