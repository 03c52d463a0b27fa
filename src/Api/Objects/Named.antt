-- ===== src/Api/Objects/Named.antt =====
-- The archive is saved under the name that the server gives it. `mime.FormatMediaType`, which the
-- server calls (backend), writes a name that is not ASCII as an extended value of RFC 5987.
use light_oss.Base.{
  ℕ, ◌/◌, ◌%◌, ◌<◌, ◌≡◌, ◌≢◌, refl, ap, ◌∙◌, Bool, true, false, not, ◌&&◌, none, some, List, [],
  ◌∷◌, ◌++◌, ◌==◌, ltb, or_else, All, All-append, arith,
}
use light_oss.Base.Text.{Text, codes, is_space}
use light_oss.Api.Encoding.{
  hex_digit, percents, utf8, code_point, prepend, is_low_surrogate, is_high_surrogate,
}
use light_oss.Api.Encoding.Wire.{IsUnit, utf8-octets}
use light_oss.Api.Encoding.Decode.{plain, ready, units, decode_from, decode_uri_component}
use light_oss.Api.Encoding.Decode.Roundtrip.{decode-utf8, decode-unit, units-code_point}
use light_oss.Api.Objects.{build_folder_archive_fallback_name}
use light_oss.Api.Objects.Archive.{
  until, if_any, utf8_match, first_match, plain_name, get_download_filename, archive_filename,
}

-- A visible character of ASCII that may stand for itself, as any but a percent sign and a semicolon.
abbrev pub is_raw : ℕ → Bool
is_raw c = ltb 32 c && ltb c 127 && not (c == b'%') && not (c == b';')

-- A text and an extended value of it: each code point is written as it is, or as the octets of
-- UTF-8 with percent signs. Which characters of ASCII are escaped is up to the writer.
pub data IsExtended : Text → Text → Type 0 where
  end : IsExtended [] []
  raw : (c : ℕ) (s t : Text) → is_raw c ≡ true → IsExtended s t → IsExtended (c ∷ s) (c ∷ t)
  octets :
      (c : ℕ) (s t : Text)
      → IsUnit c
      → is_low_surrogate c ≡ false
      → is_high_surrogate c ≡ false
      → IsExtended s t
      → IsExtended (c ∷ s) (percents (utf8 c) ++ t)
  pair :
      (high low : ℕ) (s t : Text)
      → is_high_surrogate high ≡ true
      → is_low_surrogate low ≡ true
      → IsExtended s t
      → IsExtended (high ∷ (low ∷ s)) (percents (utf8 (code_point high low)) ++ t)

-- No semicolon ends the value.
abbrev IsInner : ℕ → Type 0
IsInner c = (c == b';') ≡ false

digit-IsInner : (n : ℕ) → n < 16 → IsInner (hex_digit n)
digit-IsInner n h = ground arith

percents-IsInner : (os : List ℕ) → All (λ o. o < 256) os → All IsInner (percents os)
percents-IsInner [] h = tt
percents-IsInner (o ∷ os) (h, hs) = (
  refl,
  (
    digit-IsInner (o / 16) (omega arith),
    (digit-IsInner (o % 16) (omega arith), percents-IsInner os hs),
  ),
)

extended-IsInner : {s t : Text} → IsExtended s t → All IsInner t
extended-IsInner end = tt
extended-IsInner (raw c s t h e) = (ground (arith, h), extended-IsInner e)
extended-IsInner (octets c s t u low high e) =
    All-append IsInner (percents (utf8 c)) t
      (percents-IsInner (utf8 c) (utf8-octets c (omega arith))) (extended-IsInner e)
extended-IsInner (pair high low s t h l e) =
    let valid : code_point high low < 0x110000 = ground (arith, h, l) in
    All-append IsInner (percents (utf8 (code_point high low))) t
      (percents-IsInner (utf8 (code_point high low)) (utf8-octets (code_point high low) valid))
      (extended-IsInner e)

decode-extended : {s t : Text} → IsExtended s t → decode_from plain ready t ≡ some s
unfolding decode_from
decode-extended end = refl
decode-extended (raw c s t h e) =
    decode-unit c t (ground (arith, h)) ∙ ap (prepend (c ∷ [])) (decode-extended e)
decode-extended (octets c s t u low high e) =
    let one : units c ≡ c ∷ [] = ground arith in
    decode-utf8 c t (ground (arith, low, high))
    ∙ ap (λ w. prepend w (decode_from plain ready t)) one
    ∙ ap (prepend (c ∷ [])) (decode-extended e)
decode-extended (pair high low s t h l e) =
    decode-utf8 (code_point high low) t (ground (arith, h, l))
    ∙ ap (λ w. prepend w (decode_from plain ready t)) (units-code_point high low h l)
    ∙ ap (prepend (high ∷ (low ∷ []))) (decode-extended e)

until_fix : (s : Text) → All IsInner s → until b';' s ≡ s
until_fix [] h = refl
until_fix (c ∷ s) (h, hs) = rw h (ap (λ t. c ∷ t) (until_fix s hs))

if_any-fix : (s : Text) → s ≢ [] → if_any s ≡ some s
if_any-fix [] h = absurd (h refl)
if_any-fix (c ∷ s) h = refl

extended-ne-nil : (s t : Text) → IsExtended s t → s ≢ [] → t ≢ []
unfolding decode_from
extended-ne-nil s [] e k = let back : some [] ≡ some s = decode-extended e in λ i. k (cc back)
extended-ne-nil s (c ∷ t) e k = λ i. cc i

module _ (name encoded folder_path : Text) (e : IsExtended name encoded) (k : name ≢ []) where
  whole : if_any (until b';' encoded) ≡ some encoded
  whole =
      ap if_any (until_fix encoded (extended-IsInner e))
      ∙ if_any-fix encoded (extended-ne-nil name encoded e k)

  -- A header whose first match is the value.
  saved :
      (header : Text)
      → first_match utf8_match (b'a' ∷ header) ≡ some encoded
      → archive_filename (some (b'a' ∷ header)) folder_path ≡ name
  unfolding archive_filename get_download_filename decode_uri_component
  saved header found =
      ap
        (λ o. elim o [
          | some value ↦
              or_else (decode_uri_component value) (build_folder_archive_fallback_name folder_path)
          | none ↦ plain_name (b'a' ∷ header) (build_folder_archive_fallback_name folder_path)
        ])
        found
      ∙ ap (λ o. or_else o (build_folder_archive_fallback_name folder_path)) (decode-extended e)

  -- Where the header of the archive has a nonempty name as an extended value of UTF-8, in lower
  -- case as the server writes it or in upper case, whichever characters of ASCII are escaped, the
  -- file is saved under that name.
  pub archive_filename-extended :
      (archive_filename (some (codes "attachment; filename*=utf-8''" ++ encoded)) folder_path
        ≡ name)
      × (archive_filename (some (codes "attachment; filename*=UTF-8''" ++ encoded)) folder_path
          ≡ name)
  unfolding utf8_match is_space
  archive_filename-extended = (
    saved (codes "ttachment; filename*=utf-8''" ++ encoded) (
        ap
          (λ o. elim o [
            | some found ↦ some found
            | none ↦ first_match utf8_match (codes "ilename*=utf-8''" ++ encoded)
          ])
          whole),
    saved (codes "ttachment; filename*=UTF-8''" ++ encoded) (
        ap
          (λ o. elim o [
            | some found ↦ some found
            | none ↦ first_match utf8_match (codes "ilename*=UTF-8''" ++ encoded)
          ])
          whole),
  )
