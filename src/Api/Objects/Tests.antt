-- ===== src/Api/Objects/Tests.antt =====
-- The addresses of objects and the names of archives at concrete texts.
use light_oss.Base.{◌≡◌, refl, some, [], ◌∷◌, ◌++◌, arith}
use light_oss.Base.Text.{Text, codes, trim, is_space}
use light_oss.Base.Split.{split, join}
use light_oss.Api.Encoding.{
  encode_from, encode_object_key_segment, encode_segments, encode_object_key,
}
use light_oss.Api.Objects.{object_url}
use light_oss.Api.Objects.Distinct.{object_url_inj}
use light_oss.Api.Objects.Named.{IsExtended, end, raw, octets, pair, archive_filename-extended}
use light_oss.Api.Objects.Archive.{
  filename_match, unquoted_match, utf8_match, get_download_filename, archive_filename,
}

abbrev key : Text
key = codes "a.b/c d"

abbrev address : Text
address = codes "/api/v1/buckets/docs/objects/a%2Eb/c%20d"

key_sent : object_url (codes "docs") [] key ≡ some address
unfolding object_url encode_object_key encode_segments encode_object_key_segment encode_from split
    join
key_sent = refl

object_url_inj_example : (codes "docs" ≡ codes "docs") × (key ≡ key)
object_url_inj_example =
    object_url_inj (codes "docs") (codes "docs") key key address (omega arith) (omega arith)
      (omega arith) (omega arith) key_sent key_sent

-- U+00E9 and U+1F600, the second one as two surrogates.
abbrev accented : Text
accented = 0xE9 ∷ (0xD83D ∷ (0xDE00 ∷ codes ".zip"))

abbrev accented_encoded : Text
accented_encoded = codes "%C3%A9%F0%9F%98%80.zip"

zip-IsExtended : IsExtended (codes ".zip") (codes ".zip")
zip-IsExtended = raw b'.' _ _ refl (raw b'z' _ _ refl (raw b'i' _ _ refl (raw b'p' _ _ refl end)))

accented-IsExtended : IsExtended accented accented_encoded
accented-IsExtended =
    octets 0xE9 (0xD83D ∷ (0xDE00 ∷ codes ".zip")) (codes "%F0%9F%98%80.zip") (omega arith) refl
      refl (pair 0xD83D 0xDE00 (codes ".zip") (codes ".zip") refl refl zip-IsExtended)

archive_filename-extended_example :
    (archive_filename
        (some (codes "attachment; filename*=utf-8''" ++ accented_encoded))
        (codes "docs/")
      ≡ accented)
    × (archive_filename
          (some (codes "attachment; filename*=UTF-8''" ++ accented_encoded))
          (codes "docs/")
        ≡ accented)
archive_filename-extended_example =
    archive_filename-extended accented accented_encoded (codes "docs/") accented-IsExtended
      (λ e. cc e)

quoted_name : get_download_filename (some (codes "inline; FileName = \"a;b\"")) [] ≡ codes "a;b"
unfolding get_download_filename utf8_match filename_match unquoted_match is_space
quoted_name = refl

unquoted_name : get_download_filename (some (codes "inline; filename= a ;x")) [] ≡ codes "a"
unfolding get_download_filename utf8_match filename_match unquoted_match trim is_space
unquoted_name = refl
