-- ===== src/Api/Objects/Distinct.antt =====
-- Different objects have different addresses.
use light_oss.Base.{◌≡◌, sym, ap, ◌∙◌, some, List, [], All}
use light_oss.Base.Text.{Text, slash}
use light_oss.Base.Split.{split, join, join-split}
use light_oss.Api.Encoding.{encode_uri_component}
use light_oss.Api.Encoding.Wire.{IsUnit}
use light_oss.Api.Encoding.Keys.{All-split}
use light_oss.Api.Encoding.Decode.Roundtrip.{decode-encode_uri_component, encode_segments_inj}
use light_oss.Api.Objects.{object_url}
use light_oss.Api.Objects.Addresses.{address, object_url-split}

address_inj :
    (name other : Text) (segments others : List Text)
    → address name segments ≡ address other others
    → (name ≡ other) × (segments ≡ others)
address_inj name other segments others e = (cc e, cc e)

encode_uri_component_inj :
    (s t encoded : Text)
    → All IsUnit s
    → All IsUnit t
    → encode_uri_component s ≡ some encoded
    → encode_uri_component t ≡ some encoded
    → s ≡ t
encode_uri_component_inj s t encoded h k e f =
    cc (decode-encode_uri_component s encoded h e, decode-encode_uri_component t encoded k f)

-- Two objects, each a bucket and a key of code units, that have the same address are the same
-- object.
pub object_url_inj :
    (bucket other_bucket object_key other_key url : Text)
    → All IsUnit bucket
    → All IsUnit other_bucket
    → All IsUnit object_key
    → All IsUnit other_key
    → object_url bucket [] object_key ≡ some url
    → object_url other_bucket [] other_key ≡ some url
    → (bucket ≡ other_bucket) × (object_key ≡ other_key)
object_url_inj bucket other_bucket object_key other_key url hb ho kb ko e f =
    let (name, segments, name_of, segments_of, own) =
      object_url-split bucket object_key url hb kb e in
    let (other, others, other_of, others_of, theirs) =
      object_url-split other_bucket other_key url ho ko f in
    let (names, parts) = address_inj other name others segments (sym theirs ∙ own) in
    (
      encode_uri_component_inj bucket other_bucket name hb ho name_of (other_of ∙ ap some names),
      sym (join-split slash object_key)
          ∙ ap (join slash) (
              encode_segments_inj (split slash object_key) (split slash other_key) segments
                (All-split object_key kb) (All-split other_key ko) segments_of
                (others_of ∙ ap some parts))
          ∙ join-split slash other_key,
    )
