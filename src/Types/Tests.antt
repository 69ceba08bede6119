-- ===== src/Types/Tests.antt =====
-- Values of remote calls.
use scbl.Prelude.{some, ◌≡◌, refl, List, [], ◌∷◌, ok, arith}
use scbl.Types.{DateFields, date_fields}
use scbl.Types.Date.{packed, date_fields-packed}
use scbl.Types.Property.{
  Property, session_attributes, properties_from_str, properties_from_str-session_attributes,
}
use scbl.Types.Url.{StationUrl, param, text_eq, url_from_str, url_to_string}
use scbl.Types.UrlLaws.{IsUrl, url_from_str-url_to_string}

abbrev co_op : List Property
co_op = record { id = 106; value = 3564829 } ∷ record { id = 112; value = 2 } ∷ []

properties_from_str-session_attributes_example :
    properties_from_str (session_attributes co_op) ≡ some co_op
properties_from_str-session_attributes_example =
    properties_from_str-session_attributes (record { id = 106; value = 3564829 })
      (record { id = 112; value = 2 } ∷ []) (omega arith)

-- "prudp:/address=1.2;port=3074;sid=15"
abbrev station : StationUrl
station = record {
  scheme = 112 ∷ 114 ∷ 117 ∷ 100 ∷ 112 ∷ [];
  address = 49 ∷ 46 ∷ 50 ∷ [];
  port = 3074;
  params = (115 ∷ 105 ∷ 100 ∷ [], 49 ∷ 53 ∷ []) ∷ [];
}

station-IsUrl : IsUrl station
unfolding param text_eq
station-IsUrl = record {
  plain_scheme = ground arith;
  word_port = omega arith;
  plain_address = ground arith;
  plain_params = ground arith;
  unset = (refl, (refl, (refl, tt)));
}

url_from_str-url_to_string_example : url_from_str (url_to_string station) ≡ ok station
url_from_str-url_to_string_example = url_from_str-url_to_string station station-IsUrl

-- 45 minutes past eleven is shown as 13 minutes past eleven.
abbrev late : DateFields
late = record { second = 0; minute = 45; hour = 11; day = 1; month = 5; year = 2024 }

date_fields-packed_example :
    date_fields (packed late)
    ≡ record { second = 0; minute = 13; hour = 11; day = 1; month = 5; year = 2024 }
date_fields-packed_example =
    date_fields-packed late (omega arith) (omega arith) (omega arith) (omega arith) (omega arith)
