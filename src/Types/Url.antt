-- ===== src/Types/Url.antt =====
-- server/quazal/src/rmc/types.rs: `StationURL`. A `HashMap` with text keys is an association list; its
-- order is that in which it is iterated.
use scbl.Prelude.{
  ℕ, ◌^◌, ◌==◌, Bool, true, false, ◌&&◌, List, [], ◌∷◌, ◌++◌, map, Option, none, some, Outcome, ok,
  err, ok_or, ◌>>=◌, if◌then◌else◌,
}
use scbl.Text.{to_decimal, parse_unsigned, split_once, split, join}

abbrev pub Params : Type 0
Params = List (List ℕ × List ℕ)

pub record StationUrl : Type 0 where
  pub scheme : List ℕ
  pub address : List ℕ
  pub port : ℕ
  pub params : Params

pub data StationUrlParseError : Type 0 where
  missing_scheme missing_address missing_port : StationUrlParseError
  invalid_parameters invalid_port : StationUrlParseError

unfoldable pub text_eq : List ℕ → List ℕ → Bool
text_eq [] [] = true
text_eq [] (d ∷ t) = false
text_eq (c ∷ s) [] = false
text_eq (c ∷ s) (d ∷ t) = (c == d) && text_eq s t

unfoldable pub param : List ℕ → Params → Option (List ℕ)
unfolding text_eq
param key [] = none
param key ((k, v) ∷ m) = if text_eq k key then some v else param key m

unfoldable pub set_param : List ℕ → List ℕ → Params → Params
set_param key value [] = (key, value) ∷ []
set_param key value ((k, v) ∷ m) =
    if text_eq k key then (key, value) ∷ m else (k, v) ∷ set_param key value m

-- `HashMap::remove`: the map that is left.
unfoldable pub without : List ℕ → Params → Params
without key [] = []
without key ((k, v) ∷ m) = if text_eq k key then m else (k, v) ∷ without key m

unfoldable pub add_entry : Option (List ℕ × List ℕ) → Option Params → Option Params
add_entry none rest = none
add_entry (some e) none = none
add_entry (some e) (some es) = some (e ∷ es)

-- Every parameter split at its first equals sign, 61.
unfoldable pub entries_of : List (List ℕ) → Option Params
unfolding add_entry
entries_of [] = some []
entries_of (s ∷ parts) = add_entry (split_once (61 ∷ []) s) (entries_of parts)

-- `collect` into the map.
unfoldable pub collect : Params → Params → Params
unfolding set_param
collect m [] = m
collect m ((k, v) ∷ es) = collect (set_param k v m) es

-- "address" and "port".
abbrev pub address_key : List ℕ
address_key = 97 ∷ 100 ∷ 100 ∷ 114 ∷ 101 ∷ 115 ∷ 115 ∷ []

abbrev pub port_key : List ℕ
port_key = 112 ∷ 111 ∷ 114 ∷ 116 ∷ []

-- `from_str` behind the scheme.
unfoldable pub url_of_params : List ℕ → Option Params → Outcome StationUrlParseError StationUrl
unfolding param without collect
url_of_params scheme none = err invalid_parameters
url_of_params scheme (some es) =
    let params = collect [] es in
    ok_or (param address_key params) missing_address >>= λ address.
    let params' = without address_key params in
    ok_or (param port_key params') missing_port >>= λ port.
    ok_or (parse_unsigned (2 ^ 16) port) invalid_port >>= λ number. ok (record {
      scheme = scheme;
      address = address;
      port = number;
      params = without port_key params';
    })

unfoldable pub url_of : Option (List ℕ × List ℕ) → Outcome StationUrlParseError StationUrl
unfolding url_of_params entries_of
url_of none = err missing_scheme
url_of (some (scheme, rest)) = url_of_params scheme (entries_of (split 59 rest))

-- `FromStr`; the scheme ends at the first ":/".
unfoldable pub url_from_str : List ℕ → Outcome StationUrlParseError StationUrl
unfolding url_of
url_from_str value = url_of (split_once (58 ∷ 47 ∷ []) value)

abbrev pub entry_to_string : List ℕ × List ℕ → List ℕ
entry_to_string (k, v) = k ++ ((61 ∷ []) ++ v)

abbrev pub all_params : StationUrl → Params
all_params url = (address_key, url.address) ∷ (port_key, to_decimal url.port) ∷ url.params

-- `Display`.
unfoldable pub url_to_string : StationUrl → List ℕ
url_to_string url = url.scheme ++ ((58 ∷ 47 ∷ []) ++ join 59 (map entry_to_string (all_params url)))
