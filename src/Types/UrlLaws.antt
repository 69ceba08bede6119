-- ===== src/Types/UrlLaws.antt =====
-- A station URL is parsed back from its text.
use scbl.Prelude.{
  ℕ, ◌^◌, ◌<◌, ◌≡◌, ◌==◌, refl, false, List, [], ◌∷◌, ◌++◌, append-nil, append_assoc, map, none,
  some, ok, All, All-append, Bool-cases, inl, inr, arith,
}
use scbl.Text.{to_decimal, join}
use scbl.Text.Laws.{
  parse_unsigned-to_decimal, to_decimal-IsDigit, Lacks, digits-Lacks, split_once-append, split-join,
}
use scbl.Types.Url.{
  Params, StationUrl, text_eq, param, set_param, without, add_entry, entries_of, collect,
  address_key, port_key, url_of_params, url_of, url_from_str, entry_to_string, all_params,
  url_to_string,
}

-- The keys that are still to be set are new to the map so far.
abbrev pub AreUnset : Params → Params → Type 0
AreUnset m [] = Unit {0}
AreUnset m ((k, v) ∷ es) = (param k m ≡ none) × AreUnset (m ++ ((k, v) ∷ [])) es

-- A parameter that can be written: no equals sign in its key, and no semicolon.
abbrev pub IsEntry : List ℕ × List ℕ → Type 0
IsEntry (k, v) = Lacks 61 k × Lacks 59 k × Lacks 59 v

pub record IsUrl (url : StationUrl) : Type 0 where
  pub plain_scheme : Lacks 58 url.scheme
  pub word_port : url.port < 2 ^ 16
  pub plain_address : Lacks 59 url.address
  pub plain_params : All IsEntry url.params
  pub unset : AreUnset [] (all_params url)

set_param-new :
    (k v : List ℕ) (m : Params) → param k m ≡ none → set_param k v m ≡ m ++ ((k, v) ∷ [])
unfolding param set_param
set_param-new k v [] e = refl
set_param-new k v ((j, w) ∷ m) e = elim (Bool-cases (text_eq j k)) [
  | inl hit ↦ cc (rw hit at e)
  | inr miss ↦ rw (miss, set_param-new k v m (rw miss at e)) refl
]

collect-new : (m es : Params) → AreUnset m es → collect m es ≡ m ++ es
unfolding collect
collect-new m [] h = rw (append-nil m) refl
collect-new m ((k, v) ∷ es) h =
    rw
      (
        set_param-new k v m h.0,
        collect-new (m ++ ((k, v) ∷ [])) es h.1,
        append_assoc m ((k, v) ∷ []) es,
      )
      refl

entry-Lacks : (e : List ℕ × List ℕ) → IsEntry e → Lacks 59 (entry_to_string e)
entry-Lacks (k, v) h = All-append (λ x. (59 == x) ≡ false) k ((61 ∷ []) ++ v) h.1 (refl, h.2)

All-Lacks : (es : Params) → All IsEntry es → All (Lacks 59) (map entry_to_string es)
All-Lacks [] h = tt
All-Lacks (e ∷ es) h = (entry-Lacks e h.0, All-Lacks es h.1)

entries_back : (es : Params) → All IsEntry es → entries_of (map entry_to_string es) ≡ some es
unfolding entries_of add_entry
entries_back [] h = refl
entries_back ((k, v) ∷ es) h = rw (split_once-append 61 [] k v h.0.0, entries_back es h.1) refl

all_params-IsEntry : (url : StationUrl) → IsUrl url → All IsEntry (all_params url)
all_params-IsEntry url h = (
  (ground arith, ground arith, h.plain_address),
  (
    (
      ground arith,
      ground arith,
      digits-Lacks 59 (to_decimal url.port) (inr (omega arith)) (to_decimal-IsDigit url.port),
    ),
    h.plain_params,
  ),
)

params_back :
    (url : StationUrl) → IsUrl url → url_of_params url.scheme (some (all_params url)) ≡ ok url
unfolding url_of_params param without text_eq
params_back url h =
    rw
      (
        collect-new [] (all_params url) h.unset,
        parse_unsigned-to_decimal (2 ^ 16) url.port (omega arith) h.word_port,
      )
      refl

-- A station URL is parsed back from its text: it has a scheme without a colon, a 16-bit port, an
-- address and parameters without semicolons, and keys that have no equals sign, are distinct and are
-- neither "address" nor "port".
pub url_from_str-url_to_string :
    (url : StationUrl) → IsUrl url → url_from_str (url_to_string url) ≡ ok url
unfolding url_from_str url_to_string url_of
url_from_str-url_to_string url h =
    let entries = all_params-IsEntry url h in
    let parts =
      split-join 59 (entry_to_string (address_key, url.address))
        (entry_to_string (port_key, to_decimal url.port) ∷ map entry_to_string url.params)
        (All-Lacks (all_params url) entries) in
    rw
      (
        split_once-append 58 (47 ∷ []) url.scheme (join 59 (map entry_to_string (all_params url)))
            h.plain_scheme,
        parts,
        entries_back (all_params url) entries,
      )
      (params_back url h)
