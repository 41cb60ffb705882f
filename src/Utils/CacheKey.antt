-- ===== src/Utils/CacheKey.antt =====
-- app/pkg/utils/CacheKey/build.go: the keys under which lists of tasks are cached.
pub mod Order
use Prim.Native.Char.{Char}
use tasks_service.Prelude.{
  ℕ, zero, suc, ◌+◌, ◌/◌, ◌%◌, Bool, true, false, ◌&&◌, not, ◌==◌, String, List, [], ◌∷◌, ◌++◌, map,
  ◌<>◌, join, ltb, nat_eq, if◌then◌else◌,
}
use Prim.Native.String
use tasks_service.Api.Sort.{Options, to_upper}
use tasks_service.Api.Filter.{Field, FilterOption}

abbrev digit : ℕ → Char
digit n =
    if nat_eq n 0
    then "0"
    else if nat_eq n 1
    then "1"
    else if nat_eq n 2
    then "2"
    else if nat_eq n 3
    then "3"
    else if nat_eq n 4
    then "4"
    else if nat_eq n 5
    then "5"
    else if nat_eq n 6
    then "6"
    else if nat_eq n 7
    then "7"
    else if nat_eq n 8
    then "8"
    else "9"

-- The decimal digits of a number before `rest`; a number has fewer digits than its fuel.
unfoldable pub decimal : ℕ → ℕ → String → String
decimal zero n rest = rest
decimal (suc fuel) n rest =
    let more = decimal fuel (n / 10) (String.◌∷◌ (digit (n % 10)) rest) in
    if ltb n 10 then String.◌∷◌ (digit n) rest else more

abbrev pub show : ℕ → String
show n = decimal (n + 1) n ""

-- `%s:%s:%s`
abbrev pub field_part : Field → String
field_part f = f.name <> ":" <> f.operator <> ":" <> f.value

abbrev pub sort_part : Options → List String
sort_part o =
    if not (o.fields == "") && not (o.order == "")
    then ("sort:" <> o.fields <> ":" <> to_upper o.order) ∷ []
    else []

abbrev pub limit_part : ℕ → List String
limit_part limit = if ltb 0 limit then ("limit:" <> show limit) ∷ [] else []

-- `by_name` is `sort.Slice` with the order of the names: it sorts, and is free where names are
-- equal. An empty list of filters, which the code passes over, adds no part.
module _ (by_name : List Field → List Field) where
  unfoldable pub key_with : String → FilterOption → Options → String
  key_with base f o =
      join ";" (base ∷ (map field_part (by_name f.fields) ++ (sort_part o ++ limit_part f.limit)))

  unfoldable pub build_cache_key : String → FilterOption → Options → String
  build_cache_key user = key_with ("tasks:user:" <> user)

  unfoldable pub build_cache_key_with_tag : String → String → FilterOption → Options → String
  build_cache_key_with_tag user tag = key_with ("tasks:user:" <> user <> ":tag:" <> tag)
