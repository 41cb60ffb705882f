-- ===== src/Api/Sort.antt =====
-- app/pkg/api/sort/middleware.go: the sort options of a request.
use Prim.Native.Char.{Char, code}
use tasks_service.Prelude.{
  ◌==◌, String, Option, none, some, List, [], ◌∷◌, ◌||◌, nat_eq, if◌then◌else◌,
}

-- `r.URL.Query()` in the order in which a loop over the map meets the keys.
abbrev pub Query : Type 0
Query = List (String × List String)

abbrev pub first_value : List String → String
first_value [] = ""
first_value (v ∷ rest) = v

-- `Query().Get(name)`
unfoldable pub query_get : String → Query → String
query_get name [] = ""
query_get name ((key, values) ∷ rest) =
    if key == name then first_value values else query_get name rest

-- The letter at the same place of the second text.
unfoldable pub letter_at : String → String → Char → Char
letter_at (String.◌∷◌ l low) (String.◌∷◌ u up) c =
    let rest = letter_at low up c in if nat_eq (code l) (code c) then u else rest
letter_at String.[] up c = c
letter_at (String.◌∷◌ l low) String.[] c = c

-- strings.ToUpper on ASCII, with the two other characters whose upper case is ASCII. What it makes
-- of the rest is not ASCII, and is left as it is.
unfoldable pub to_upper : String → String
to_upper String.[] = String.[]
to_upper (String.◌∷◌ c s) =
    String.◌∷◌ (letter_at "abcdefghijklmnopqrstuvwxyzıſ" "ABCDEFGHIJKLMNOPQRSTUVWXYZIS" c)
      (to_upper s)

pub record Options : Type 0 where
  pub fields : String
  pub order : String

abbrev or_default : String → String → String
or_default value fallback = if value == "" then fallback else value

-- The options that the handler finds in its context; none is the reply "bad sort order" with 400.
unfoldable pub sort_options : String → String → Query → Option Options
sort_options default_fields default_order q =
    let fields = or_default (query_get "sort_by" q) default_fields in
    let order = to_upper (query_get "sort_order" q) in
    if query_get "sort_order" q == ""
    then some (record { fields = fields; order = default_order })
    else if order == "ASC" || order == "DESC"
    then some (record { fields = fields; order = order })
    else none
