-- ===== src/Api/Filter.antt =====
-- app/pkg/api/filter/middleware.go: the filters of a request.
use tasks_service.Prelude.{
  ℕ, ◌≡◌, refl, ap, String, Option, none, some, List, [], ◌∷◌, ◌++◌, ◌<>◌, cut, cut-append, Lacks,
}
use tasks_service.Api.Sort.{Query}

pub record Field : Type 0 where
  pub name : String
  pub value : String
  pub operator : String

-- The zero limit is no limit.
pub record FilterOption : Type 0 where
  pub fields : List Field
  pub limit : ℕ

-- A value without a ":" is passed over.
abbrev pub add_field : String → Option (String × String) → List Field → List Field
add_field key none rest = rest
add_field key (some (op, value)) rest = record { name = key; value = value; operator = op } ∷ rest

-- strings.SplitN(value, ":", 2) for each value of a key
unfoldable pub fields_of : String → List String → List Field
fields_of key [] = []
fields_of key (value ∷ values) = add_field key (cut 58 value) (fields_of key values)

-- The filters that the handler finds in its context.
unfoldable pub filters : Query → List Field
filters [] = []
filters ((key, values) ∷ rest) = fields_of key values ++ filters rest

-- A filter as a client writes it.
abbrev pub parameter : Field → String × List String
parameter f = (f.name, (f.operator <> String.◌∷◌ ":" f.value) ∷ [])

abbrev pub parameters : List Field → Query
parameters [] = []
parameters (f ∷ fs) = parameter f ∷ parameters fs

abbrev pub IsWritable : List Field → Type 0
IsWritable [] = Unit {0}
IsWritable (f ∷ fs) = Lacks 58 f.operator × IsWritable fs

-- The middleware reads back the filters that a client wrote, whatever their values, if no operator
-- has a ":".
pub filters-parameters : (fs : List Field) → IsWritable fs → filters (parameters fs) ≡ fs
unfolding filters fields_of
filters-parameters [] h = refl
filters-parameters (f ∷ fs) h =
    rw (cut-append ":" f.operator f.value h.0) (ap (◌∷◌ f) (filters-parameters fs h.1))
