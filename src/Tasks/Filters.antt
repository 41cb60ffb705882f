-- ===== src/Tasks/Filters.antt =====
-- The conditions that FindByUser of app/internal/tasks/repository/postgres/postgres.go builds from
-- the filters of a request.
pub mod Marks
use Prim.Native.Char.{code}
use Prim.Native.String
use tasks_service.Prelude.{
  ℕ, zero, suc, ◌+◌, Bool, true, false, ◌==◌, ◌&&◌, String, Option, none, some, List, [], ◌∷◌, ◌++◌,
  ◌<>◌, any, nat_eq, split, if◌then◌else◌, ◌>>=◌,
}
use mathlib.Core.Option
use tasks_service.Api.Filter.{Field}
use tasks_service.Utils.Operator.{get_sql_operator}

-- An argument of the query.
pub data Arg : Type 0 where
  text : String → Arg
  time : ℕ → Arg

abbrev pub allowed_columns : List String
allowed_columns =
    "title" ∷ "description" ∷ "status" ∷ "priory" ∷ "due_date" ∷ "created_at" ∷ "tag_id" ∷ []

abbrev pub is_allowed : String → Bool
is_allowed name = any (λ c. name == c) allowed_columns

-- Both results of the loop of buildFilterConditions.
pub record Built : Type 0 where
  pub conditions : List String
  pub args : List Arg

-- The appends of one round.
abbrev pub with_built : String → List Arg → Built → Built
with_built c args b = record { conditions = c ∷ b.conditions; args = args ++ b.args }

-- strings.ReplaceAll(cond, "$%d", "?")
unfoldable pub replace_marks : String → String
replace_marks String.[] = String.[]
replace_marks (String.◌∷◌ c String.[]) = String.◌∷◌ c String.[]
replace_marks (String.◌∷◌ c (String.◌∷◌ d String.[])) = String.◌∷◌ c (String.◌∷◌ d String.[])
replace_marks (String.◌∷◌ c (String.◌∷◌ d (String.◌∷◌ e s))) =
    let here = String.◌∷◌ "?" (replace_marks s) in
    let later = String.◌∷◌ c (replace_marks (String.◌∷◌ d (String.◌∷◌ e s))) in
    if nat_eq (code c) 36 && (nat_eq (code d) 37 && nat_eq (code e) 100) then here else later

-- strings.Count(resolved, "?")
unfoldable pub count_marks : String → ℕ
count_marks String.[] = 0
count_marks (String.◌∷◌ c s) =
    let rest = count_marks s in if nat_eq (code c) 63 then suc rest else rest

-- `args[:n]` and `args[n:]`; none where the slice is out of range, which panics.
unfoldable pub take_args : ℕ → List Arg → Option (List Arg × List Arg)
take_args zero args = some ([], args)
take_args (suc n) [] = none
take_args (suc n) (a ∷ args) =
    Option.map (λ (p : List Arg × List Arg). (a ∷ p.0, p.1)) (take_args n args)

abbrev pub Where : Type 0
Where = List (String × List Arg)

-- The loop of FindByUser over the conditions: the clauses `WHERE`, each with its arguments.
unfoldable pub attach : List String → List Arg → Option Where
attach [] args = some []
attach (c ∷ cs) args =
    take_args (count_marks (replace_marks c)) args >>= λ (p : List Arg × List Arg).
    attach cs p.1 >>= λ more. some ((replace_marks c, p.0) ∷ more)

-- `parse_time` reads a time in one of the three formats that `parseValue` tries.
module _ (parse_time : String → Option ℕ) where
  unfoldable pub parse_value : String → Arg
  parse_value value = elim (parse_time value) [ none ↦ text value | some t ↦ time t ]

  abbrev pub between : String → List String → Option (String × List Arg)
  between col (a ∷ b ∷ []) =
      some (col <> " BETWEEN $%d AND $%d", parse_value a ∷ parse_value b ∷ [])
  between col parts = none

  -- The `switch` on the operator of SQL.
  unfoldable pub sql_condition : String → String → String → Option (String × List Arg)
  sql_condition col op value =
      if op == "ILIKE"
      then some (col <> " ILIKE $%d", text ("%" <> value <> "%") ∷ [])
      else if op == "BETWEEN"
      then between col (split 58 value)
      else some (col <> " " <> op <> " $%d", parse_value value ∷ [])

  -- One round of the loop: the condition and its arguments, or none where it adds nothing.
  unfoldable pub field_condition : Field → Option (String × List Arg)
  field_condition f =
      if is_allowed f.name
      then (get_sql_operator f.operator >>= λ op. sql_condition ("t." <> f.name) op f.value)
      else none

  abbrev pub add_built : Option (String × List Arg) → Built → Built
  add_built none b = b
  add_built (some (c, args)) b = with_built c args b

  unfoldable pub build_filter_conditions : List Field → Built
  build_filter_conditions [] = record { conditions = []; args = [] }
  build_filter_conditions (f ∷ fs) = add_built (field_condition f) (build_filter_conditions fs)
