-- ===== src/Tasks/Filters/Marks.antt =====
-- The placeholders and the arguments of the conditions that FindByUser of
-- app/internal/tasks/repository/postgres/postgres.go builds.
use tasks_service.Prelude.{
  ℕ, ◌≡◌, refl, of_some, subst, Bool, true, false, Bool-cases, Option-cases, inl, inr, ◌==◌, String,
  Option, none, some, List, [], ◌∷◌, ◌++◌, ◌<>◌, All, any, length, split, arith, eq_iff,
  if◌then◌else◌,
}
use tasks_service.Api.Filter.{Field}
use tasks_service.Utils.Operator.{get_sql_operator}
use tasks_service.Tasks.Filters.{
  Arg, Built, Where, allowed_columns, is_allowed, replace_marks, count_marks, take_args, attach,
  between, sql_condition, field_condition, add_built, build_filter_conditions,
}

-- What comes out of the comparisons of GetSQLOperator.
abbrev comparisons : List String
comparisons = "=" ∷ "<" ∷ ">" ∷ "<=" ∷ ">=" ∷ []

abbrev marks : String → ℕ
marks c = count_marks (replace_marks c)

-- The conditions on a column have as many placeholders as arguments.
abbrev IsMarked : String → Type 0
IsMarked name =
    (marks (("t." <> name) <> " ILIKE $%d") ≡ 1)
    × (marks (("t." <> name) <> " BETWEEN $%d AND $%d") ≡ 2)
    × All (λ op. marks (("t." <> name) <> " " <> op <> " $%d") ≡ 1) comparisons

allowed_columns-IsMarked : All IsMarked allowed_columns
unfolding count_marks replace_marks
allowed_columns-IsMarked = omega arith

All-any {κ} :
    (P : String → Type κ) (name : String) (xs : List String)
    → All P xs
    → any (λ c. name == c) xs ≡ true
    → P name
unfolding any
All-any P name [] h e = cc
All-any P name (x ∷ xs) h e = ground (arith, eq_iff name x, All-any P name xs h.1)

pick :
    (P : String → Type 0) (b : Bool) (a s : String) (r : Option String)
    → P a
    → (r ≡ some s → P s)
    → (if b then some a else r) ≡ some s
    → P s
pick P true a s r p k h = subst P (of_some h) p
pick P false a s r p k h = k h

-- What holds of each operator of SQL holds of what GetSQLOperator returns.
operator_cases :
    (P : String → Type 0) (op s : String)
    → P "="
    → P "<"
    → P ">"
    → P "<="
    → P ">="
    → P "BETWEEN"
    → P "ILIKE"
    → get_sql_operator op ≡ some s
    → P s
unfolding get_sql_operator
operator_cases P op s eq lt gt le ge bounds like = pick P (op == "eq") "=" s _ eq (
    pick P (op == "lt") "<" s _ lt (
      pick P (op == "gt") ">" s _ gt (
        pick P (op == "lte") "<=" s _ le (
          pick P (op == "gte") ">=" s _ ge (
            pick P (op == "between") "BETWEEN" s _ bounds
              (pick P (op == "like") "ILIKE" s _ like λ h. cc))))))

take_args-append : (xs ys : List Arg) → take_args (length xs) (xs ++ ys) ≡ some (xs, ys)
unfolding take_args
take_args-append [] ys = refl
take_args-append (x ∷ xs) ys = rw (take_args-append xs ys) refl

abbrev HasMarks : Option (String × List Arg) → Type 0
HasMarks none = Unit {0}
HasMarks (some (c, args)) = marks c ≡ length args

-- The clause that a filter stands for, before the clauses of the others.
abbrev pub onto : Option (String × List Arg) → Where → Where
onto none w = w
onto (some (c, args)) w = (replace_marks c, args) ∷ w

module _ (parse_time : String → Option ℕ) where
  -- Each filter's clause, with the arguments of that filter.
  unfoldable pub clauses : List Field → Where
  clauses [] = []
  clauses (f ∷ fs) = onto (field_condition parse_time f) (clauses fs)

  between-HasMarks :
      (col : String) (parts : List String)
      → marks (col <> " BETWEEN $%d AND $%d") ≡ 2
      → HasMarks (between parse_time col parts)
  between-HasMarks col [] h = tt
  between-HasMarks col (a ∷ []) h = tt
  between-HasMarks col (a ∷ b ∷ []) h = h
  between-HasMarks col (a ∷ b ∷ c ∷ rest) h = tt

  sql_condition-HasMarks :
      (name op s value : String)
      → IsMarked name
      → get_sql_operator op ≡ some s
      → HasMarks (sql_condition parse_time ("t." <> name) s value)
  unfolding sql_condition
  sql_condition-HasMarks name op s value
        (like, bounds, (equal, (less, (more, (at_most, (at_least, end)))))) =
      operator_cases (λ o. HasMarks (sql_condition parse_time ("t." <> name) o value)) op s equal
        less more at_most at_least (between-HasMarks ("t." <> name) (split 58 value) bounds) like

  field_condition-HasMarks : (f : Field) → HasMarks (field_condition parse_time f)
  unfolding field_condition
  field_condition-HasMarks f = elim (Bool-cases (is_allowed f.name)) [
    | inl allowed ↦ elim (Option-cases (get_sql_operator f.operator)) [
      | inl none' ↦ rw (allowed, none') tt
      | inr (s, e) ↦
          rw (allowed, e)
            (sql_condition-HasMarks f.name f.operator s f.value
              (All-any IsMarked f.name allowed_columns allowed_columns-IsMarked allowed) e)
    ]
    | inr refused ↦ rw refused tt
  ]

  attach-add_built :
      (o : Option (String × List Arg)) (b : Built) (w : Where)
      → HasMarks o
      → attach b.conditions b.args ≡ some w
      → attach (add_built parse_time o b).conditions (add_built parse_time o b).args
        ≡ some (onto o w)
  unfolding attach
  attach-add_built none b w m h = h
  attach-add_built (some (c, args)) b w m h = rw (m, take_args-append args b.args, h) refl

  -- FindByUser gives each clause the arguments of its own filter, and no slice of the arguments is
  -- out of range: every filter on an allowed column with a known operator and a value that fits it
  -- is a clause of the query, in the order of the filters, and no other filter is.
  pub attach-build_filter_conditions :
      (fs : List Field)
      → attach
          (build_filter_conditions parse_time fs).conditions
          (build_filter_conditions parse_time fs).args
        ≡ some (clauses fs)
  unfolding build_filter_conditions clauses
  attach-build_filter_conditions [] = unfold attach in refl
  attach-build_filter_conditions (f ∷ fs) =
      attach-add_built (field_condition parse_time f) (build_filter_conditions parse_time fs)
        (clauses fs) (field_condition-HasMarks f) (attach-build_filter_conditions fs)
