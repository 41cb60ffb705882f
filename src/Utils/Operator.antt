-- ===== src/Utils/Operator.antt =====
-- app/pkg/utils/operator/operator.go
use tasks_service.Prelude.{String, Option, none, some, ◌==◌, if◌then◌else◌}

-- GetSQLOperator; none is its error.
unfoldable pub get_sql_operator : String → Option String
get_sql_operator op =
    if op == "eq"
    then some "="
    else if op == "lt"
    then some "<"
    else if op == "gt"
    then some ">"
    else if op == "lte"
    then some "<="
    else if op == "gte"
    then some ">="
    else if op == "between"
    then some "BETWEEN"
    else if op == "like"
    then some "ILIKE"
    else none
