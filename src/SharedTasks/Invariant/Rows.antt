-- ===== src/SharedTasks/Invariant/Rows.antt =====
-- The well-formedness of the tables of shared tasks, and that every request keeps it.
use tasks_service.Prelude.{
  ◌≡◌, ◌≢◌, refl, Bool, true, false, List, [], ◌∷◌, ◌++◌, ◌==◌, arith, eq_iff, All, any, any-append,
  ap, subst, sym, ◌∙◌, Bool-cases, inl, inr, any-update_where, any-select-false, update_where,
  select,
}
use tasks_service.SharedTasks.Domain.{is_valid}
use tasks_service.SharedTasks.Tables.{Tables, TaskRow, SubtaskRow, has_id}

-- No two rows share an id.
abbrev pub HaveDistinctIds : List TaskRow → Type 0
HaveDistinctIds [] = Unit
HaveDistinctIds (r ∷ rest) = (any (has_id r.id) rest ≡ false) × HaveDistinctIds rest

abbrev pub HasTwoUsers : TaskRow → Type 0
HasTwoUsers r = r.proposer_id ≢ r.addressee_id

abbrev pub HasValidStatus : TaskRow → Type 0
HasValidStatus r = is_valid r.status ≡ true

abbrev pub HasTask : List TaskRow → SubtaskRow → Type 0
HasTask tasks s = any (has_id s.shared_task_id) tasks ≡ true

pub record IsWellFormed (t : Tables) : Type 0 where
  pub distinct_ids : HaveDistinctIds t.tasks
  pub two_users : All HasTwoUsers t.tasks
  pub valid_status : All HasValidStatus t.tasks
  pub owned : All (HasTask t.tasks) t.subtasks

pub HaveDistinctIds-append_one :
    (xs : List TaskRow) (r : TaskRow)
    → any (has_id r.id) xs ≡ false
    → HaveDistinctIds xs
    → HaveDistinctIds (xs ++ r ∷ [])
unfolding any
HaveDistinctIds-append_one [] r h d = (refl, tt)
HaveDistinctIds-append_one (x ∷ xs) r h d = ground (
  arith,
  eq_iff x.id r.id,
  eq_iff r.id x.id,
  any-append (has_id x.id) xs (r ∷ []),
  HaveDistinctIds-append_one xs r,
)

pub HaveDistinctIds-update_where :
    (p : TaskRow → Bool) (f : TaskRow → TaskRow) (xs : List TaskRow)
    → ((x : TaskRow) → (f x).id ≡ x.id)
    → HaveDistinctIds xs
    → HaveDistinctIds (update_where p f xs)
unfolding update_where
HaveDistinctIds-update_where p f [] same d = tt
HaveDistinctIds-update_where p f (x ∷ xs) same d =
    let rest = HaveDistinctIds-update_where p f xs same d.1 in
    let absent : any (has_id x.id) (update_where p f xs) ≡ false =
      any-update_where (has_id x.id) p f xs (λ y. ap (λ i. i == x.id) (same y)) ∙ d.0 in
    elim (Bool-cases (p x)) [
      | inl e ↦
          rw e
            (subst (λ i. any (has_id i) (update_where p f xs) ≡ false) (sym (same x)) absent, rest)
      | inr e ↦ rw e (absent, rest)
    ]

pub HaveDistinctIds-select :
    (p : TaskRow → Bool) (xs : List TaskRow) → HaveDistinctIds xs → HaveDistinctIds (select p xs)
unfolding select
HaveDistinctIds-select p [] d = tt
HaveDistinctIds-select p (x ∷ xs) d =
    ground (arith, any-select-false p (has_id x.id) xs d.0, HaveDistinctIds-select p xs d.1)
