-- ===== src/Tasks/Filtered.antt =====
-- What is left of the tasks after they have been filtered by tags.
use mathlib.Core.Path.{sym, ap, ap₂, ◌∙◌}
use locust.Base.{
  ℕ, ◌≡◌, refl, Bool, Option, none, some, List, [], ◌||◌, arith, length, ltb, Option-cases, inl,
  inr, ◌⊎◌,
}
use locust.Base.Dict.{lookup, lookup-insert}
use locust.Tasks.{
  Task, plain, task_set, Tasks, nil, cons, id_of, passes_tags, Filtering, keep_if, recall,
  check_task, filter_tasks, filter_tasks_by_tags,
}

module _ (tags exclude_tags : Option (List ℕ)) where
  -- Without a store: a task passes by its tags, a task set where one of its tasks passes or it is a
  -- Markov task set.
  unfoldable mutual
    unfolding passes_tags

    pub passes : Task → Bool
    passes (plain id own) = passes_tags tags exclude_tags own
    passes (task_set id markov tasks) = ltb 0 (length (remaining tasks)) || markov

    pub remaining : Tasks → List ℕ
    remaining nil = []
    remaining (cons task tasks) = keep_if (passes task) (id_of task) (remaining tasks)

  -- The same task has the same verdict wherever it stands, and the same tasks: `verdict` and `left`
  -- say which.
  unfoldable mutual
    unfolding passes remaining

    pub IsSame : (verdict : ℕ → Bool) (left : ℕ → List ℕ) → Task → Type 0
    IsSame verdict left (plain id own) = passes (plain id own) ≡ verdict id
    IsSame verdict left (task_set id markov tasks) =
        (passes (task_set id markov tasks) ≡ verdict id)
        × (remaining tasks ≡ left id)
        × AreSame verdict left tasks

    pub AreSame : (verdict : ℕ → Bool) (left : ℕ → List ℕ) → Tasks → Type 0
    AreSame verdict left nil = Unit
    AreSame verdict left (cons task tasks) = IsSame verdict left task × AreSame verdict left tasks

  -- What the store says is right.
  abbrev pub IsRight : (verdict : ℕ → Bool) (left : ℕ → List ℕ) → Filtering → Type 0
  IsRight verdict left s =
      ((id : ℕ) (b : Bool) → lookup id s.checked ≡ some b → b ≡ verdict id)
      × ((id : ℕ) (ids : List ℕ) → lookup id s.assigned ≡ some ids → ids ≡ left id)

  IsSame-passes :
      (verdict : ℕ → Bool) (left : ℕ → List ℕ) (task : Task)
      → IsSame verdict left task
      → passes task ≡ verdict (id_of task)
  unfolding IsSame
  IsSame-passes verdict left (plain id own) h = h
  IsSame-passes verdict left (task_set id markov tasks) h = h.0

  recall_lem :
      (verdict : ℕ → Bool) (left : ℕ → List ℕ) (id : ℕ) (s : Filtering) (found : Bool × Filtering)
      → IsRight verdict left s
      → (found.0 ≡ verdict id) × IsRight verdict left found.1
      → ((recall id s found).0 ≡ verdict id) × IsRight verdict left (recall id s found).1
  recall_lem verdict left id s found r f = elim (Option-cases (lookup id s.checked)) [
    | inr (b, e) ↦ rw (e, recall) (r.0 id b e, r)
    | inl e ↦
        rw (e, recall)
          (
            f.0,
            (
              λ j b h.
                  ground (arith, lookup-insert j id found.0 found.1.checked, h, f.0, f.1.0 j b),
              f.1.1,
            ),
          )
  ]

  mutual
    unfolding check_task filter_tasks passes remaining IsSame AreSame

    check_task_lem :
        (verdict : ℕ → Bool) (left : ℕ → List ℕ) (task : Task) (s : Filtering)
        → IsSame verdict left task
        → IsRight verdict left s
        → ((check_task tags exclude_tags task s).0 ≡ verdict (id_of task))
          × IsRight verdict left (check_task tags exclude_tags task s).1
    check_task_lem verdict left (plain id own) s h r = (h, r)
    check_task_lem verdict left (task_set id markov tasks) s h r =
        let (e, r') = filter_tasks_lem verdict left tasks s h.2 r in
        let kept = (filter_tasks tags exclude_tags tasks s).0 in
        let s' = (filter_tasks tags exclude_tags tasks s).1 in
        (
          ap (λ ids. ltb 0 (length ids) || markov) e ∙ h.0,
          (
            r'.0,
            λ j ids g. ground (arith, lookup-insert j id kept s'.assigned, g, e, h.1, r'.1 j ids),
          ),
        )

    filter_tasks_lem :
        (verdict : ℕ → Bool) (left : ℕ → List ℕ) (tasks : Tasks) (s : Filtering)
        → AreSame verdict left tasks
        → IsRight verdict left s
        → ((filter_tasks tags exclude_tags tasks s).0 ≡ remaining tasks)
          × IsRight verdict left (filter_tasks tags exclude_tags tasks s).1
    filter_tasks_lem verdict left nil s h r = (refl, r)
    filter_tasks_lem verdict left (cons task tasks) s h r =
        let first =
          recall_lem verdict left (id_of task) s (check_task tags exclude_tags task s) r
            (check_task_lem verdict left task s h.0 r) in
        let s' = (recall (id_of task) s (check_task tags exclude_tags task s)).1 in
        let (e, r') = filter_tasks_lem verdict left tasks s' h.1 first.1 in
        (
          ap₂ (λ b ids. keep_if b (id_of task) ids)
              (first.0 ∙ sym (IsSame-passes verdict left task h.0)) e,
          r',
        )

  -- Filtering with the dict of the tasks that were checked, where the same task has the same content
  -- wherever it stands, keeps exactly the tasks that filtering without it keeps, in their order: a
  -- task by its tags, and a task set of which something is left or that is a Markov task set. A
  -- task set that was assigned anything was assigned what is left of its own tasks.
  pub filter_tasks_by_tags-remaining :
      (verdict : ℕ → Bool) (left : ℕ → List ℕ) (tasks : Tasks) (id : ℕ)
      → AreSame verdict left tasks
      → let (kept, s) = filter_tasks_by_tags tags exclude_tags tasks in
        (kept ≡ remaining tasks)
        × ((lookup id s.assigned ≡ none) ⊎ (lookup id s.assigned ≡ some (left id)))
  unfolding filter_tasks_by_tags
  filter_tasks_by_tags-remaining verdict left tasks id h =
      let s : Filtering = record { checked = []; assigned = [] } in
      let (e, r) =
        filter_tasks_lem verdict left tasks s h
          (λ j b g. ground (arith, g), λ j ids g. ground (arith, g)) in
      (
        e,
        elim (Option-cases (lookup id (filter_tasks tags exclude_tags tasks s).1.assigned)) [
          | inl unknown ↦ inl unknown
          | inr (ids, known) ↦ inr (known ∙ ap (λ l. some l) (r.1 id ids known))
        ],
      )
