-- ===== src/Stats/Requests/Exchange.antt =====
-- A report from a worker to the master, in locust/stats.py: `on_report_to_master` on the worker,
-- then `on_worker_report` on the master.
use mathlib.Core.Path.{subst, sym}
use mathlib.Core.List.{append-nil}
use locust.Base.{
  ℕ, suc, ◌+◌, ◌≡◌, refl, true, false, List, [], ◌∷◌, ◌++◌, ◌==◌, ◌&&◌, inl, inr, Bool-cases,
}
use locust.Stats.Entry.{StatsEntry, serialize, unserialize, get_stripped_report, reset}
use locust.Stats.Entry.Represents.{Event, Represents}
use locust.Stats.Entry.Reports.{report-Represents, reset-Represents, extend-Represents}
use locust.Stats.Requests.{
  Entries, find, is_idle, RequestStats, strip_entries, merge_entry, merge_entries,
  on_report_to_master, on_worker_report,
}
use locust.Stats.Requests.Stands.{Each, Stood, Stands, set}
use locust.Stats.Requests.Keys.{
  IsEntries, idle_lem, Stood-eq, find_self, find-other, same_key, set_append, set_empty,
  merge_entry-Stood, merge_under, head-Represents, tail-Stood,
}

module _ (at : ℕ → ℕ) (i name method : ℕ) (e : StatsEntry) (es : Entries) where
  strip_idle :
      is_idle e ≡ true
      → strip_entries at i ((name, method, e) ∷ es)
        ≡ ((strip_entries at i es).0, (name, method, e) ∷ (strip_entries at i es).1)
  unfolding strip_entries
  strip_idle h = rw h refl

  strip_busy :
      is_idle e ≡ false
      → strip_entries at i ((name, method, e) ∷ es) ≡ (
        serialize e ∷ (strip_entries at (i + 2) es).0,
        (name, method, reset (at i) (at (i + 1)) e) ∷ (strip_entries at (i + 2) es).1,
      )
  unfolding strip_entries get_stripped_report
  strip_busy h = rw h refl

cons-Stood :
    (name method : ℕ) (e : StatsEntry) (es : Entries)
    → Represents [] e
    → ((n m : ℕ) → Stood [] (find n m es))
    → (n m : ℕ) → Stood [] (find n m ((name, method, e) ∷ es))
cons-Stood name method e es r h n m = elim (Bool-cases (n == name && m == method)) [
  | inl same ↦
      let (sn, sm) = same_key n m name method same in
      rw (sn, sm) (subst (Stood []) (sym (find_self name method e es)) r)
  | inr other ↦ subst (Stood []) (sym (find-other n m name method e es other)) (h n m)
]

-- The worker's entries after the report.
left-Stood :
    (at : ℕ → ℕ) (i : ℕ) (entries : Entries) (f : Each)
    → IsEntries entries
    → ((n m : ℕ) → Stood (f n m) (find n m entries))
    → (n m : ℕ) → Stood [] (find n m (strip_entries at i entries).1)
unfolding strip_entries find
left-Stood at i [] f v h n m = refl
left-Stood at i ((name, method, e) ∷ es) f v h n m =
    let f' = set name method [] f in
    let tail = tail-Stood f name method e es h v.2 in
    elim (Bool-cases (is_idle e)) [
      | inl idle ↦ rw (strip_idle at i name method e es idle) (
          cons-Stood name method e (strip_entries at i es).1
            (subst (λ l. Represents l e)
              (idle_lem (f name method) e (head-Represents f name method e es h) idle)
              (head-Represents f name method e es h))
            (left-Stood at i es f' v.3 tail) n m)
      | inr busy ↦ rw (strip_busy at i name method e es busy) (
          cons-Stood name method (reset (at i) (at (i + 1)) e) (strip_entries at (i + 2) es).1
            (reset-Represents (at i) (at (i + 1)) e) (left-Stood at (i + 2) es f' v.3 tail) n m)
    ]

-- The master's entries after the report.
merged-Stood :
    (at : ℕ → ℕ) (i : ℕ) (entries : Entries) (at' : ℕ → ℕ → ℕ) (f g : Each) (mine : Entries)
    → IsEntries entries
    → ((n m : ℕ) → Stood (f n m) (find n m entries))
    → ((n m : ℕ) → Stood (g n m) (find n m mine))
    → (n m : ℕ)
    → Stood (g n m ++ f n m) (find n m (merge_entries at' (strip_entries at i entries).0 mine))
unfolding strip_entries merge_entries find
merged-Stood at i [] at' f g mine v h k n m =
    Stood-eq (g n m) (g n m ++ f n m) (find n m mine) (find n m mine)
      (sym (rw (h n m) (append-nil (g n m)))) refl (k n m)
merged-Stood at i ((name, method, e) ∷ es) at' f g mine v h k n m =
    let f' = set name method [] f in
    let tail = tail-Stood f name method e es h v.2 in
    let mine_of = head-Represents f name method e es h in
    elim (Bool-cases (is_idle e)) [
      | inl idle ↦
          let same = set_empty f name method n m (idle_lem (f name method) e mine_of idle) in
          let rest = merged-Stood at i es at' f' g mine v.3 tail k n m in
          rw (strip_idle at i name method e es idle) (
            subst
              (λ l.
                Stood (g n m ++ l) (find n m (merge_entries at' (strip_entries at i es).0 mine)))
              same rest)
      | inr busy ↦
          let g' = set name method (g name method ++ f name method) g in
          let mine' = merge_entry (at' 0) (serialize e) mine in
          let later : ℕ → ℕ → ℕ = λ j. at' (suc j) in
          let merged : (n' m' : ℕ) → Stood (g' n' m') (find n' m' mine') =
            merge_under (at' 0) g mine (f name method) e name method v.0 v.1
              (merge_entry-Stood (at' 0) g mine (f name method) e mine_of k) in
          let rest = merged-Stood at (i + 2) es later f' g' mine' v.3 tail merged n m in
          rw (strip_busy at i name method e es busy) (
            subst
              (λ l. Stood l (find n m (merge_entries later (strip_entries at (i + 2) es).0 mine')))
              (set_append f g name method n m) rest)
    ]

-- Where the entries of a worker stand under their own names and methods, once each: when the
-- master has taken in the worker's report, it stands for what both stood for, in all and under
-- each name and method, and the worker stands for nothing. No event is lost or counted twice.
pub report-Stands :
    (at at' : ℕ → ℕ) (clock : ℕ → ℕ → ℕ) (all all' : List Event) (each each' : Each)
    (worker master : RequestStats)
    → IsEntries worker.entries
    → Stands all each worker
    → Stands all' each' master
    → let (report, left) = on_report_to_master at at' worker in
      Stands [] (λ n m. []) left
      × Stands (all' ++ all) (λ n m. each' n m ++ each n m) (on_worker_report clock report master)
unfolding on_report_to_master on_worker_report get_stripped_report
report-Stands at at' clock all all' each each' worker master v w k = (
  record {
    total = reset-Represents (at' 0) (at' 1) worker.total;
    entries = left-Stood at 0 worker.entries each v w.entries;
  },
  record {
    total =
        extend-Represents all' all master.total
          (unserialize (clock 0 0) (clock 0 1) (serialize worker.total)) k.total
          (report-Represents all (clock 0 0) (clock 0 1) worker.total w.total);
    entries =
        merged-Stood at 0 worker.entries (λ i. clock (suc i)) each each' master.entries v w.entries
          k.entries;
  },
)
