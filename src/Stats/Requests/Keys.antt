-- ===== src/Stats/Requests/Keys.antt =====
-- The keys of the entries of `RequestStats`, of locust/stats.py: how looking up, putting and taking
-- out of an entry change what is logged under each name and method.
use mathlib.Core.Path.{subst, sym}
use mathlib.Core.List.{append-nil}
use locust.Base.{
  ℕ, ◌≡◌, refl, true, false, Option, none, some, List, [], ◌∷◌, ◌++◌, arith, ◌==◌, ◌&&◌, inl, inr,
  Bool-cases,
}
use locust.Stats.Entry.{StatsEntry, new_entry, serialize, unserialize, extend, reset, cleared}
use locust.Stats.Entry.Represents.{Event, request, failure, Represents}
use locust.Stats.Entry.Reports.{report-Represents, extend-Represents}
use locust.Stats.Requests.{Entries, find, is_idle, merge_entry}
use locust.Stats.Requests.Stands.{Each, Stood, set, put-Stood, found-Represents}

-- Each entry stands under its own name and method, once.
abbrev pub IsEntries : Entries → Type 0
IsEntries [] = Unit
IsEntries ((name, method, e) ∷ es) =
    (StatsEntry.name e ≡ name)
    × (StatsEntry.method e ≡ method)
    × (find name method es ≡ none)
    × IsEntries es

pub idle_lem : (es : List Event) (e : StatsEntry) → Represents es e → is_idle e ≡ true → es ≡ []
idle_lem [] e r h = refl
idle_lem (request s t c ∷ es) e r h = absurd (ground (arith, r.requests, h))
idle_lem (failure s ∷ es) e r h = absurd (ground (arith, r.failures, h))

pub Stood-eq :
    (es es' : List Event) (o o' : Option StatsEntry) → es ≡ es' → o ≡ o' → Stood es o → Stood es' o'
Stood-eq es es' o o' e h s = subst (λ l. Stood l o') e (subst (Stood es) h s)

pub find_self :
    (name method : ℕ) (e : StatsEntry) (es : Entries)
    → find name method ((name, method, e) ∷ es) ≡ some e
unfolding find
find_self name method e es = ground arith

pub find-other :
    (n m name method : ℕ) (e : StatsEntry) (es : Entries)
    → (n == name && m == method) ≡ false
    → find n m ((name, method, e) ∷ es) ≡ find n m es
unfolding find
find-other n m name method e es h = ground arith

set_self :
    (n m name method : ℕ) (fs : List Event) (each : Each)
    → (n == name && m == method) ≡ true
    → set name method fs each n m ≡ fs
set_self n m name method fs each h = ground arith

set_other :
    (n m name method : ℕ) (fs : List Event) (each : Each)
    → (n == name && m == method) ≡ false
    → set name method fs each n m ≡ each n m
set_other n m name method fs each h = ground arith

pub same_key : (n m name method : ℕ) → (n == name && m == method) ≡ true → (n ≡ name) × (m ≡ method)
same_key n m name method h = (ground arith, ground arith)

module _ (each : Each) (name method : ℕ) (e : StatsEntry) (es : Entries)
    (h : (n m : ℕ) → Stood (each n m) (find n m ((name, method, e) ∷ es))) where
  pub head-Represents : Represents (each name method) e
  head-Represents = subst (Stood (each name method)) (find_self name method e es) (h name method)

  pub tail-Stood :
      find name method es ≡ none → (n m : ℕ) → Stood (set name method [] each n m) (find n m es)
  tail-Stood none_left n m = elim (Bool-cases (n == name && m == method)) [
    | inl same ↦
        let (sn, sm) = same_key n m name method same in
        Stood-eq [] (set name method [] each n m) none (find n m es)
          (sym (set_self n m name method [] each same)) (sym (rw (sn, sm) none_left)) refl
    | inr other ↦
        Stood-eq (each n m) (set name method [] each n m) (find n m ((name, method, e) ∷ es))
          (find n m es) (sym (set_other n m name method [] each other))
          (find-other n m name method e es other) (h n m)
  ]

-- What is kept under a key before, with what is under it after the head is taken out.
pub set_append :
    (f g : Each) (name method n m : ℕ)
    → set name method (g name method ++ f name method) g n m ++ set name method [] f n m
      ≡ g n m ++ f n m
set_append f g name method n m = elim (Bool-cases (n == name && m == method)) [
  | inl same ↦
      let (sn, sm) = same_key n m name method same in
      rw
        (
          set_self n m name method (g name method ++ f name method) g same,
          set_self n m name method [] f same,
          sn,
          sm,
        )
        (append-nil (g name method ++ f name method))
  | inr other ↦
      rw
        (
          set_other n m name method (g name method ++ f name method) g other,
          set_other n m name method [] f other,
        )
        refl
]

pub set_empty :
    (f : Each) (name method n m : ℕ) → f name method ≡ [] → set name method [] f n m ≡ f n m
set_empty f name method n m h = elim (Bool-cases (n == name && m == method)) [
  | inl same ↦
      let (sn, sm) = same_key n m name method same in
      rw (set_self n m name method [] f same, sn, sm) (sym h)
  | inr other ↦ set_other n m name method [] f other
]

-- One report merged into the master's entries.
pub merge_entry-Stood :
    (at : ℕ → ℕ) (g : Each) (mine : Entries) (fs : List Event) (e : StatsEntry)
    → Represents fs e
    → ((n m : ℕ) → Stood (g n m) (find n m mine))
    → (n m : ℕ)
    → Stood
        (set e.name e.method (g e.name e.method ++ fs) g n m)
        (find n m (merge_entry at (serialize e) mine))
unfolding merge_entry unserialize serialize new_entry reset cleared
merge_entry-Stood at g mine fs e r h =
    let entry = unserialize (at 0) (at 1) (serialize e) in
    let found : StatsEntry = elim (find e.name e.method mine) [
      | none ↦ new_entry (at 2) (at 3) e.name e.method true
      | some x ↦ x
    ] in
    put-Stood g mine e.name e.method (g e.name e.method ++ fs) (extend found entry)
      (extend-Represents (g e.name e.method) fs found entry
        (found-Represents (g e.name e.method) (find e.name e.method mine) (at 2) (at 3) e.name
          e.method true (h e.name e.method))
        (report-Represents fs (at 0) (at 1) e r))
      h

-- The name and the method of an entry are those it stands under.
pub merge_under :
    (at : ℕ → ℕ) (g : Each) (mine : Entries) (fs : List Event) (e : StatsEntry) (name method : ℕ)
    → e.name ≡ name
    → e.method ≡ method
    → ((n m : ℕ)
        → Stood
            (set e.name e.method (g e.name e.method ++ fs) g n m)
            (find n m (merge_entry at (serialize e) mine)))
    → (n m : ℕ)
    → Stood
        (set name method (g name method ++ fs) g n m)
        (find n m (merge_entry at (serialize e) mine))
merge_under at g mine fs e name method p q h n m =
    let o = find n m (merge_entry at (serialize e) mine) in
    subst (λ y. Stood (set name y (g name y ++ fs) g n m) o) q
      (subst (λ x. Stood (set x e.method (g x e.method ++ fs) g n m) o) p (h n m))
