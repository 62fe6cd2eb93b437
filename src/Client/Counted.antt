-- ===== src/Client/Counted.antt =====
-- What a request adds to the statistics: the listener of `Runner.__init__` of locust/runners.py.
use locust.Base.{ℕ, ◌≡◌, ap, ◌∙◌, Option, none, some, List, [], ◌∷◌, arith}
use mathlib.Core.Path.{subst}
use locust.Client.{Fault, Meta, unset, Response, Action, Done, with_block}
use locust.Client.Reported.{last_mark, verdict, cause, status_of, IsFresh, with_block-verdict}
use locust.Stats.Entry.{StatsEntry, second}
use locust.Stats.Entry.Represents.{Event, request, failure}
use locust.Stats.Requests.{RequestStats, find, log_request, log_failure}
use locust.Stats.Requests.Stands.{Each, Stood, Stands, set, log_request-Stands, log_failure-Stands}

-- What is logged for a request, the last event first: the request, and its failure if there is an
-- exception.
abbrev pub logged : (now now' : ℕ) → Meta → Option Fault → List Event → List Event
logged now now' m none es = request (second now) (some m.response_time) m.response_length ∷ es
logged now now' m (some f) es =
    failure (second now') ∷ request (second now) (some m.response_time) m.response_length ∷ es

Stood-eq : {es fs : List Event} (o : Option StatsEntry) → es ≡ fs → Stood es o → Stood fs o
Stood-eq o e h = subst (λ x. Stood x o) e h

Stands-each :
    (all : List Event) (each each' : Each) (s : RequestStats)
    → ((n m : ℕ) → each n m ≡ each' n m)
    → Stands all each s
    → Stands all each' s
Stands-each all each each' s e h = record {
  total = h.total;
  entries = λ n m. Stood-eq (find n m s.entries) (e n m) (h.entries n m);
}

set_twice :
    (name method : ℕ) (es fs : List Event) (each : Each) (n m : ℕ)
    → set name method es (set name method fs each) n m ≡ set name method es each n m
set_twice name method es fs each n m = ground arith

set_self :
    (name method : ℕ) (fs : List Event) (each : Each) → set name method fs each name method ≡ fs
set_self name method fs each = ground arith

module _ (create_key : ℕ → ℕ → ℕ → ℕ) (text : Fault → ℕ) (at at' : ℕ → ℕ) where
  -- `on_request`; the clock is read by the two calls.
  unfoldable pub on_request : Meta → RequestStats → RequestStats
  on_request m s =
      let logged =
        log_request at m.request_type m.name (some m.response_time) m.response_length s in
      elim m.exception [
        | none ↦ logged
        | some f ↦ log_failure create_key at' m.request_type m.name (text f) logged
      ]

  abbrev pub on_requests : List Meta → RequestStats → RequestStats
  on_requests [] s = s
  on_requests (m ∷ ms) s = on_requests ms (on_request m s)

  on_request-Stands :
      (m : Meta) (e : Option Fault) (all : List Event) (each : Each) (s : RequestStats)
      → Stands all each s
      → Stands
          (logged (at 0) (at' 0) m e all)
          (set m.name m.request_type (logged (at 3) (at' 3) m e (each m.name m.request_type)) each)
          (on_request (record m { exception = e }) s)
  unfolding on_request
  on_request-Stands m none all each s h =
      log_request-Stands at m.request_type m.name _ m.response_length all each s h
  on_request-Stands m (some f) all each s h =
      let asked = logged (at 3) (at' 3) m none (each m.name m.request_type) in
      Stands-each _ _ _ _
        (λ n k.
          set_twice m.name m.request_type _ asked each n k
          ∙ ap (λ x. set m.name m.request_type (failure (second (at' 3)) ∷ x) each n k)
              (set_self m.name m.request_type asked each))
        (log_failure-Stands create_key at' m.request_type m.name (text f) _ _ _
          (log_request-Stands at m.request_type m.name _ m.response_length all each s h))

  -- Of statistics that stand for some events, and a response that its request has just given for a
  -- with-block which has a verdict, where `requests` raises nothing but a RequestException: after the block, the statistics stand for the request too, and
  -- for its failure where the verdict is an exception, under the name and the method of the request
  -- and in the total, and for nothing else.
  pub with_block-Stands :
      (actions : List Action) (ending : Option Fault) (r : Response) (e : Option Fault)
      (all : List Event) (each : Each) (s : RequestStats)
      → IsFresh r
      → verdict (last_mark unset actions) ending (cause (status_of r)) ≡ some e
      → Stands all each s
      → let m = r.request_meta in
        Stands
          (logged (at 0) (at' 0) m e all)
          (set m.name m.request_type (logged (at 3) (at' 3) m e (each m.name m.request_type)) each)
          (on_requests (Done.reports (with_block actions ending r)) s)
  with_block-Stands actions ending r e all each s h v k =
      rw ((with_block-verdict actions ending r h).0, v)
        (on_request-Stands r.request_meta e all each s k)
