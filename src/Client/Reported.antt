-- ===== src/Client/Reported.antt =====
-- What a request reports: once, and with the exception that the user of the client has asked for.
use locust.Base.{ℕ, ◌≡◌, refl, Bool, true, false, Option, none, some, List, [], ◌∷◌, ◌⊎◌, inl, inr}
use locust.Client.{
  Fault, response_error, catch_response_error, locust_error, request_exception, connection_error,
  connection_error_from, other_fault, is_request_exception, root_cause, Meta, Manual, unset,
  successful, failed, Response, raise_for_status, Exit, Answer, answered, meta_of, name_of, or_else,
  wrap_response, request, exit, Action, succeed, fail, fail_with, mark_of, run_body, Done, done,
  with_block,
}

-- What a call asks for: success, or failure with the exception, or with one for the text.
abbrev pub asked : Action → Manual
asked succeed = successful
asked (fail f) = failed f
asked (fail_with t) = failed (catch_response_error t)

pub asked_lem : (a : Action) → asked a ≡ mark_of a
asked_lem succeed = refl
asked_lem (fail f) = refl
asked_lem (fail_with t) = refl

-- The last mark of a block, if any.
unfoldable pub last_mark : Manual → List Action → Manual
last_mark m [] = m
last_mark m (a ∷ actions) = last_mark (asked a) actions

-- Whether a request is reported, and with which exception: as it was last marked; else by the
-- exception that leaves the block, which is only reported if it is a ResponseError; else by its
-- status.
unfoldable pub verdict :
    Manual → (ending : Option Fault) → (status : Option Fault) → Option (Option Fault)
verdict successful ending status = some none
verdict (failed f) ending status = some (some f)
verdict unset (some (response_error t)) status = some (some (response_error t))
verdict unset (some f) status = none
verdict unset none status = some status

abbrev pub reports_of : Meta → Option (Option Fault) → List Meta
reports_of m none = []
reports_of m (some e) = record m { exception = e } ∷ []

-- The exception goes on, but for a ResponseError that decides.
unfoldable pub goes_on : Manual → Option Fault → Option Fault
goes_on unset (some (response_error t)) = none
goes_on m ending = ending

abbrev pub cause : Option Fault → Option Fault
cause none = none
cause (some f) = some (root_cause f)

abbrev has_context : Fault → Bool
has_context (connection_error_from t c) = true
has_context f = false

-- The exception at the end of the contexts of an exception.
pub data IsRoot : Fault → Fault → Type 0 where
  itself : (f : Fault) → has_context f ≡ false → IsRoot f f
  behind : (t : ℕ) (c f : Fault) → IsRoot c f → IsRoot (connection_error_from t c) f

root_cause-IsRoot : (f : Fault) → IsRoot f (root_cause f)
unfolding root_cause
root_cause-IsRoot (response_error t) = itself _ refl
root_cause-IsRoot (catch_response_error t) = itself _ refl
root_cause-IsRoot locust_error = itself _ refl
root_cause-IsRoot (request_exception t) = itself _ refl
root_cause-IsRoot (connection_error t) = itself _ refl
root_cause-IsRoot (connection_error_from t c) = behind t c _ (root_cause-IsRoot c)
root_cause-IsRoot (other_fault t) = itself _ refl

-- The status of a response, under the name of its request in place of the URL.
abbrev pub status_of : Response → Option Fault
status_of r = elim r.error [ some e ↦ some e | none ↦ r.status_error (Meta.name r.request_meta) ]

-- The library raises a RequestException, where it raises one.
abbrev pub IsRaised : Option Fault → Type 0
IsRaised none = Unit {0}
IsRaised (some f) = is_request_exception f ≡ true

run_body_lem :
    (actions : List Action) (ending : Option Fault) (r : Response)
    → r.entered ≡ true
    → run_body actions ending r
      ≡ (ending, record r { manual_result = last_mark r.manual_result actions })
unfolding run_body last_mark
run_body_lem [] ending r h = refl
run_body_lem (a ∷ actions) ending r h =
    rw (h, asked_lem a)
      (run_body_lem actions ending (record r { manual_result = mark_of a; entered = true }) refl)

module _ (r : Response) where
  exit-verdict :
      (m : Manual) (ending : Option Fault) (status : Option Fault)
      → r.manual_result ≡ m
      → Meta.exception r.request_meta ≡ none
      → status_of r ≡ status
      → IsRaised status
      → (Exit.reports (exit ending r) ≡ reports_of r.request_meta (verdict m ending (cause status)))
        × (Done.leaves (done ending (exit ending r)) ≡ goes_on m ending)
        × (Response.url (Exit.response (exit ending r)) ≡ r.url)
  unfolding exit verdict goes_on raise_for_status
  exit-verdict successful none status h n e k = rw h (refl, refl, refl)
  exit-verdict successful (some f) status h n e k = rw h (refl, refl, refl)
  exit-verdict (failed f) none status h n e k = rw h (refl, refl, refl)
  exit-verdict (failed f) (some g) status h n e k = rw h (refl, refl, refl)
  exit-verdict unset (some (response_error t)) status h n e k = rw h (refl, refl, refl)
  exit-verdict unset (some (catch_response_error t)) status h n e k = rw h (refl, refl, refl)
  exit-verdict unset (some locust_error) status h n e k = rw h (refl, refl, refl)
  exit-verdict unset (some (request_exception t)) status h n e k = rw h (refl, refl, refl)
  exit-verdict unset (some (connection_error t)) status h n e k = rw h (refl, refl, refl)
  exit-verdict unset (some (connection_error_from t c)) status h n e k = rw h (refl, refl, refl)
  exit-verdict unset (some (other_fault t)) status h n e k = rw h (refl, refl, refl)
  exit-verdict unset none none h n e k = rw (h, e, n) (refl, refl, refl)
  exit-verdict unset none (some f) h n e k = rw (h, e, k) (refl, refl, refl)

-- A response that its request has just given for a with-block.
pub record IsFresh (r : Response) : Type 0 where
  pub catches : r.catch_response ≡ true
  pub unmarked : r.manual_result ≡ unset
  pub clean : Meta.exception r.request_meta ≡ none
  pub raised : IsRaised (status_of r)

-- Of a response that its request has just given for a with-block, where `requests` raises nothing
-- but a RequestException: one request is reported, as the last call of `success` or `failure` has
-- marked it; with no such call, with the ResponseError that ends the block, not at all if another
-- exception ends it, and else with the cause of its status under its name, which is the exception at
-- the end of the contexts of its status. The exception goes on, but for a ResponseError with no such
-- call, and the URL is as it was.
pub with_block-verdict :
    (actions : List Action) (ending : Option Fault) (r : Response)
    → IsFresh r
    → (Done.reports (with_block actions ending r)
        ≡ reports_of r.request_meta
            (verdict (last_mark unset actions) ending (cause (status_of r))))
      × (Done.leaves (with_block actions ending r) ≡ goes_on (last_mark unset actions) ending)
      × (Response.url (Done.response (with_block actions ending r)) ≡ r.url)
      × ((f : Fault) → IsRoot f (root_cause f))
unfolding with_block
with_block-verdict actions ending r h =
    let (reported, leaves, url) =
      exit-verdict _ (last_mark unset actions) ending (status_of r) refl h.clean refl h.raised in
    rw
      (
        h.catches,
        h.unmarked,
        run_body_lem actions ending
            (record r { entered = true; catch_response = true; manual_result = unset }) refl,
      )
      (reported, leaves, url, root_cause-IsRoot)

abbrev pub reports_in : Exit ⊎ Fault → List Meta
reports_in (inl e) = e.reports
reports_in (inr f) = []

-- The request of an answer under the name that is given, else that of `rename_request`, else the
-- path of the request, or the URL where there is none.
abbrev pub answered_meta : (request_name method url name time : ℕ) → Answer → Meta
answered_meta request_name method url name time a =
    meta_of method (name_of (or_else name request_name) url a.path_url) time a.length

-- A request that is not for a with-block, and is answered with a status of which `requests` raises
-- nothing but a RequestException, is reported at once, with the root cause of the status. The status
-- is that under the name of the request, in place of the URL of the answer.
pub request-once :
    (request_name method url name time : ℕ) (a : Answer)
    → IsRaised
        (Answer.status_error a (Meta.name (answered_meta request_name method url name time a)))
    → reports_in (request request_name method url name false time (answered a))
      ≡ reports_of (answered_meta request_name method url name time a) (
          some (
            cause (
              Answer.status_error a
                (Meta.name (answered_meta request_name method url name time a)))))
unfolding request verdict
request-once request_name method url name time a h =
    (exit-verdict
      (wrap_response a.url a.status_error none false
        (answered_meta request_name method url name time a))
      unset none _ refl refl refl h).0
