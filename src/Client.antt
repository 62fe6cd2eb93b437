-- ===== src/Client.antt =====
-- locust/clients.py: the responses of `HttpSession` in a with-block, and what is reported of a
-- request. The library `requests` is a parameter: what a request comes to is an `Answer` or an
-- exception. URLs, names and texts of exceptions are numbers, 0 for the empty one.
pub mod Fast
pub mod Reported
pub mod Alike
pub mod Counted
mod Tests
use locust.Base.{
  ℕ, Bool, true, false, Option, none, some, List, [], ◌∷◌, ◌==◌, ◌⊎◌, inl, inr, if◌then◌else◌,
}

-- Exceptions: the two of locust/exception.py, those of `requests`, where an error of the connection
-- may have another exception as its context, and the rest.
pub data Fault : Type 0 where
  response_error : ℕ → Fault
  catch_response_error : ℕ → Fault
  locust_error : Fault
  request_exception : ℕ → Fault
  connection_error : ℕ → Fault
  connection_error_from : ℕ → (context : Fault) → Fault
  other_fault : ℕ → Fault

abbrev pub is_request_exception : Fault → Bool
is_request_exception (request_exception t) = true
is_request_exception (connection_error t) = true
is_request_exception (connection_error_from t c) = true
is_request_exception f = false

-- The loop over `__context__`.
unfoldable pub root_cause : Fault → Fault
root_cause (connection_error_from t context) = root_cause context
root_cause f = f

pub record Meta : Type 0 where
  pub request_type : ℕ
  pub name : ℕ
  pub response_time : ℕ
  pub response_length : ℕ
  pub exception : Option Fault

-- `_manual_result`: None, True or an exception.
pub data Manual : Type 0 where
  unset : Manual
  successful : Manual
  failed : Fault → Manual

-- A `ResponseContextManager`. `status_error` is what `Response.raise_for_status` of `requests`
-- raises, which has the URL in its text.
pub record Response : Type 0 where
  pub url : ℕ
  pub status_error : (url : ℕ) → Option Fault
  pub error : Option Fault
  pub manual_result : Manual
  pub entered : Bool
  pub catch_response : Bool
  pub request_meta : Meta

-- The exception that it raises.
unfoldable pub raise_for_status : Response → Option Fault
raise_for_status r = elim r.manual_result [
  | unset ↦ elim r.error [ some e ↦ some e | none ↦ r.status_error r.url ]
  | successful ↦ none
  | failed f ↦ some f
]

-- What `__exit__` returns, or raises.
pub data Exited : Type 0 where
  result : Bool → Exited
  raises : Fault → Exited

-- The response then, and the `request` events that are fired.
pub record Exit : Type 0 where
  pub response : Response
  pub reports : List Meta
  pub exited : Exited

abbrev pub with_exception : Option Fault → Response → Response
with_exception e r = record r { request_meta = record r.request_meta { exception = e } }

abbrev pub report : Response → Bool → Exit
report r b = record { response = r; reports = r.request_meta ∷ []; exited = result b }

abbrev pub is_none : Option Fault → Bool
is_none none = true
is_none (some f) = false

-- The part without a manual result and without an exception; the URL is the name meanwhile.
abbrev pub exit_by_status : (orig_url : ℕ) → Option Fault → Response → Exit
exit_by_status orig_url none r = report (record r { url = orig_url }) true
exit_by_status orig_url (some f) r =
    if is_request_exception f
    then report (with_exception (some (root_cause f)) (record r { url = orig_url })) true
    else record { response = r; reports = []; exited = raises f }

abbrev pub exit_unmarked : Option Fault → Response → Exit
exit_unmarked (some (response_error t)) r = report (with_exception (some (response_error t)) r) true
exit_unmarked (some f) r = record { response = r; reports = []; exited = result false }
exit_unmarked none r =
    let named = record r { url = Meta.name r.request_meta } in
    exit_by_status r.url (raise_for_status named) named

-- `__exit__`, given the exception that leaves the block.
unfoldable pub exit : Option Fault → Response → Exit
unfolding raise_for_status root_cause
exit exc r = elim r.manual_result [
  | successful ↦ report (with_exception none r) (is_none exc)
  | failed f ↦ report (with_exception (some f) r) (is_none exc)
  | unset ↦ exit_unmarked exc r
]

-- What is done in a with-block: `success()`, `failure` of an exception, and of a text.
pub data Action : Type 0 where
  succeed : Action
  fail : Fault → Action
  fail_with : ℕ → Action

abbrev pub mark_of : Action → Manual
mark_of succeed = successful
mark_of (fail f) = failed f
mark_of (fail_with t) = failed (catch_response_error t)

-- `none` is the LocustError.
abbrev pub mark : Action → Response → Option Response
mark a r = if r.entered then some (record r { manual_result = mark_of a }) else none

-- The exception that leaves the block's body, and the response then.
unfoldable pub run_body : List Action → (ending : Option Fault) → Response → Option Fault × Response
run_body [] ending r = (ending, r)
run_body (a ∷ actions) ending r = elim (mark a r) [
  | none ↦ (some locust_error, r)
  | some r' ↦ run_body actions ending r'
]

-- A with-block: what is reported, and the exception that leaves it.
pub record Done : Type 0 where
  pub response : Response
  pub reports : List Meta
  pub leaves : Option Fault

abbrev pub leaving : Option Fault → Exited → Option Fault
leaving exc (raises f) = some f
leaving none (result b) = none
leaving (some f) (result b) = if b then none else some f

abbrev pub done : Option Fault → Exit → Done
done exc e = record { response = e.response; reports = e.reports; leaves = leaving exc e.exited }

unfoldable pub with_block : List Action → (ending : Option Fault) → Response → Done
unfolding run_body exit
with_block actions ending r =
    let entered = record r { entered = true } in
    let body = run_body actions ending entered in
    if r.catch_response
    then done body.0 (exit body.0 body.1)
    else record { response = entered; reports = []; leaves = some locust_error }

-- What `requests` gives for a response: the request before a redirect, where there is one, with its
-- path, and the length of the content, or of the header where the response is streamed.
pub record Answer : Type 0 where
  pub url : ℕ
  pub status_error : (url : ℕ) → Option Fault
  pub path_url : Option ℕ
  pub length : ℕ

-- A response, a `RequestException` with the path of its request, or an exception for a bad URL.
pub data Sent : Type 0 where
  answered : Answer → Sent
  failed_with : Fault → (path_url : Option ℕ) → Sent
  rejected : Fault → Sent

abbrev pub or_else : (name other : ℕ) → ℕ
or_else name other = if name == 0 then other else name

-- `if not name: name = request_before_redirect.path_url`, or the URL where there is no request.
abbrev pub name_of : (name url : ℕ) → Option ℕ → ℕ
name_of name url none = or_else name url
name_of name url (some path) = or_else name path

abbrev pub meta_of : (method name time length : ℕ) → Meta
meta_of method name time length = record {
  request_type = method;
  name = name;
  response_time = time;
  response_length = length;
  exception = none;
}

abbrev pub wrap_response :
    (url : ℕ) → (ℕ → Option Fault) → Option Fault → (catch_response : Bool) → Meta → Response
wrap_response url status error catch_response m = record {
  url = url;
  status_error = status;
  error = error;
  manual_result = unset;
  entered = false;
  catch_response = catch_response;
  request_meta = m;
}

-- Reported at once where the response is not for a with-block.
abbrev pub finish : Response → Exit
finish r =
    if r.catch_response
    then record { response = r; reports = []; exited = result true }
    else exit none r

-- `request`: the exception for a bad URL passes. `request_name` is set by `rename_request`.
unfoldable pub request :
    (request_name method url name : ℕ) (catch_response : Bool) (time : ℕ) → Sent → Exit ⊎ Fault
unfolding exit
request request_name method url name catch_response time (answered a) = inl (
    finish (
      wrap_response a.url a.status_error none catch_response
        (meta_of method (name_of (or_else name request_name) url a.path_url) time a.length)))
request request_name method url name catch_response time (failed_with f path) = inl (
    finish (
      wrap_response 0 (λ _. none) (some f) catch_response
        (meta_of method (name_of (or_else name request_name) url path) time 0)))
request request_name method url name catch_response time (rejected f) = inr f
