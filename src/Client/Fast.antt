-- ===== src/Client/Fast.antt =====
-- The `ResponseContextManager` of locust/contrib/fasthttp.py, and how `FastHttpSession.request`
-- reports. The exceptions that its library raises are those that the code catches.
use locust.Base.{Bool, true, false, Option, none, some, List, [], ◌∷◌, if◌then◌else◌}
use locust.Client.{
  Fault, response_error, locust_error, Meta, Manual, unset, successful, failed, Action, mark_of,
  is_none,
}

-- `error` is what `raise_for_status` of a `FastResponse` raises.
pub record FastResponse : Type 0 where
  pub error : Option Fault
  pub manual_result : Manual
  pub entered : Bool
  pub catch_response : Bool
  pub request_meta : Meta

abbrev pub raise_for_status : FastResponse → Option Fault
raise_for_status r = elim r.manual_result [
  | unset ↦ r.error
  | successful ↦ none
  | failed f ↦ some f
]

abbrev pub except_with : Option Fault → Meta → Meta
except_with none m = m
except_with (some f) m = record m { exception = some f }

-- What `__exit__` reports, and what it returns.
unfoldable pub exit : Option Fault → FastResponse → List Meta × Bool
exit exc r = elim r.manual_result [
  | successful ↦ (record r.request_meta { exception = none } ∷ [], is_none exc)
  | failed f ↦ (record r.request_meta { exception = some f } ∷ [], is_none exc)
  | unset ↦ elim exc [
    | some f ↦ elim f [
      | response_error t ↦
          (record r.request_meta { exception = some (response_error t) } ∷ [], true)
      | _ ↦ ([], false)
    ]
    | none ↦ (except_with (raise_for_status r) r.request_meta ∷ [], true)
  ]
]

abbrev pub mark : Action → FastResponse → Option FastResponse
mark a r = if r.entered then some (record r { manual_result = mark_of a }) else none

unfoldable pub run_body :
    List Action → (ending : Option Fault) → FastResponse → Option Fault × FastResponse
run_body [] ending r = (ending, r)
run_body (a ∷ actions) ending r = elim (mark a r) [
  | none ↦ (some locust_error, r)
  | some r' ↦ run_body actions ending r'
]

abbrev pub leaving : Option Fault → Bool → Option Fault
leaving exc b = if b then none else exc

-- What a with-block reports, and the exception that leaves it.
unfoldable pub with_block :
    List Action → (ending : Option Fault) → FastResponse → List Meta × Option Fault
unfolding run_body exit
with_block actions ending r =
    let body = run_body actions ending (record r { entered = true }) in
    let left = exit body.0 body.1 in
    if r.catch_response then (left.0, leaving body.0 left.1) else ([], some locust_error)

-- The exception of the content, which is read first, or that of the status.
abbrev pub found : (content_error status : Option Fault) → Option Fault
found none status = status
found (some f) status = some f

-- The end of `request`: `content_error` is raised while the content is read, `status` by
-- `raise_for_status`. The response is reported at once where it is not for a with-block.
unfoldable pub finish_request :
    (catch_response : Bool) (content_error status : Option Fault) → Meta → List Meta × FastResponse
finish_request catch_response content_error status m =
    let m' = except_with (found content_error status) m in
    (
      (if catch_response then [] else m' ∷ []),
      record {
        error = status;
        manual_result = unset;
        entered = false;
        catch_response = catch_response;
        request_meta = m';
      },
    )
