-- ===== src/Client/Alike.antt =====
-- The two clients report alike.
use locust.Base.{◌≡◌, refl, sym, ap, ◌∙◌, Bool, true, Option, none, some, List, [], ◌∷◌}
use locust.Client.{
  Fault, response_error, catch_response_error, locust_error, request_exception, connection_error,
  connection_error_from, other_fault, Meta, Manual, unset, successful, failed, Response, Action,
  mark_of, Done, with_block,
}
use locust.Client.Reported.{
  asked_lem, last_mark, verdict, reports_of, goes_on, cause, status_of, IsFresh, with_block-verdict,
}
use locust.Client.Fast
use locust.Client.Fast.{FastResponse, found}

-- What is reported at the end of a block that marks nothing: the status is looked at again.
abbrev pub found_again : (content_error status : Option Fault) → Option Fault
found_again content_error none = content_error
found_again content_error (some f) = some f

abbrev pub response_of :
    Manual → (catch_response : Bool) → (content_error status : Option Fault) → Meta → FastResponse
response_of m catch_response content_error status k = record {
  error = status;
  manual_result = m;
  entered = true;
  catch_response = catch_response;
  request_meta = Fast.except_with (found content_error status) k;
}

fast_body_lem :
    (actions : List Action) (ending : Option Fault) (r : FastResponse)
    → r.entered ≡ true
    → Fast.run_body actions ending r
      ≡ (ending, record r { manual_result = last_mark r.manual_result actions; entered = true })
unfolding Fast.run_body last_mark
fast_body_lem [] ending r h = rw h refl
fast_body_lem (a ∷ actions) ending r h =
    rw (h, asked_lem a)
      (fast_body_lem actions ending (record r { manual_result = mark_of a; entered = true }) refl)

except_twice :
    (content_error status : Option Fault) (k : Meta)
    → k.exception ≡ none
    → Fast.except_with status (Fast.except_with (found content_error status) k)
      ≡ record k { exception = found_again content_error status }
except_twice none none k h = rw h refl
except_twice none (some f) k h = refl
except_twice (some g) none k h = refl
except_twice (some g) (some f) k h = refl

with_any :
    (e : Option Fault) (o : Option Fault) (k : Meta)
    → record (Fast.except_with o k) { exception = e } ≡ record k { exception = e }
with_any e none k = refl
with_any e (some f) k = refl

module _ (content_error status : Option Fault) (k : Meta) (h : k.exception ≡ none) where
  fast_exit-verdict :
      (m : Manual) (ending : Option Fault)
      → ((Fast.exit ending (response_of m true content_error status k)).0
          ≡ reports_of k (verdict m ending (found_again content_error status)))
        × (Fast.leaving ending ((Fast.exit ending (response_of m true content_error status k)).1)
            ≡ goes_on m ending)
  unfolding Fast.exit verdict goes_on
  fast_exit-verdict successful none = (ap (λ x. x ∷ []) (with_any _ _ k), refl)
  fast_exit-verdict successful (some f) = (ap (λ x. x ∷ []) (with_any _ _ k), refl)
  fast_exit-verdict (failed f) none = (ap (λ x. x ∷ []) (with_any _ _ k), refl)
  fast_exit-verdict (failed f) (some g) = (ap (λ x. x ∷ []) (with_any _ _ k), refl)
  fast_exit-verdict unset (some (response_error t)) = (ap (λ x. x ∷ []) (with_any _ _ k), refl)
  fast_exit-verdict unset (some (catch_response_error t)) = (refl, refl)
  fast_exit-verdict unset (some locust_error) = (refl, refl)
  fast_exit-verdict unset (some (request_exception t)) = (refl, refl)
  fast_exit-verdict unset (some (connection_error t)) = (refl, refl)
  fast_exit-verdict unset (some (connection_error_from t c)) = (refl, refl)
  fast_exit-verdict unset (some (other_fault t)) = (refl, refl)
  fast_exit-verdict unset none = (ap (λ x. x ∷ []) (except_twice content_error status k h), refl)

  fast_block-verdict :
      (actions : List Action) (ending : Option Fault)
      → ((Fast.with_block actions ending ((Fast.finish_request true content_error status k).1)).0
          ≡ reports_of k
              (verdict (last_mark unset actions) ending (found_again content_error status)))
        × ((Fast.with_block actions ending ((Fast.finish_request true content_error status k).1)).1
            ≡ goes_on (last_mark unset actions) ending)
  unfolding Fast.with_block Fast.finish_request
  fast_block-verdict actions ending =
      rw (fast_body_lem actions ending (response_of unset true content_error status k) refl)
        (fast_exit-verdict (last_mark unset actions) ending)

found_again-none : (status : Option Fault) → found_again none status ≡ status
found_again-none none = refl
found_again-none (some f) = refl

-- A response of either client that a request has just given for a with-block, with the same data
-- and the same status, which is no exception or a RequestException that is its own root cause, and
-- of which reading the content has raised nothing: a with-block with the same calls and the same
-- end reports the same, and the same exception leaves it.
pub with_block-alike :
    (actions : List Action) (ending : Option Fault) (r : Response)
    → IsFresh r
    → cause (status_of r) ≡ status_of r
    → let f = (Fast.finish_request true none (status_of r) r.request_meta).1 in
      (Done.reports (with_block actions ending r) ≡ (Fast.with_block actions ending f).0)
      × (Done.leaves (with_block actions ending r) ≡ (Fast.with_block actions ending f).1)
with_block-alike actions ending r h e =
    let status = status_of r in
    let here = with_block-verdict actions ending r h in
    let there = fast_block-verdict none status r.request_meta h.clean actions ending in
    let same =
      ap (λ c. reports_of r.request_meta (verdict (last_mark unset actions) ending c))
        (e ∙ sym (found_again-none status)) in
    (here.0 ∙ same ∙ sym there.0, here.1 ∙ sym there.1)
