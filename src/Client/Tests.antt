-- ===== src/Client/Tests.antt =====
-- Requests and with-blocks, and instances of the theorems about them.
use locust.Base.{ℕ, ◌≡◌, refl, true, false, Option, none, some, [], ◌∷◌, ◌+◌, ◌*◌}
use locust.Client.{
  Fault, catch_response_error, request_exception, other_fault, Response, Answer, succeed, fail_with,
  Done, with_block, request, exit, run_body, raise_for_status, root_cause, wrap_response, meta_of,
}
use locust.Client.Reported.{IsFresh, IsRoot, with_block-verdict, last_mark, verdict, goes_on}
use locust.Client.Fast
use locust.Client.Alike.{with_block-alike}
use locust.Client.Counted.{on_requests, with_block-Stands}
use locust.Stats.Entry.Represents.{request as counted, failure}
use locust.Stats.Requests.{new_stats}
use locust.Stats.Requests.Stands.{Stands, set, new_stats-Stands}

program : Unit {0}
unfolding with_block request exit run_body raise_for_status root_cause last_mark verdict goes_on
    Fast.with_block Fast.finish_request Fast.run_body Fast.exit
program = tt

-- Not found: the text of the exception is made from the URL.
abbrev missing : (url : ℕ) → Option Fault
missing url = some (request_exception (404 + 1000 * url))

abbrev get : ℕ
get = 1

abbrev about : Response
about = wrap_response 77 missing none true (meta_of get 5 120 64)

about-IsFresh : IsFresh about
about-IsFresh = record { catches = refl; unmarked = refl; clean = refl; raised = refl }

-- Marked as a success, and then interrupted by another exception, which goes on.
marked_then_raised :
    Done.reports (with_block (fail_with 9 ∷ succeed ∷ []) (some (other_fault 3)) about)
    ≡ meta_of get 5 120 64 ∷ []
unfolding program
marked_then_raised = refl

with_block-verdict_example :
    (Done.reports (with_block [] none about)
      ≡ record (meta_of get 5 120 64) { exception = some (request_exception 5404) } ∷ [])
    × (Done.leaves (with_block [] none about) ≡ none)
    × (Response.url (Done.response (with_block [] none about)) ≡ 77)
    × ((f : Fault) → IsRoot f (root_cause f))
unfolding last_mark verdict goes_on root_cause
with_block-verdict_example = with_block-verdict [] none about about-IsFresh

with_block-alike_example :
    let f =
      (Fast.finish_request true none (some (request_exception 5404)) (meta_of get 5 120 64)).1 in
    (Done.reports (with_block (fail_with 9 ∷ []) none about)
      ≡ (Fast.with_block (fail_with 9 ∷ []) none f).0)
    × (Done.leaves (with_block (fail_with 9 ∷ []) none about)
        ≡ (Fast.with_block (fail_with 9 ∷ []) none f).1)
unfolding root_cause
with_block-alike_example = with_block-alike (fail_with 9 ∷ []) none about about-IsFresh refl

abbrev answer : Answer
answer = record { url = 77; status_error = missing; path_url = some 6; length = 64 }

with_block-Stands_example :
    Stands
      (failure 4 ∷ counted 3 (some 120) 64 ∷ [])
      (set 5 get (failure 4 ∷ counted 3 (some 120) 64 ∷ []) (λ n m. []))
      (on_requests
        (λ m n e. e)
        (λ f. 8)
        (λ i. 3000000)
        (λ i. 4000000)
        (Done.reports (with_block (fail_with 9 ∷ []) none about))
        (new_stats (λ i. 1000000) false))
unfolding last_mark verdict
with_block-Stands_example =
    with_block-Stands (λ m n e. e) (λ f. 8) (λ i. 3000000) (λ i. 4000000) (fail_with 9 ∷ []) none
      about (some (catch_response_error 9)) [] (λ n m. []) (new_stats (λ i. 1000000) false)
      about-IsFresh refl (new_stats-Stands (λ i. 1000000) false)
