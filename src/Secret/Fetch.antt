-- ===== src/Secret/Fetch.antt =====
-- src/secret/fetch.rs: fetching a secret on one channel. What the server answers to the requests of the
-- loop, in order, is a list; one that ends before the loop does leaves the loop `waiting`.
pub mod Attempts
use fleetos_agent.Prelude.{ℕ, ◌+◌, String, Bool, List, [], ◌∷◌, ltb, if◌then◌else◌}
use fleetos_agent.Errors.{AgentError, no_svid, secret, internal, Result, ok, err}
use fleetos_agent.Identity.Svid.{SvidState, is_none}
use fleetos_agent.Client.Retry.{
  Status, RetryAction, retry_same_target, redirect_and_retry, give_up, classify_error,
}
use fleetos_agent.Client.Unary.{
  Answer, response, failure, FetchSecretRequest, max_transient_retries,
}

-- How far the loop gets, with its retries and the time it has slept.
pub data Fetched (SealedSecret : Type 0) : Type 0 where
  fetched : Result SealedSecret → ℕ → Fetched SealedSecret
  waiting : ℕ → ℕ → Fetched SealedSecret

module _ {SealedSecret : Type 0} where
  abbrev pub then_retry :
      (ℕ → ℕ → Fetched SealedSecret) → RetryAction → ℕ → ℕ → Fetched SealedSecret
  then_retry again (redirect_and_retry new_target delay) transient_retries slept =
      fetched (err (internal "redirect required")) slept
  then_retry again (retry_same_target delay) transient_retries slept =
      if ltb max_transient_retries (transient_retries + 1)
      then fetched (err (secret "FetchSecret failed after retries")) slept
      else again (transient_retries + 1) (slept + delay)
  then_retry again (give_up reason) transient_retries slept =
      fetched (err (secret "FetchSecret failed")) slept

  -- The redirect count is 0 in every round, since a redirection leaves the loop.
  abbrev pub on_reply :
      (ℕ → ℕ → Fetched SealedSecret) → Answer SealedSecret → ℕ → ℕ → Fetched SealedSecret
  on_reply again (response s) transient_retries slept = fetched (ok s) slept
  on_reply again (failure status) transient_retries slept =
      then_retry again (classify_error status 0) transient_retries slept

  unfoldable pub attempts :
      FetchSecretRequest
      → List (FetchSecretRequest → Answer SealedSecret)
      → ℕ
      → ℕ
      → Fetched SealedSecret
  attempts request [] transient_retries slept = waiting transient_retries slept
  attempts request (server ∷ rest) transient_retries slept =
      on_reply (attempts request rest) (server request) transient_retries slept

  unfoldable pub fetch_secret :
      SvidState → String → List (FetchSecretRequest → Answer SealedSecret) → Fetched SealedSecret
  fetch_secret svid_state target_spiffe_id servers =
      if is_none svid_state
      then fetched (err no_svid) 0
      else attempts
          (record {
            target_spiffe_id = target_spiffe_id;
            sealed_for_svid_version = svid_state.svid_version;
          })
          servers 0 0
