-- ===== src/Secret/Fetch/Attempts.antt =====
-- The attempts that src/secret/fetch.rs makes.
use fleetos_agent.Prelude.{
  ℕ, ◌+◌, ◌*◌, ◌≤◌, String, false, Option, none, some, List, [], ◌∷◌, ◌≡◌, ◌⊎◌, inl, inr, refl, sym,
  arith, length, ltb, Bool-cases,
}
use fleetos_agent.Errors.{ok, err, no_svid}
use fleetos_agent.Identity.Svid.{SvidState, is_none}
use fleetos_agent.Client.Retry.{
  Status, Code, unavailable, other, RetryAction, retry_same_target, redirect_and_retry, give_up,
  classify_error, classify_code, leader_of, backoff_ms,
}
use fleetos_agent.Client.Unary.{Answer, response, failure, FetchSecretRequest}
use fleetos_agent.Secret.Fetch.{
  Fetched, fetched, waiting, then_retry, on_reply, attempts, fetch_secret,
}

-- The retries of one channel wait 100 milliseconds each.
abbrev Waits : RetryAction → Type 0
Waits (retry_same_target delay) = delay ≡ 100
Waits _ = Unit

classify_code-Waits : (code : Code) (leader : Option (List ℕ)) → Waits (classify_code code leader 0)
unfolding classify_code backoff_ms
classify_code-Waits unavailable none = refl
classify_code-Waits unavailable (some leader) = tt
classify_code-Waits (other n) leader = tt

classify_error-Waits : (status : Status) → Waits (classify_error status 0)
unfolding classify_error
classify_error-Waits status = classify_code-Waits status.code (leader_of status.leader_dc_address)

module _ {SealedSecret : Type 0} where
  abbrev pub Ends : Fetched SealedSecret → Type 0
  Ends (fetched r slept) = slept ≤ 300
  Ends (waiting retries slept) = ⊥

  then_retry-Ends :
      (again : ℕ → ℕ → Fetched SealedSecret) (action : RetryAction) (retries : ℕ)
      → Waits action
      → retries ≤ 3
      → (retries + 1 ≤ 3 → Ends (again (retries + 1) (100 * (retries + 1))))
      → Ends (then_retry again action retries (100 * retries))
  then_retry-Ends again (redirect_and_retry t d) retries w le rest = omega arith
  then_retry-Ends again (retry_same_target d) retries w le rest =
      elim (Bool-cases (ltb 3 (retries + 1))) [
        | inl many ↦ rw many (omega arith)
        | inr few ↦
            let e : 100 * (retries + 1) ≡ 100 * retries + d = omega (arith, w) in
            rw (few, sym e) (rest (ground arith))
      ]
  then_retry-Ends again (give_up reason) retries w le rest = omega arith

  on_reply-Ends :
      (again : ℕ → ℕ → Fetched SealedSecret) (a : Answer SealedSecret) (retries : ℕ)
      → retries ≤ 3
      → (retries + 1 ≤ 3 → Ends (again (retries + 1) (100 * (retries + 1))))
      → Ends (on_reply again a retries (100 * retries))
  on_reply-Ends again (response s) retries le rest = omega arith
  on_reply-Ends again (failure status) retries le rest =
      then_retry-Ends again (classify_error status 0) retries (classify_error-Waits status) le rest

  attempts-Ends :
      (request : FetchSecretRequest) (servers : List (FetchSecretRequest → Answer SealedSecret))
      (retries : ℕ)
      → retries ≤ 3
      → 4 ≤ length servers + retries
      → Ends (attempts request servers retries (100 * retries))
  unfolding attempts
  attempts-Ends request [] retries le h = omega arith
  attempts-Ends request (server ∷ rest) retries le h =
      on_reply-Ends (attempts request rest) (server request) retries le
        (λ more. attempts-Ends request rest (retries + 1) more (omega (arith, h)))

  -- A fetch returns after at most four requests and 300 milliseconds of waiting, whatever is answered.
  pub fetch-Ends :
      (svid_state : SvidState) (target : String)
      (servers : List (FetchSecretRequest → Answer SealedSecret))
      → 4 ≤ length servers
      → Ends (fetch_secret svid_state target servers)
  unfolding fetch_secret
  fetch-Ends svid_state target servers h = elim (Bool-cases (is_none svid_state)) [
    | inl missing ↦ rw missing (omega arith)
    | inr present ↦ rw present (attempts-Ends _ servers 0 (omega arith) (omega arith))
  ]

  abbrev pub Answered :
      FetchSecretRequest → SealedSecret → List (FetchSecretRequest → Answer SealedSecret) → Type 0
  Answered request s [] = ⊥
  Answered request s (server ∷ rest) = (server request ≡ response s) ⊎ Answered request s rest

  -- What a fetch may return, given the requests that it may send.
  abbrev Source :
      FetchSecretRequest
      → List (FetchSecretRequest → Answer SealedSecret)
      → Fetched SealedSecret
      → Type 0
  Source request servers (fetched (ok s) slept) = Answered request s servers
  Source request servers (fetched (err e) slept) = Unit
  Source request servers (waiting retries slept) = Unit

  Source-weaken :
      (request : FetchSecretRequest) (server : FetchSecretRequest → Answer SealedSecret)
      (servers : List (FetchSecretRequest → Answer SealedSecret)) (f : Fetched SealedSecret)
      → Source request servers f
      → Source request (server ∷ servers) f
  Source-weaken request server servers (fetched (ok s) slept) h = inr h
  Source-weaken request server servers (fetched (err e) slept) h = tt
  Source-weaken request server servers (waiting retries slept) h = tt

  then_retry-Source :
      (again : ℕ → ℕ → Fetched SealedSecret) (request : FetchSecretRequest)
      (servers : List (FetchSecretRequest → Answer SealedSecret)) (action : RetryAction)
      (n slept : ℕ)
      → ((n slept : ℕ) → Source request servers (again n slept))
      → Source request servers (then_retry again action n slept)
  then_retry-Source again request servers (redirect_and_retry t d) n slept rest = tt
  then_retry-Source again request servers (retry_same_target d) n slept rest =
      elim (Bool-cases (ltb 3 (n + 1))) [
        | inl many ↦ rw many tt
        | inr few ↦ rw few (rest (n + 1) (slept + d))
      ]
  then_retry-Source again request servers (give_up reason) n slept rest = tt

  on_reply-Source :
      (again : ℕ → ℕ → Fetched SealedSecret) (request : FetchSecretRequest)
      (server : FetchSecretRequest → Answer SealedSecret)
      (servers : List (FetchSecretRequest → Answer SealedSecret)) (a : Answer SealedSecret)
      (n slept : ℕ)
      → server request ≡ a
      → ((n slept : ℕ) → Source request servers (again n slept))
      → Source request (server ∷ servers) (on_reply again a n slept)
  on_reply-Source again request server servers (response s) n slept e rest = inl e
  on_reply-Source again request server servers (failure status) n slept e rest =
      Source-weaken request server servers (then_retry again (classify_error status 0) n slept)
        (then_retry-Source again request servers (classify_error status 0) n slept rest)

  attempts-Source :
      (request : FetchSecretRequest) (servers : List (FetchSecretRequest → Answer SealedSecret))
      (n slept : ℕ)
      → Source request servers (attempts request servers n slept)
  unfolding attempts
  attempts-Source request [] n slept = tt
  attempts-Source request (server ∷ rest) n slept =
      on_reply-Source (attempts request rest) request server rest (server request) n slept refl
        (λ m t. attempts-Source request rest m t)

  -- What a fetch returns by what the node holds: without an SVID it is the error `NoSvid`, and with one a
  -- secret is what the server answered to the request for this target that names the version of the
  -- SVID the node has installed.
  abbrev pub Live :
      SvidState
      → String
      → List (FetchSecretRequest → Answer SealedSecret)
      → Fetched SealedSecret
      → Type 0
  Live svid_state target servers (fetched (ok s) slept) =
      (is_none svid_state ≡ false)
      × Answered
          (record { target_spiffe_id = target; sealed_for_svid_version = svid_state.svid_version })
          s servers
  Live svid_state target servers (fetched (err e) slept) =
      (is_none svid_state ≡ false) ⊎ (e ≡ no_svid)
  Live svid_state target servers (waiting retries slept) = is_none svid_state ≡ false

  attempts-Live :
      (svid_state : SvidState) (target : String)
      (servers : List (FetchSecretRequest → Answer SealedSecret)) (f : Fetched SealedSecret)
      → is_none svid_state ≡ false
      → Source
          (record { target_spiffe_id = target; sealed_for_svid_version = svid_state.svid_version })
          servers
          f
      → Live svid_state target servers f
  attempts-Live svid_state target servers (fetched (ok s) slept) present h = (present, h)
  attempts-Live svid_state target servers (fetched (err e) slept) present h = inl present
  attempts-Live svid_state target servers (waiting retries slept) present h = present

  -- A secret is fetched only for the SVID that the node has: without one it fails with `NoSvid`;
  -- with one, a secret that it returns is an answer to a request for this
  -- target that carries the installed SVID's version.
  pub fetch-Live :
      (svid_state : SvidState) (target : String)
      (servers : List (FetchSecretRequest → Answer SealedSecret))
      → Live svid_state target servers (fetch_secret svid_state target servers)
  unfolding fetch_secret
  fetch-Live svid_state target servers = elim (Bool-cases (is_none svid_state)) [
    | inl missing ↦ rw missing (inr refl)
    | inr present ↦
        rw present
          (attempts-Live svid_state target servers _ present (attempts-Source _ servers 0 0))
  ]
