-- ===== src/Client/Unary.antt =====
-- src/client/unary.rs: the unary calls. Their loops are alike, so one function over the rounds of a
-- loop models them, and each call is an instance. A round is what the client finds outside itself when
-- it asks for a channel, and what the server answers on that channel; a list of rounds that ends
-- before the loop does leaves the loop `pending`. The messages are generated, so those that the
-- agent builds here are records and the others are parameters.
pub mod Ends
pub mod Answers
use fleetos_agent.Prelude.{
  ℕ, ◌+◌, ◌*◌, String, Bool, true, false, Option, none, some, List, [], ◌∷◌, Bytes, ltb,
  if◌then◌else◌,
}
use fleetos_agent.Errors.{AgentError, rpc, Result, ok, err}
use fleetos_agent.Client.Channels.{Tonic}
use fleetos_agent.Client.Connection.{World, ControlPlaneClient, get_channel, retarget}
use fleetos_agent.Client.Retry.{
  Status, RetryAction, retry_same_target, redirect_and_retry, give_up, classify_error,
}

abbrev pub max_transient_retries : ℕ
max_transient_retries = 3

pub data Answer (A : Type 0) : Type 0 where
  response : A → Answer A
  failure : Status → Answer A

-- The local variables of a loop, with the time it has slept in all.
pub record Loop : Type 0 where
  pub redirect_hops : ℕ
  pub transient_retries : ℕ
  pub slept : ℕ

abbrev pub start : Loop
start = record { redirect_hops = 0; transient_retries = 0; slept = 0 }

module _ (tonic : Tonic) where
  pub record Round (Request Response : Type 0) : Type 0 where
    pub world : World tonic
    pub answer : tonic.Channel → Request → Answer Response

  pub data Progress (A : Type 0) : Type 0 where
    returned : Result A → Loop → ControlPlaneClient tonic → Progress A
    pending : Loop → ControlPlaneClient tonic → Progress A

  abbrev pub resume :
      {A : Type 0} → (Loop → ControlPlaneClient tonic → Progress A) → Progress A → Progress A
  resume again (returned result l c) = returned result l c
  resume again (pending l c) = again l c

  module _ {Request Response A : Type 0} (into_inner : Response → A) (request : Request) where
    unfoldable pub on_action : RetryAction → Loop → ControlPlaneClient tonic → Progress A
    on_action (redirect_and_retry new_target delay) l c =
        pending (record l { redirect_hops = l.redirect_hops + 1 }) (retarget tonic new_target c)
    on_action (retry_same_target delay) l c =
        if ltb max_transient_retries (l.transient_retries + 1)
        then returned (err (rpc "failed after retries"))
            (record l { transient_retries = l.transient_retries + 1 }) c
        else pending
            (record l { transient_retries = l.transient_retries + 1; slept = l.slept + delay }) c
    on_action (give_up reason) l c = returned (err (rpc reason)) l c

    unfoldable pub on_answer : Answer Response → Loop → ControlPlaneClient tonic → Progress A
    on_answer (response r) l c = returned (ok (into_inner r)) l c
    on_answer (failure status) l c = on_action (classify_error status l.redirect_hops) l c

    unfoldable pub on_channel :
        Round Request Response → Result tonic.Channel → Loop → ControlPlaneClient tonic → Progress A
    on_channel r (ok chan) l c = on_answer (r.answer chan request) l c
    on_channel r (err e) l c = returned (err e) l c

    abbrev pub round : Round Request Response → Loop → ControlPlaneClient tonic → Progress A
    round r l c = let (asked, c') = get_channel tonic r.world c in on_channel r asked l c'

    unfoldable pub call :
        List (Round Request Response) → Loop → ControlPlaneClient tonic → Progress A
    call [] l c = pending l c
    call (r ∷ rounds) l c = resume (call rounds) (round r l c)

pub record FetchSecretRequest : Type 0 where
  pub target_spiffe_id : String
  pub sealed_for_svid_version : ℕ

pub record ReportPodEventsRequest (PodEvent : Type 0) : Type 0 where
  pub events : List PodEvent

pub record CsrRequest : Type 0 where
  pub csr_der : Bytes

module _ (tonic : Tonic) where
  -- A request, the rounds of its loop, and how far the loop gets.
  abbrev Unary : Type 0 → Type 0 → Type 0 → Type 0
  Unary Request Response A =
      Request → List (Round tonic Request Response) → ControlPlaneClient tonic → Progress tonic A

  abbrev unary : {Request Response : Type 0} → Unary Request Response Response
  unary request rounds c = call tonic (λ r. r) request rounds start c

  abbrev pub fetch_secret :
      {SealedSecret : Type 0}
      → String
      → ℕ
      → List (Round tonic FetchSecretRequest SealedSecret)
      → ControlPlaneClient tonic
      → Progress tonic SealedSecret
  fetch_secret target_spiffe_id svid_version =
      unary (record { target_spiffe_id = target_spiffe_id; sealed_for_svid_version = svid_version })

  abbrev pub report_workload_status :
      {WorkloadStatusReport StatusAck : Type 0} → Unary WorkloadStatusReport StatusAck StatusAck
  report_workload_status = unary

  abbrev pub report_pod_metrics :
      {PodMetrics MetricsAck : Type 0} → Unary PodMetrics MetricsAck MetricsAck
  report_pod_metrics = unary

  -- The acknowledgement is dropped.
  abbrev pub report_pod_events :
      {PodEvent PodEventsAck : Type 0}
      → List PodEvent
      → List (Round tonic (ReportPodEventsRequest PodEvent) PodEventsAck)
      → ControlPlaneClient tonic
      → Progress tonic (Unit {0})
  report_pod_events events rounds c =
      call tonic (λ ack. tt) (record { events = events }) rounds start c

  abbrev pub request_delegated_key :
      {DelegatedKeyRequest DelegatedKeyResponse : Type 0}
      → Unary DelegatedKeyRequest DelegatedKeyResponse DelegatedKeyResponse
  request_delegated_key = unary

  abbrev pub submit_csr :
      {SvidResponse : Type 0}
      → Bytes
      → List (Round tonic CsrRequest SvidResponse)
      → ControlPlaneClient tonic
      → Progress tonic SvidResponse
  submit_csr csr_der = unary (record { csr_der = csr_der })

  abbrev pub get_trust_bundle :
      {TrustBundle : Type 0}
      → List (Round tonic (Unit {0}) TrustBundle)
      → ControlPlaneClient tonic
      → Progress tonic TrustBundle
  get_trust_bundle = unary tt
