-- ===== src/Client/Retry.antt =====
-- src/client/retry.rs: what to do after a failed call. A status comes from tonic: of its metadata the
-- model has the entry `leader-dc-address`, `some none` where its value is not text. Text stands as
-- its bytes. Delays are in milliseconds.
pub mod Bounds
pub mod Delays
use fleetos_agent.Prelude.{
  ℕ, zero, suc, ◌*◌, ◌%◌, ◌^◌, String, Bool, true, false, ◌||◌, Option, none, some, List, [], ◌∷◌,
  Bytes, ltb, leb, ◌==◌, if◌then◌else◌,
}

-- `unavailable`, or another status code by its number.
pub data Code : Type 0 where
  unavailable : Code
  other : ℕ → Code

pub record Status : Type 0 where
  pub code : Code
  pub message : String
  pub leader_dc_address : Option (Option Bytes)

abbrev pub max_redirect_hops : ℕ
max_redirect_hops = 5

abbrev pub base_retry_delay_ms : ℕ
base_retry_delay_ms = 100

abbrev pub max_retry_delay_ms : ℕ
max_retry_delay_ms = 5000

pub data RetryAction : Type 0 where
  retry_same_target : ℕ → RetryAction
  redirect_and_retry : Bytes → ℕ → RetryAction
  give_up : String → RetryAction

-- `trim` on ASCII text: space, and the control characters from tab to carriage return.
abbrev pub is_space : ℕ → Bool
is_space b = if b == 32 then true else if ltb b 9 then false else leb b 13

abbrev pub trim_start : Bytes → Bytes
trim_start [] = []
trim_start (b ∷ bytes) = let rest = trim_start bytes in if is_space b then rest else b ∷ bytes

abbrev cons_trimmed : ℕ → Bytes → Bytes
cons_trimmed b [] = if is_space b then [] else b ∷ []
cons_trimmed b (c ∷ rest) = b ∷ c ∷ rest

abbrev pub trim_end : Bytes → Bytes
trim_end [] = []
trim_end (b ∷ bytes) = cons_trimmed b (trim_end bytes)

abbrev pub trim : Bytes → Bytes
trim bytes = trim_end (trim_start bytes)

-- The address of the leader, where the status names one.
abbrev pub non_empty : Bytes → Option Bytes
non_empty [] = none
non_empty (b ∷ bytes) = some (b ∷ bytes)

unfoldable pub leader_of : Option (Option Bytes) → Option Bytes
leader_of none = none
leader_of (some none) = none
leader_of (some (some value)) = non_empty (trim value)

abbrev pub min_delay : ℕ → ℕ
min_delay ms = if leb ms max_retry_delay_ms then ms else max_retry_delay_ms

-- `(BASE_RETRY_DELAY_MS * 2u64.pow(n as u32)).min(MAX_RETRY_DELAY_MS)`, where the power and the product
-- wrap at 64 bits.
unfoldable pub backoff_ms : ℕ → ℕ
backoff_ms n = min_delay (base_retry_delay_ms * (2 ^ (n % 2 ^ 32) % 2 ^ 64) % 2 ^ 64)

unfoldable pub classify_code : Code → Option Bytes → ℕ → RetryAction
classify_code unavailable (some address) redirect_hops = redirect_and_retry address 0
classify_code unavailable none redirect_hops = retry_same_target (backoff_ms redirect_hops)
classify_code (other n) leader redirect_hops = give_up "non-retryable gRPC error"

unfoldable pub classify_error : Status → ℕ → RetryAction
classify_error status redirect_hops =
    if ltb max_redirect_hops redirect_hops
    then give_up "max redirect hops exceeded"
    else classify_code status.code (leader_of status.leader_dc_address) redirect_hops
