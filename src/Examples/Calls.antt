-- ===== src/Examples/Calls.antt =====
-- Unary calls over a redirection, transient failures and an answer, and the fetching of a secret. A
-- channel is the address that it was built for.
use fleetos_agent.Prelude.{
  Option, String, ℕ, true, false, none, some, List, [], ◌∷◌, Bytes, ◌≡◌, refl, arith, Bool, not,
}
use fleetos_agent.Errors.{ok}
use fleetos_agent.Identity.Svid.{SvidState}
use fleetos_agent.Client.Retry.{Status, unavailable}
use fleetos_agent.Client.Channels.{Tonic}
use fleetos_agent.Client.Connection.{World, new_client, get_channel}
use fleetos_agent.Client.Connection.Current.{
  seen_in, asks, moves, Use, use_client, Returns, channel_is_current,
}
use fleetos_agent.Client.Unary.{Round, Answer, response, failure, start, call, FetchSecretRequest}
use fleetos_agent.Client.Unary.Ends.{Ended, call_ends}
use fleetos_agent.Client.Unary.Answers.{Sound, call-answered}
use fleetos_agent.Config.{
  AgentConfig, Floats, with_defaults, NodeConfig, ControlConfig, StorageConfig, load,
}
use fleetos_agent.Config.Load.{Loaded, load_exact}
use fleetos_agent.Secret.Fetch.{fetch_secret}
use fleetos_agent.Secret.Fetch.Attempts.{Ends, fetch-Ends, Live, fetch-Live}
use fleetos_agent.Examples.Client.{redirected, denied}
use fleetos_agent.Prelude.{◌↔◌}

abbrev tonic : Tonic
tonic = record {
  Endpoint = Bytes;
  Channel = Bytes;
  from_shared = λ address. some address;
  tls_config = λ endpoint settings. some endpoint;
  encode_base64 = λ bytes. bytes;
}

abbrev svid : ℕ → SvidState
svid generation = record {
  cert_chain_der = (1 ∷ []) ∷ [];
  svid_version = 4;
  generation = generation;
}

abbrev world : ℕ → World tonic
world generation = record {
  svid = svid generation;
  load_svid_private_key = ok (some (7 ∷ []));
  connect = λ endpoint. some endpoint;
}

abbrev uses : List (Use tonic)
uses = asks (world 1) ∷ moves (98 ∷ []) ∷ asks (world 2) ∷ []

channel_is_current_example :
    let (r, c) =
      get_channel tonic (world 2) (use_client tonic uses (new_client tonic (97 ∷ []) [])) in
    Returns tonic (world 2 ∷ seen_in tonic uses []) r c × (c.last_svid_generation ≡ 2)
channel_is_current_example =
    channel_is_current tonic (97 ∷ []) [] uses (world 2) (omega arith, (omega arith, omega arith))

abbrev busy : Status
busy = record { code = unavailable; message = "busy"; leader_dc_address = none }

abbrev round : Answer ℕ → Round tonic ℕ ℕ
round answer = record { world = world 1; answer = λ chan request. answer }

abbrev rounds : List (Round tonic ℕ ℕ)
rounds =
    round (failure busy)
    ∷ round (failure redirected)
    ∷ round (failure busy)
    ∷ round (response 5)
    ∷ round (response 5)
    ∷ round (response 5)
    ∷ round (response 5)
    ∷ round (response 5)
    ∷ round (response 5)
    ∷ round (response 5)
    ∷ []

call_ends_example : Ended tonic (call tonic (λ n. n) 3 rounds start (new_client tonic (97 ∷ []) []))
call_ends_example = call_ends tonic (λ n. n) 3 rounds (new_client tonic (97 ∷ []) []) (omega arith)

call-answered_example :
    Sound tonic
      (λ n. n)
      3
      []
      rounds
      (call tonic (λ n. n) 3 rounds start (new_client tonic (97 ∷ []) []))
call-answered_example =
    call-answered tonic (λ n. n) 3 [] rounds (new_client tonic (97 ∷ []) [])
      (
        omega arith,
        (
          omega arith,
          (
            omega arith,
            (
              omega arith,
              (
                omega arith,
                (omega arith, (omega arith, (omega arith, (omega arith, (omega arith, tt))))),
              ),
            ),
          ),
        ),
      )
      tt

abbrev servers : List (FetchSecretRequest → Answer ℕ)
servers = (λ r. failure busy) ∷ (λ r. response 8) ∷ (λ r. failure denied) ∷ (λ r. response 9) ∷ []

fetch-Ends_example : Ends (fetch_secret (svid 1) "db" servers)
fetch-Ends_example = fetch-Ends (svid 1) "db" servers (omega arith)

fetch-Live_example : Live (svid 1) "db" servers (fetch_secret (svid 1) "db" servers)
fetch-Live_example = fetch-Live (svid 1) "db" servers

-- A number stands here for whether it is above 0.
abbrev floats : Floats
floats = record {
  F64 = Bool;
  le_zero = λ b. not b;
  ge_one = λ b. false;
  three_quarters = true;
  three_quarters_inside = refl;
}

abbrev node_config : NodeConfig
node_config = record { name = "n1"; trust_domain = "td" }

abbrev control_config : ControlConfig
control_config = record { address = "10.0.1.1:9443"; trust_bundle_path = "/bundle.pem" }

abbrev storage_config : StorageConfig
storage_config = record { fjall_path = "/db" }

-- The token file holds the letter a between white space.
abbrev read_file : String → Option (List ℕ)
read_file path = some (160 ∷ 97 ∷ 10 ∷ [])

abbrev parsed_config : AgentConfig floats
parsed_config =
    let defaults = with_defaults floats node_config control_config storage_config in
    record defaults { join = record defaults.join { join_token_path = some "/token" } }

abbrev loaded_config : AgentConfig floats
loaded_config = record parsed_config { join = record parsed_config.join { token = 97 ∷ [] } }

load_exact_example :
    (load floats read_file (λ raw. some parsed_config) "agent.toml" ≡ ok loaded_config)
    ↔ Loaded floats read_file (λ raw. some parsed_config) "agent.toml" loaded_config
load_exact_example =
    load_exact floats read_file (λ raw. some parsed_config) "agent.toml" loaded_config
