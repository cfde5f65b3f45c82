-- ===== src/Client/Connection.antt =====
-- src/client/mod.rs: the client's target and channel. What a call finds outside the client (the node's
-- SVID, its private key, and what connecting returns) is a `World`, since it changes between calls.
pub mod Current
use fleetos_agent.Prelude.{ℕ, Bool, true, false, Option, none, some, Bytes, ltb, if◌then◌else◌}
use fleetos_agent.Errors.{AgentError, identity, Result, ok, err, ◌>>=◌}
use fleetos_agent.Identity.Svid.{SvidState}
use fleetos_agent.Collections.Key.{bytes_key, same_bytes}
use fleetos_agent.Client.Channels.{Tonic, build_mtls_channel}

abbrev pub found_key : Option Bytes → Result Bytes
found_key none = err (identity "SVID private key not found in keystore")
found_key (some key) = ok key

module _ (tonic : Tonic) where
  pub record World : Type 0 where
    pub svid : SvidState
    pub load_svid_private_key : Result (Option Bytes)
    pub connect : tonic.Endpoint → Option tonic.Channel

  pub record ControlPlaneClient : Type 0 where
    pub current_target : Bytes
    pub channel : Option tonic.Channel
    pub last_svid_generation : ℕ
    pub trust_bundle_pem : Bytes

  abbrev pub new_client : Bytes → Bytes → ControlPlaneClient
  new_client initial_target trust_bundle_pem = record {
    current_target = initial_target;
    channel = none;
    last_svid_generation = 0;
    trust_bundle_pem = trust_bundle_pem;
  }

  abbrev pub build : World → ControlPlaneClient → Result tonic.Channel
  build w c = w.load_svid_private_key >>= λ found. found_key found >>= λ key.
      build_mtls_channel tonic w.connect c.current_target c.trust_bundle_pem w.svid.cert_chain_der
        key

  abbrev pub keep_built :
      Result tonic.Channel → ControlPlaneClient → Result tonic.Channel × ControlPlaneClient
  keep_built (ok new_channel) c = (ok new_channel, record c { channel = some new_channel })
  keep_built (err e) c = (err e, c)

  abbrev pub use_channel :
      Option tonic.Channel → World → ControlPlaneClient → Result tonic.Channel × ControlPlaneClient
  use_channel (some chan) w c = (ok chan, c)
  use_channel none w c = keep_built (build w c) c

  abbrev pub see_rotation : World → ControlPlaneClient → ControlPlaneClient
  see_rotation w c =
      if ltb c.last_svid_generation w.svid.generation
      then record c { last_svid_generation = w.svid.generation; channel = none }
      else c

  unfoldable pub get_channel :
      World → ControlPlaneClient → Result tonic.Channel × ControlPlaneClient
  get_channel w c = let seen = see_rotation w c in use_channel seen.channel w seen

  unfoldable pub retarget : Bytes → ControlPlaneClient → ControlPlaneClient
  retarget new_target c =
      if same_bytes c.current_target new_target
      then c
      else record c { current_target = new_target; channel = none }
