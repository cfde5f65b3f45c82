-- ===== src/Client/Connection/Current.antt =====
-- The channel that src/client/mod.rs hands out is one to the current target.
use fleetos_agent.Prelude.{
  ℕ, ◌≤◌, Option, none, some, List, [], ◌∷◌, Bytes, ◌≡◌, ◌⊎◌, inl, inr, refl, sym, ◌∙◌, arith, ltb,
  Bool-cases, subst,
}
use fleetos_agent.Collections.Key.{same_bytes}
use fleetos_agent.Errors.{Result, ok, err}
use fleetos_agent.Client.Channels.{Tonic}
use fleetos_agent.Client.Connection.{
  World, ControlPlaneClient, new_client, build, get_channel, retarget, see_rotation, use_channel,
  keep_built,
}

module _ (tonic : Tonic) where
  -- One of the worlds that a client has met.
  abbrev pub Among : World tonic → List (World tonic) → Type 0
  Among w [] = ⊥
  Among w (x ∷ xs) = (w ≡ x) ⊎ Among w xs

  -- A channel that was built for this target in a world that the client has met, with the SVID that
  -- the node had there, of this generation.
  pub record Built (seen : List (World tonic)) (target trust : Bytes) (generation : ℕ)
      (chan : tonic.Channel) : Type 0 where
    pub world : World tonic
    pub was_seen : Among world seen
    pub client : ControlPlaneClient tonic
    pub target_is : client.current_target ≡ target
    pub trust_is : client.trust_bundle_pem ≡ trust
    pub generation_is : world.svid.generation ≡ generation
    pub built : build tonic world client ≡ ok chan

  abbrev pub Holds : List (World tonic) → Option tonic.Channel → Bytes → Bytes → ℕ → Type 0
  Holds seen none target trust generation = Unit
  Holds seen (some chan) target trust generation = Built seen target trust generation chan

  abbrev pub Current : List (World tonic) → ControlPlaneClient tonic → Type 0
  Current seen c = Holds seen c.channel c.current_target c.trust_bundle_pem c.last_svid_generation

  Holds-more :
      (w : World tonic) (seen : List (World tonic)) (o : Option tonic.Channel)
      (target trust : Bytes) (generation : ℕ)
      → Holds seen o target trust generation
      → Holds (w ∷ seen) o target trust generation
  Holds-more w seen none target trust generation h = tt
  Holds-more w seen (some chan) target trust generation h = record {
    world = h.world;
    was_seen = inr h.was_seen;
    client = h.client;
    target_is = h.target_is;
    trust_is = h.trust_is;
    generation_is = h.generation_is;
    built = h.built;
  }

  pub retarget-Current :
      (seen : List (World tonic)) (target : Bytes) (c : ControlPlaneClient tonic)
      → Current seen c
      → Current seen (retarget tonic target c)
  unfolding retarget
  retarget-Current seen target c h = elim (Bool-cases (same_bytes c.current_target target)) [
    | inl same ↦ rw same h
    | inr other ↦ rw other tt
  ]

  see_rotation-Current :
      (seen : List (World tonic)) (w : World tonic) (c : ControlPlaneClient tonic)
      → Current seen c
      → Current seen (see_rotation tonic w c)
  see_rotation-Current seen w c h =
      elim (Bool-cases (ltb c.last_svid_generation w.svid.generation)) [
        | inl newer ↦ rw newer tt
        | inr same ↦ rw same h
      ]

  see_rotation-generation :
      (w : World tonic) (c : ControlPlaneClient tonic)
      → c.last_svid_generation ≤ w.svid.generation
      → (see_rotation tonic w c).last_svid_generation ≡ w.svid.generation
  see_rotation-generation w c le =
      elim (Bool-cases (ltb c.last_svid_generation w.svid.generation)) [
        | inl newer ↦ rw newer refl
        | inr same ↦ rw same (ground arith)
      ]

  -- What a call of `get_channel` returns, given the client it leaves.
  abbrev pub Returns : List (World tonic) → Result tonic.Channel → ControlPlaneClient tonic → Type 0
  Returns seen (ok chan) c =
      Built seen c.current_target c.trust_bundle_pem c.last_svid_generation chan
  Returns seen (err e) c = c.channel ≡ none

  keep_built-Current :
      (seen : List (World tonic)) (r : Result tonic.Channel) (w : World tonic)
      (c : ControlPlaneClient tonic)
      → c.last_svid_generation ≡ w.svid.generation
      → c.channel ≡ none
      → build tonic w c ≡ r
      → let (r', c') = keep_built tonic r c in Returns (w ∷ seen) r' c' × Current (w ∷ seen) c'
  keep_built-Current seen (ok chan) w c g e h =
      let b : Built (w ∷ seen) c.current_target c.trust_bundle_pem c.last_svid_generation chan =
        record {
          world = w;
          was_seen = inl refl;
          client = c;
          target_is = refl;
          trust_is = refl;
          generation_is = sym g;
          built = h;
        } in
      (b, b)
  keep_built-Current seen (err e) w c g closed h = (closed, rw closed tt)

  use_channel-Current :
      (seen : List (World tonic)) (o : Option tonic.Channel) (w : World tonic)
      (c : ControlPlaneClient tonic)
      → c.last_svid_generation ≡ w.svid.generation
      → c.channel ≡ o
      → Current seen c
      → let (r', c') = use_channel tonic o w c in Returns (w ∷ seen) r' c' × Current (w ∷ seen) c'
  use_channel-Current seen none w c g e h = keep_built-Current seen (build tonic w c) w c g e refl
  use_channel-Current seen (some chan) w c g e h =
      let later =
        Holds-more w seen c.channel c.current_target c.trust_bundle_pem c.last_svid_generation h in
      (
        subst (λ o. Holds (w ∷ seen) o c.current_target c.trust_bundle_pem c.last_svid_generation) e
            later,
        later,
      )

  pub get_channel-Current :
      (seen : List (World tonic)) (w : World tonic) (c : ControlPlaneClient tonic)
      → c.last_svid_generation ≤ w.svid.generation
      → Current seen c
      → let (r, c') = get_channel tonic w c in Returns (w ∷ seen) r c' × Current (w ∷ seen) c'
  unfolding get_channel
  get_channel-Current seen w c le h =
      use_channel-Current seen (see_rotation tonic w c).channel w (see_rotation tonic w c)
        (see_rotation-generation w c le) refl (see_rotation-Current seen w c h)

  keep_built-generation :
      (r : Result tonic.Channel) (c : ControlPlaneClient tonic)
      → (keep_built tonic r c).1.last_svid_generation ≡ c.last_svid_generation
  keep_built-generation (ok chan) c = refl
  keep_built-generation (err e) c = refl

  use_channel-generation :
      (o : Option tonic.Channel) (w : World tonic) (c : ControlPlaneClient tonic)
      → (use_channel tonic o w c).1.last_svid_generation ≡ c.last_svid_generation
  use_channel-generation none w c = keep_built-generation (build tonic w c) c
  use_channel-generation (some chan) w c = refl

  pub get_channel-generation :
      (w : World tonic) (c : ControlPlaneClient tonic)
      → c.last_svid_generation ≤ w.svid.generation
      → (get_channel tonic w c).1.last_svid_generation ≡ w.svid.generation
  unfolding get_channel
  get_channel-generation w c le =
      use_channel-generation (see_rotation tonic w c).channel w (see_rotation tonic w c)
      ∙ see_rotation-generation w c le

  -- What happens to a client between two calls.
  pub data Use : Type 0 where
    asks : World tonic → Use
    moves : Bytes → Use

  pub use_client : List Use → ControlPlaneClient tonic → ControlPlaneClient tonic
  use_client [] c = c
  use_client (asks w ∷ uses) c = use_client uses (get_channel tonic w c).1
  use_client (moves target ∷ uses) c = use_client uses (retarget tonic target c)

  -- The worlds of the uses, the latest first.
  abbrev pub seen_in : List Use → List (World tonic) → List (World tonic)
  seen_in [] seen = seen
  seen_in (asks w ∷ uses) seen = seen_in uses (w ∷ seen)
  seen_in (moves target ∷ uses) seen = seen_in uses seen

  -- Generations never fall.
  abbrev pub Grows : ℕ → List Use → World tonic → Type 0
  Grows g [] last = g ≤ last.svid.generation
  Grows g (asks w ∷ uses) last = (g ≤ w.svid.generation) × Grows w.svid.generation uses last
  Grows g (moves target ∷ uses) last = Grows g uses last

  pub retarget-generation :
      (target : Bytes) (c : ControlPlaneClient tonic)
      → (retarget tonic target c).last_svid_generation ≡ c.last_svid_generation
  unfolding retarget
  retarget-generation target c = elim (Bool-cases (same_bytes c.current_target target)) [
    | inl same ↦ rw same refl
    | inr other ↦ rw other refl
  ]

  uses-Current :
      (uses : List Use) (seen : List (World tonic)) (last : World tonic)
      (c : ControlPlaneClient tonic)
      → Grows c.last_svid_generation uses last
      → Current seen c
      → Current (seen_in uses seen) (use_client uses c)
        × ((use_client uses c).last_svid_generation ≤ last.svid.generation)
  unfolding use_client
  uses-Current [] seen last c g h = (h, g)
  uses-Current (asks w ∷ uses) seen last c g h =
      uses-Current uses (w ∷ seen) last (get_channel tonic w c).1
        (subst (λ n. Grows n uses last) (sym (get_channel-generation w c g.0)) g.1)
        (get_channel-Current seen w c g.0 h).1
  uses-Current (moves target ∷ uses) seen last c g h =
      uses-Current uses seen last (retarget tonic target c)
        (subst (λ n. Grows n uses last) (sym (retarget-generation target c)) g)
        (retarget-Current seen target c h)

  -- A client that has been asked for channels and retargeted in any order, while the generation of the
  -- SVID never fell, then answers a call either with a channel that was built for its current target
  -- and its trust bundle, at one of the calls so far, this one included, and with the SVID that the node
  -- had at that call, whose generation is the present one; or with an error, and then it holds no channel.
  pub channel_is_current :
      (target trust : Bytes) (uses : List Use) (w : World tonic)
      → Grows 0 uses w
      → let (r, c) = get_channel tonic w (use_client uses (new_client tonic target trust)) in
        Returns (w ∷ seen_in uses []) r c × (c.last_svid_generation ≡ w.svid.generation)
  channel_is_current target trust uses w g =
      let first = new_client tonic target trust in
      let (current, le) = uses-Current uses [] w first g tt in
      (
        (get_channel-Current (seen_in uses []) w (use_client uses first) le current).0,
        get_channel-generation w (use_client uses first) le,
      )
