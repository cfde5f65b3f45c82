-- ===== src/Config/Load.antt =====
-- What src/config.rs accepts.
use fleetos_agent.Prelude.{
  ◌≤◌, String, false, ◌&&◌, ◌||◌, Option, none, some, ℕ, List, sym, ◌≡◌, ◌↔◌, refl, ap, ◌∙◌, subst,
  arith, inl, inr, ltb, Option-cases,
}
use fleetos_agent.Errors.{ok, Result-cases}
use fleetos_agent.Config.{
  Floats, AgentConfig, is_empty, is_insecure, no_bytes, validate, resolve_token, load, trim,
}

module _ (floats : Floats) where
  -- The conditions on a configuration.
  pub record Valid (c : AgentConfig floats) : Type 0 where
    pub named : is_empty c.node.name ≡ false
    pub in_domain : is_empty c.node.trust_domain ≡ false
    pub addressed : is_empty c.control.address ≡ false
    pub fraction_inside :
        (floats.le_zero c.svid.refresh_fraction || floats.ge_one c.svid.refresh_fraction) ≡ false
    pub headroom_le : c.ebpf.map_headroom_percent ≤ 100
    pub token_given : (is_insecure c.join.mode && no_bytes c.join.token) ≡ false

  validate-Valid : (c : AgentConfig floats) → validate floats c ≡ ok tt → Valid c
  unfolding validate
  validate-Valid c e = record {
    named = ground arith;
    in_domain = ground arith;
    addressed = ground arith;
    fraction_inside = ground arith;
    headroom_le = ground arith;
    token_given = ground arith;
  }

  Valid-validate : (c : AgentConfig floats) → Valid c → validate floats c ≡ ok tt
  unfolding validate
  Valid-validate c v =
      let h : ltb 100 c.ebpf.map_headroom_percent ≡ false = ground (arith, v.headroom_le) in
      rw (v.named, v.in_domain, v.addressed, v.fraction_inside, h, v.token_given) refl

  -- A configuration is accepted exactly where its names and its address are not empty, no comparison
  -- puts the refresh fraction at 0 or below or at 1 or above, the headroom is at most 100 percent, and a join in the
  -- insecure mode has a token.
  pub validate_exact : (c : AgentConfig floats) → (validate floats c ≡ ok tt) ↔ Valid c
  validate_exact c = (validate-Valid c, Valid-validate c)

  module _ (read_to_string : String → Option (List ℕ))
      (from_str : List ℕ → Option (AgentConfig floats)) where
    -- A configuration as parsed, or with the trimmed content of the token file in the place of its token.
    abbrev pub TokenOf : Option String → AgentConfig floats → AgentConfig floats → Type 0
    TokenOf none file c = c ≡ file
    TokenOf (some token_path) file c =
        (content : List ℕ) × (read_to_string token_path ≡ some content)
        × (c ≡ record file { join = record file.join { token = trim content } })

    resolve_token-TokenOf :
        (o : Option String) (file c : AgentConfig floats)
        → resolve_token floats read_to_string from_str o file ≡ ok c
        → TokenOf o file c
    resolve_token-TokenOf none file c e = ground arith
    resolve_token-TokenOf (some token_path) file c e =
        elim (Option-cases (read_to_string token_path)) [
          | inl missing ↦ absurd (ground arith)
          | inr (content, q) ↦ (content, q, ground arith)
        ]

    TokenOf-resolve_token :
        (o : Option String) (file c : AgentConfig floats)
        → TokenOf o file c
        → resolve_token floats read_to_string from_str o file ≡ ok c
    TokenOf-resolve_token none file c h = ap ok (sym h)
    TokenOf-resolve_token (some token_path) file c (content, q, h) = ground (arith, q, h)

    -- The configuration of a file: its content, what TOML yields, and the token, which the token file
    -- replaces where one is named.
    pub record Loaded (path : String) (c : AgentConfig floats) : Type 0 where
      pub raw : List ℕ
      pub file : AgentConfig floats
      pub content : read_to_string path ≡ some raw
      pub toml : from_str raw ≡ some file
      pub resolved : TokenOf file.join.join_token_path file c
      pub valid : Valid c

    load-Loaded :
        (path : String) (c : AgentConfig floats)
        → load floats read_to_string from_str path ≡ ok c
        → Loaded path c
    unfolding load
    load-Loaded path c e = elim (Option-cases (read_to_string path)) [
      | inl missing ↦ absurd (ground arith)
      | inr (raw, q) ↦ elim (Option-cases (from_str raw)) [
        | inl wrong ↦ absurd (ground arith)
        | inr (file, p) ↦
            elim (Result-cases
              (resolve_token floats read_to_string from_str file.join.join_token_path file)) [
                | inr (e', r) ↦ absurd (ground arith)
                | inl (c', r) ↦ elim (Result-cases (validate floats c')) [
                  | inr (e', v) ↦ absurd (ground arith)
                  | inl (u, v) ↦
                      let same : c' ≡ c = ground arith in
                      record {
                        raw = raw;
                        file = file;
                        content = q;
                        toml = p;
                        resolved =
                            resolve_token-TokenOf file.join.join_token_path file c (r ∙ ap ok same);
                        valid = subst Valid same (validate-Valid c' v);
                      }
                ]
              ]
      ]
    ]

    Loaded-load :
        (path : String) (c : AgentConfig floats)
        → Loaded path c
        → load floats read_to_string from_str path ≡ ok c
    unfolding load
    Loaded-load path c l =
        let resolved = TokenOf-resolve_token l.file.join.join_token_path l.file c l.resolved in
        ground (arith, l.content, l.toml, resolved, Valid-validate c l.valid)

    -- Loading a file succeeds with a configuration exactly where the file can be read and parsed, its
    -- token file, if it names one, can be read, and what results is accepted: the parsed file
    -- with the trimmed content of the token file as its token.
    pub load_exact :
        (path : String) (c : AgentConfig floats)
        → (load floats read_to_string from_str path ≡ ok c) ↔ Loaded path c
    load_exact path c = (load-Loaded path c, Loaded-load path c)
