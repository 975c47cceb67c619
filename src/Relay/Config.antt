-- ===== src/Relay/Config.antt =====
-- callback_relay/main.go: the configuration of the relay and the health check of its container. The
-- environment, the network and package net's functions on addresses are parameters. An unset variable
-- is empty.
use docling_serve_ray.Prelude.{
  ℕ, ◌≡◌, refl, Bool, true, false, not, Option, none, some, List, [], ◌∷◌, ◌++◌, ◌==◌, ◌||◌, sym,
  ap, ◌∙◌, if◌then◌else◌,
}
use docling_serve_ray.Text.{Text, codes, str_eq}
use docling_serve_ray.Relay.{
  ProgressCallback, CallbackRequest, SignalArgument, Signaled, is_empty, callback,
}

pub record Config : Type 0 where
  pub listen_addr : Text
  pub temporal_address : Text
  pub temporal_namespace : Text
  pub callback_token : Text

module _ (getenv : Text → Text) where
  unfoldable pub value_or : Text → Text → Text
  value_or key fallback = if is_empty (getenv key) then fallback else getenv key

  abbrev pub listen_addr : Text
  listen_addr = value_or (codes "RELAY_LISTEN_ADDR") (codes ":8080")

  -- `loadConfig`: `none` is its error.
  unfoldable pub load_config : Option Config
  load_config =
      if is_empty (getenv (codes "RELAY_CALLBACK_TOKEN"))
      then none
      else some (record {
        listen_addr = listen_addr;
        temporal_address = value_or (codes "RELAY_TEMPORAL_ADDRESS") (codes "localhost:7233");
        temporal_namespace = value_or (codes "RELAY_TEMPORAL_NAMESPACE") (codes "default");
        callback_token = getenv (codes "RELAY_CALLBACK_TOKEN");
      })

-- The exit code, by the status of the answer where there is one.
abbrev pub exit_code_of : Option ℕ → ℕ
exit_code_of none = 1
exit_code_of (some status) = if status == 204 then 0 else 1

module _ {W : Type 0} (split_host_port : Text → Option (Text × Text))
    (join_host_port : Text → Text → Text) (get : Text → W → Option ℕ × W) where
  -- `probe`
  unfoldable pub probe : Text → W → ℕ × W
  probe address w = elim (split_host_port address) [
    | none ↦ (1, w)
    | some (host, port) ↦
        let (status, v) =
          get (codes "http://" ++ join_host_port (codes "127.0.0.1") port ++ codes "/healthz") w in
        (exit_code_of status, v)
  ]

-- What is read of an optional value behind a test.
passed_test :
    {A : Type 0} (b : Bool) (a c : A)
    → (if b then none else some a) ≡ some c
    → (b ≡ false) × (a ≡ c)
passed_test true a c h = cc
passed_test false a c h = (refl, cc)

-- A token that is not empty is not the one that is missing.
empty_refused : (t : Text) → is_empty t ≡ false → (is_empty t || not (str_eq [] t)) ≡ true
unfolding str_eq
empty_refused [] h = cc
empty_refused (c ∷ t) h = refl

-- A configuration that loads has the token of the environment, which is not empty.
load_config-token :
    (getenv : Text → Text) (cfg : Config)
    → load_config getenv ≡ some cfg
    → (cfg.callback_token ≡ getenv (codes "RELAY_CALLBACK_TOKEN"))
      × (is_empty cfg.callback_token ≡ false)
unfolding load_config
load_config-token getenv cfg h =
    let (set, same) = passed_test (is_empty (getenv (codes "RELAY_CALLBACK_TOKEN"))) _ cfg h in
    let token : cfg.callback_token ≡ getenv (codes "RELAY_CALLBACK_TOKEN") =
      sym (ap (λ c. c.callback_token) same) in
    (token, ap is_empty token ∙ set)

-- A relay whose configuration loads refuses every request without a token, and touches nothing.
pub callback-refuses :
    {W : Type 0} (signal_workflow : List ℕ → Text → SignalArgument → W → Signaled × W)
    (decode : List ℕ → Option ProgressCallback) (getenv : Text → Text) (cfg : Config)
    (r : CallbackRequest) (w : W)
    → load_config getenv ≡ some cfg
    → r.token ≡ []
    → callback signal_workflow decode cfg.callback_token r w ≡ (401, w)
unfolding callback
callback-refuses signal_workflow decode getenv cfg r w loads bare =
    rw (bare, empty_refused cfg.callback_token (load_config-token getenv cfg loads).1) refl
