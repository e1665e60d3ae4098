-- ===== src/Server/Build.antt =====
-- internal/server/app.go: `Build`, over the store that internal/store chose, and what main does with
-- it. Starting goroutines, the router and the cleanups are left to the runtime and the framework.
use sentinel_api.Base.{
  ℕ, String, Bool, ◌&&◌, List, [], str_eq, All, Map, Bool-cases, inl, inr, if◌then◌else◌,
}
use sentinel_api.Config.{Config}
use sentinel_api.Alerts.Store.{Store, Laws}
use sentinel_api.Alerts.Soundness.{IsSound}
use sentinel_api.Alerts.Seed.{seed_demo, seed_demo-IsSound}
use sentinel_api.Containment.{Items}
use sentinel_api.Edge.{Kind, Policy}
use sentinel_api.Server.Pipeline.{Pipeline, new_pipeline}
use sentinel_api.Server.Desk.Calls.{Request, serve_all, serve_all-IsSound}

module _ (St : Store) where
  -- The store as it is served: the demonstration alerts are added where the simulator runs on the
  -- memory; their error is only logged.
  unfoldable pub starting : Config → (ℕ → String) → ℕ → St.State → St.State
  unfolding seed_demo
  starting c draw now s =
      if c.sim_enabled && str_eq c.store_kind "memory" then (seed_demo St draw now s).0 else s

  module _ (visit : Kind → Map Policy → List Policy) where
    pub record App : Type 0 where
      pub pipeline : Pipeline St visit
      pub controls : Items
      pub simulates : Bool
      pub tailed : List String

    unfoldable pub build : Config → (ℕ → String) → ℕ → St.State → App
    unfolding starting new_pipeline
    build c draw now s = record {
      pipeline = new_pipeline St visit (starting c draw now s);
      controls = [];
      simulates = c.sim_enabled;
      tailed = c.tail_paths;
    }

  module _ (L : Laws St) where
    -- From a valid store of sound alerts, building the application and then serving any requests
    -- that change alerts leaves every alert sound.
    pub starting-IsSound :
        (c : Config) (draw : ℕ → String) (now : ℕ) (rs : List Request) (s : St.State)
        → L.IsValid s
        → All IsSound (L.contents s)
        → All IsSound (L.contents (serve_all St rs (starting c draw now s)))
    unfolding starting
    starting-IsSound c draw now rs s v h =
        elim (Bool-cases (c.sim_enabled && str_eq c.store_kind "memory")) [
          | inl k ↦ rw k (
              let (v', h') = seed_demo-IsSound St L draw now s v h in
              serve_all-IsSound St L rs (seed_demo St draw now s).0 v' h')
          | inr k ↦ rw k (serve_all-IsSound St L rs s v h)
        ]
