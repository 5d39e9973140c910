-- ===== src/Measure/Registry.antt =====
-- crates/darcbench-modules/src/registry.rs: the modules that a build can run, by their ids, and the
-- ones that a profile runs. What a module is, is a type of its own.
use darcbench.Base.{
  not, Option, none, some, String, List, [], ◌∷◌, ◌++◌, keep, collect, is_nil, is_some,
  if◌then◌else◌, string_eq,
}
use darcbench.Base.Map.{Map, lookup, string_lt}
use darcbench.Base.Result.{Result, ok, err}
use darcbench.Protocol.Run.{Profile, quick, standard, deep, endurance, read_only, web_only, custom}

-- The modules in the order of their ids.
pub record Registry (M : Type 0) : Type 0 where
  pub modules : Map String M

module _ {M : Type 0} (r : Registry M) where
  unfoldable pub get : String → Option M
  get id = lookup id r.modules

  unfoldable pub has : String → Option String
  has name = if is_some (lookup name r.modules) then some name else none

  -- the first modules of every profile that measures the machine
  abbrev pub machine : List String
  machine = "cpu.mixed" ∷ "memory.bandwidth" ∷ []

  abbrev pub wanted_by : Profile → List String
  wanted_by web_only = "web.static" ∷ "php.runtime" ∷ "node.runtime" ∷ []
  wanted_by read_only = machine
  wanted_by quick = machine ++ ("storage.mixed" ∷ [])
  wanted_by endurance = machine ++ ("storage.mixed" ∷ [])
  wanted_by standard = machine ++ ("storage.mixed" ∷ "network.transfer" ∷ "web.static" ∷ [])
  wanted_by custom = machine ++ ("storage.mixed" ∷ "network.transfer" ∷ "web.static" ∷ [])
  wanted_by deep =
      machine
      ++ ("storage.mixed" ∷ "network.transfer" ∷ "web.static" ∷ "php.runtime" ∷ "node.runtime"
          ∷ "database.oltp" ∷ "database.cache" ∷ "wordpress.site" ∷ "deployment.container" ∷ [])

  unfoldable pub modules_for_profile : Profile → List String
  unfolding has
  modules_for_profile p = collect has (wanted_by p)

  -- The unknown ids are the error.
  unfoldable pub validate : List String → Result (List String) (Unit {0})
  validate requested =
      let unknown = keep (λ id. not (is_some (lookup id r.modules))) requested in
      if is_nil unknown then ok tt else err unknown
