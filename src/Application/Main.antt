-- ===== src/Application/Main.antt =====
-- src/PipelineRunner: pipelinerunner.h and pipelinerunner.cpp. The service of plugins is a parameter.
use pipelinerunner.Base.{
  Bool, true, false, List, [], ◌∷◌, map, Option, none, some, String, if◌then◌else◌,
}
use Prim.Native.String.{◌++◌ as append}
use pipelinerunner.Base.Results.{Result, ok, err}
use pipelinerunner.Toolkit.Value.{Error, other_error}

-- LoadError::Reason, as far as the program tells its values apart.
pub data Reason : Type 0 where
  not_found load_failure not_a_plugin bad_cast rejected duplicate constraint_unsatisfied
        unknown_reason :
      Reason

pub record LoadError : Type 0 where
  pub path : String
  pub reason : Reason
  pub error : String

-- Plt2::Core::PluginService with the service locator. `load_plugins` loads from a directory and starts what
-- it loads; it gives the errors, or what a plugin throws.
pub record PluginService : Type 1 where
  pub World : Type 0
  pub add_service : World → Bool × World
  pub load_plugins : World → String → Result Error (Option (List LoadError)) × World

-- `convertReason`
pub convert_reason : Reason → String
convert_reason not_found = "could not find loaded plugin file"
convert_reason load_failure = "failed to load plugin library"
convert_reason not_a_plugin = "the library is not a plugin"
convert_reason bad_cast = "error plugin interface casting"
convert_reason rejected = "the plugin refused to load"
convert_reason duplicate = "plugin with this version and name has already been loaded"
convert_reason constraint_unsatisfied = "plugin restrictions not satisfied"
convert_reason unknown_reason = "unknown error"

-- The critical messages.
pub data Line : Type 0 where
  failed_application : Error → Line
  failed_plugin : String → String → String → Line

-- `plugins_path`
abbrev pub plugins_path : String
plugins_path = "plugins"

abbrev pub report : LoadError → Line
report e = failed_plugin e.path (convert_reason e.reason) e.error

module _ (service : PluginService) (application_dir separator : String) where
  open service use {World}

  abbrev pub plugins_dir : String
  plugins_dir = append application_dir (append separator plugins_path)

  loaded : Result Error (Option (List LoadError)) × World → Result Error (List Line) × World
  loaded (err e, w) = (err e, w)
  loaded (ok none, w) = (ok [], w)
  loaded (ok (some errors), w) = (ok (map report errors), w)

  -- `initPluginsService`: what is logged.
  unfoldable pub init_plugins_service : World → Result Error (List Line) × World
  unfolding loaded
  init_plugins_service w =
      let (added, w') = service.add_service w in
      let done = loaded (service.load_plugins w' plugins_dir) in
      if added then done else (err (other_error "unable to add plugin service"), w')

  -- What is logged, and whether the application is told to exit with -1.
  pub record Started : Type 0 where
    pub lines : List Line
    pub exits : Bool
    pub world : World

  caught : Result Error (List Line) × World → Started
  caught (err e, w) = record { lines = failed_application e ∷ []; exits = true; world = w }
  caught (ok lines, w) = record { lines = lines; exits = false; world = w }

  -- `PipelineRunner::start`
  unfoldable pub start : World → Started
  unfolding caught
  start w = caught (init_plugins_service w)
