-- ===== src/Common/Config/Service.antt =====
-- src/PipelineRunnerPlugins/ConfigPlugin/Service: configservice.h and the rest of configservice.cpp.
use mathlib.Core.Path.{subst}
use pipelinerunner.Base.{
  ℕ, ◌≡◌, refl, ◌⊎◌, inl, inr, Bool, true, false, List, [], ◌∷◌, Option, none, some, String,
  Option-cases,
}
use pipelinerunner.Base.Results.{Result, ok, err}
use pipelinerunner.Toolkit.Value.{Fields, Error, other_error}
use pipelinerunner.Qt.{Qt, IsDocumented}
use pipelinerunner.Common.Config.{Config, parse_config}
use pipelinerunner.Common.Config.Parse.{IsRead, parse_config-IsRead}

-- `config_path`
abbrev pub config_path : String
config_path = "/etc/pipelinerunner/config.json"

-- The path that `start` reads: the argument of the program, if it has exactly one.
abbrev pub path_of : List String → String
path_of (program ∷ path ∷ []) = path
path_of _ = config_path

module _ (qt : Qt) where
  -- A file that cannot be opened is `none`.
  abbrev pub Files : Type 0
  Files = String → Option (List ℕ)

  pub record ConfigService : Type 0 where
    pub config : Config qt

  -- The `try` block of `start`.
  keep_config : ConfigService → Result Error (Config qt) → ConfigService × Bool
  keep_config s (err e) = (s, false)
  keep_config s (ok c) = (record { config = c }, true)

  parse_file : ConfigService → Option (Fields qt.Double) → Result Error (ConfigService × Bool)
  unfolding keep_config
  parse_file s none = err (other_error "json parse error")
  parse_file s (some obj) = ok (keep_config s (parse_config qt obj))

  read_file : ConfigService → Option (List ℕ) → Result Error (ConfigService × Bool)
  unfolding parse_file
  read_file s none = err (other_error "unable to access config file")
  read_file s (some bytes) = parse_file s (qt.parse_object bytes)

  -- `ConfigService::start`
  unfoldable pub start : ConfigService → Files → List String → Result Error (ConfigService × Bool)
  unfolding read_file
  start s files args = read_file s (files (path_of args))

  keep_config-IsRead :
      (s s' : ConfigService) (b : Bool) (obj : Fields qt.Double) (r : Result Error (Config qt))
      → IsDocumented qt
      → parse_config qt obj ≡ r
      → ◌≡◌ {A = Result Error (ConfigService × Bool)} (ok (keep_config s r)) (ok (s', b))
      → ((b ≡ true) × IsRead qt obj s'.config) ⊎ ((b ≡ false) × (s' ≡ s))
  unfolding keep_config
  keep_config-IsRead s s' b obj (err e) doc p h = inr (cc, cc)
  keep_config-IsRead s s' b obj (ok c) doc p h =
      let same : c ≡ s'.config = cc in
      inl (cc, subst (IsRead qt obj) same (parse_config-IsRead qt obj c doc p))

  -- With the documented behaviour of doubles, where the start returns true, the file at the chosen path
  -- was read and parsed, and the service holds the configuration that the parsed object has: its host,
  -- its port and its texts are those under their keys; where it returns false, the service is as before.
  pub start-IsRead :
      (s s' : ConfigService) (files : Files) (args : List String) (b : Bool)
      → IsDocumented qt
      → start s files args ≡ ok (s', b)
      → ((b ≡ true)
          × (bytes : List ℕ) × (obj : Fields qt.Double) × (files (path_of args) ≡ some bytes)
          × (qt.parse_object bytes ≡ some obj)
          × IsRead qt obj s'.config)
        ⊎ ((b ≡ false) × (s' ≡ s))
  unfolding start
  start-IsRead s s' files args b doc e = elim (Option-cases (files (path_of args))) [
    | inl f ↦ cc (rw (f, start) at e)
    | inr (bytes, f) ↦ elim (Option-cases (qt.parse_object bytes)) [
      | inl p ↦ cc (rw (f, p) at e)
      | inr (obj, p) ↦
          elim (keep_config-IsRead s s' b obj (parse_config qt obj) doc refl (rw (f, p) at e)) [
            | inl (t, r) ↦ inl (t, bytes, obj, f, p, r)
            | inr k ↦ inr k
          ]
    ]
  ]
