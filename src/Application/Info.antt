-- ===== src/Application/Info.antt =====
-- src/PipelineRunnerPlugins/*/Plugin: `info` of the four plugins, with loadorder.h.
use pipelinerunner.Base.{ℕ, ◌+◌, List, [], ◌∷◌, String}

pub data Plugin : Type 0 where
  config converter rabbit runner : Plugin

-- The values of LoadOrder, after `PluginOrder::base`.
unfoldable pub load_order : ℕ → Plugin → ℕ
load_order base config = base + 1
load_order base converter = base + 2
load_order base rabbit = base + 3
load_order base runner = base + 4

-- What `info` gives: the name, the description, the order and the version.
pub record PluginInfo : Type 0 where
  pub name : String
  pub description : String
  pub order : ℕ
  pub version : List ℕ

abbrev info_of : ℕ → Plugin → String → String → PluginInfo
info_of base p name description = record {
  name = name;
  description = description;
  order = load_order base p;
  version = 0 ∷ 1 ∷ [];
}

-- `ConfigPlugin::info`
pub config_info : ℕ → PluginInfo
config_info base = info_of base config "config" "config plugin"

-- `ConverterPlugin::info`
pub converter_info : ℕ → PluginInfo
converter_info base = info_of base converter "converter" "converter plugin"

-- `RabbitPlugin::info`
pub rabbit_info : ℕ → PluginInfo
rabbit_info base = info_of base rabbit "rabbit" "rabbit plugin"

-- `RunnerPlugin::info`
pub runner_info : ℕ → PluginInfo
runner_info base = info_of base runner "runner" "runner plugin"
