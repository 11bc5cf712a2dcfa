-- ===== src/Config/Load.antt =====
-- Init of config/config.go: the files of a mode, in one directory, merged one after the other. Viper
-- is a parameter; an error of one of its Unmarshal calls is not looked at.
use zhibo.Prelude.{Bytes, codes, Option, none, some, List, [], ◌∷◌, ◌++◌}
use zhibo.Config.{
  Common, ConnectConfig, TaskConfig, LogicConfig, ApiConfig, SiteConfig, Config, get_mode,
}
use zhibo.Connect.Bucket.{Outcome, done, waits, panics}
use zhibo.Registry.{split_by}
use zhibo.Registry.Binds.{join}

-- `aPath[0:len(aPath)-1]`; a split is never empty.
abbrev pub all_but_last : List Bytes → List Bytes
all_but_last [] = []
all_but_last (x ∷ []) = []
all_but_last (x ∷ y ∷ ys) = x ∷ all_but_last (y ∷ ys)

-- getCurrentDir of the file that runtime.Caller names.
unfoldable pub get_current_dir : Bytes → Bytes
unfolding split_by
get_current_dir file_name = join b'/' (all_but_last (split_by b'/' file_name))

-- Viper over a state `W`: a read or a merge gives an error, or none.
pub record Viper (W : Type 0) : Type 0 where
  pub set_config_type : Bytes → W → W
  pub set_config_name : Bytes → W → W
  pub add_config_path : Bytes → W → W
  pub read_in_config : W → Option Bytes × W
  pub merge_in_config : W → Option Bytes × W
  pub unmarshal_common : W → Common
  pub unmarshal_connect : W → ConnectConfig
  pub unmarshal_task : W → TaskConfig
  pub unmarshal_logic : W → LogicConfig
  pub unmarshal_api : W → ApiConfig
  pub unmarshal_site : W → SiteConfig

module _ {W : Type 0} (viper : Viper W) where
  abbrev pub and_then : (W → Outcome W) → Option Bytes × W → Outcome W
  and_then rest (some e, w) = panics
  and_then rest (none, w) = rest w

  -- SetConfigName and MergeInConfig for each of these files.
  unfoldable pub merge_all : List Bytes → W → Outcome W
  merge_all [] w = done w
  merge_all (name ∷ names) w =
      and_then (merge_all names) (viper.merge_in_config (viper.set_config_name name w))

  abbrev pub merged_files : List Bytes
  merged_files =
      codes "/common" ∷ codes "/task" ∷ codes "/logic" ∷ codes "/api" ∷ codes "/site" ∷ []

  abbrev pub unmarshal : Outcome W → Outcome (Config × W)
  unmarshal panics = panics
  unmarshal waits = waits
  unmarshal (done w) = done (
    record {
      common = viper.unmarshal_common w;
      connect = viper.unmarshal_connect w;
      logic = viper.unmarshal_logic w;
      task = viper.unmarshal_task w;
      api = viper.unmarshal_api w;
      site = viper.unmarshal_site w;
    },
    w,
  )

  -- The function that Init runs once: `env` is RUN_MODE, `file_name` the file of the caller.
  unfoldable pub init_config : Bytes → Bytes → W → Outcome (Config × W)
  unfolding merge_all get_current_dir
  init_config env file_name w =
      let path = get_current_dir file_name ++ codes "/" ++ get_mode env ++ codes "/" in
      let w1 = viper.set_config_name (codes "/connect") (viper.set_config_type (codes "toml") w) in
      unmarshal
        (and_then (merge_all merged_files) (viper.read_in_config (viper.add_config_path path w1)))
