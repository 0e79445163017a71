-- ===== src/Service/ConfigFile.antt =====
-- service.rs: `ServiceConfigData::from_config_file`. The struct is its one field, the map.
use svlopp.Prelude.{◌≡◌, arith, Text, Result, ok, err, errno, bad_config, list_eq, nat_eq}
use svlopp.Prelude.Maps.{Map, Distinct}
use svlopp.Os.{Os, History, FileReply, file_read, file_failed, TomlReply, parsed, refused}
use svlopp.Service.Config.{ServiceConfig}

-- `io::Error::other(e.message())` for what the parser refuses.
of_toml : TomlReply → Result (Map Text ServiceConfig)
of_toml (parsed services) = ok services
of_toml (refused message) = err (bad_config message)

of_file : Os → FileReply → Result (Map Text ServiceConfig)
unfolding of_toml
of_file os (file_read content) = of_toml (os.toml_from_str content)
of_file os (file_failed e) = err (errno e)

unfoldable pub from_config_file : Os → History → Result (Map Text ServiceConfig)
unfolding of_file
from_config_file os h = of_file os (os.read_config h)

-- `toml::from_str` makes a map: no name stands twice.
abbrev pub ConfigIsMap : Os → Type 0
ConfigIsMap os =
    (content : Text) (services : Map Text ServiceConfig)
    → os.toml_from_str content ≡ parsed services
    → Distinct services

of_toml-Distinct :
    (r : TomlReply) (configs : Map Text ServiceConfig)
    → ((services : Map Text ServiceConfig) → r ≡ parsed services → Distinct services)
    → of_toml r ≡ ok configs
    → Distinct configs
unfolding of_toml
of_toml-Distinct (parsed services) configs d e = d configs (ground arith)
of_toml-Distinct (refused message) configs d e = absurd (ground arith)

of_file-Distinct :
    (os : Os) (r : FileReply) (configs : Map Text ServiceConfig)
    → ConfigIsMap os
    → of_file os r ≡ ok configs
    → Distinct configs
unfolding of_file
of_file-Distinct os (file_read content) configs is_map e =
    of_toml-Distinct (os.toml_from_str content) configs (is_map content) e
of_file-Distinct os (file_failed x) configs is_map e = absurd (ground arith)

pub from_config_file-Distinct :
    (os : Os)
    → ConfigIsMap os
    → (h : History) (configs : Map Text ServiceConfig) → from_config_file os h ≡ ok configs
    → Distinct configs
unfolding from_config_file
from_config_file-Distinct os is_map h configs e =
    of_file-Distinct os (os.read_config h) configs is_map e
