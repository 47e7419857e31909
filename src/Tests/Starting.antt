-- ===== src/Tests/Starting.antt =====
-- The theorems on the files and the start at a concrete disk.
use metricz_exporter.Base.{
  ◌≡◌, refl, true, false, pos, string_key, String-discrete, none, some, [], ◌∷◌, inr,
}
use metricz_exporter.Base.Map
use metricz_exporter.Storage.{Bytes}
use metricz_exporter.Config.{GeoIpConfig}
use metricz_exporter.Config.Files.{is_space, has_content, write_file_atomic, ensure_config_file}
use metricz_exporter.Config.Files.Content.{
  IsAtomic, write_file_atomic-IsAtomic, ensure_config_file-kept,
}
use metricz_exporter.Config.Cli.{BaseConfig, options}
use metricz_exporter.FileSystem.{File, Disk, Os}
use metricz_exporter.Geoip.{Http, ensure_db}
use metricz_exporter.Geoip.Whole.{IsEnsured, ensure_db-IsEnsured}
use metricz_exporter.Console.{unix}
use metricz_exporter.Entrypoint.{Env, execute}
use metricz_exporter.Entrypoint.Starts.{IsUp, execute-IsUp}
use metricz_exporter.Tests.{config}

-- Every call succeeds.
abbrev os : Os
os = record { fails = λ op. none; written = λ op. none; dir = λ path. "."; now = pos 7 }

-- "a: 1"
abbrev example : Bytes
example = 97 ∷ 58 ∷ 32 ∷ 49 ∷ []

abbrev file : Bytes → File
file content = record { content = content; mod_time = pos 1 }

-- A configuration with content, and a database.
abbrev disk : Disk
disk = ("config.yaml", file (32 ∷ 98 ∷ 10 ∷ [])) ∷ ("geo.mmdb", file (1 ∷ [])) ∷ []

has_letter : has_content (32 ∷ 98 ∷ 10 ∷ []) ≡ true
unfolding has_content
has_letter = refl

blank_is_empty : has_content (32 ∷ 10 ∷ 9 ∷ []) ≡ false
unfolding has_content
blank_is_empty = refl

letter_is_no_space : is_space 97 ≡ false
unfolding is_space
letter_is_no_space = refl

present : Map.get "config.yaml" disk ≡ some (file (32 ∷ 98 ∷ 10 ∷ []))
unfolding Map.get String-discrete
present = refl

ensure_config_file-kept_example : (ensure_config_file os example "config.yaml" disk).0 ≡ disk
ensure_config_file-kept_example =
    ensure_config_file-kept os "config.yaml" disk (file (32 ∷ 98 ∷ 10 ∷ [])) present has_letter
      example

write_file_atomic-IsAtomic_example :
    IsAtomic os "new.yaml" example disk (write_file_atomic os "new.yaml" example disk)
write_file_atomic-IsAtomic_example = write_file_atomic-IsAtomic os "new.yaml" example disk

abbrev geo_ip : GeoIpConfig
geo_ip = record { path = "geo.mmdb"; url = "https://example.org"; max_age = pos 2 }

abbrev http : Http
http url = inr (record { status = 200; content = 2 ∷ 3 ∷ []; broken = none })

ensure_db-IsEnsured_example : IsEnsured os http geo_ip disk (ensure_db os http geo_ip disk)
ensure_db-IsEnsured_example = ensure_db-IsEnsured os http geo_ip disk

abbrev opts : BaseConfig
opts = record {
  config_path = "config.yaml";
  init_config = true;
  print_config = false;
  version = false;
}

has_example : has_content example ≡ true
unfolding has_content
has_example = refl

abbrev env : Env Bytes
env = record {
  os = os;
  http = http;
  terminal = record { getenv = λ name. ""; platform = unix; is_terminal = λ writer. false };
  output = λ content. none;
  example = example;
  parsed = options opts;
  config_lib = record {
    zero_config = config;
    unmarshal = λ content. inr config;
    set_defaults = λ cfg. inr cfg;
    is_valid_label = λ name. true;
    parse_level = λ level. some (pos 1);
  };
  registers = λ cfg descs. true;
  open_db = λ found. none;
}

execute-IsUp_example : IsUp env (execute env disk)
execute-IsUp_example = execute-IsUp env disk
