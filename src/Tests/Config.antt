-- ===== src/Tests/Config.antt =====
-- A run of LoadConfig of internal/app/config.go.
use servora.Prelude.{
  List, Table, Text, [], bytes, cut_at, find, has_prefix, if◌then◌else◌, none, ok, put, refl, some,
  text_beq, ◌*◌, ◌==◌, ◌∷◌, ◌≡◌, text_eq,
}
use servora.Clock.{second}
use servora.Agent.Actions.Effects.{pos}
use servora.App.Config.{
  Config, Std, scanned, load_config, load_values, parse_lines, default_config, value_of, set,
  optional, in_range, then_do,
}
use servora.App.Config.Limits.{IsSafe, load_config-IsSafe}

abbrev std : Std
std = record {
  trim_space = λ text. text;
  trim_quotes = λ text. text;
  parse_ip4 = λ text. none;
  parse_cidr = λ text. ok (record { ip = text; mask = [] });
  parse_int = λ text. none;
  parse_duration = λ text. if text == bytes "2s" then some (pos (2 * second)) else none;
}

abbrev lines : List Text
lines = bytes "# Servora" ∷ bytes "SAMPLE_INTERVAL=2s" ∷ []

abbrev loaded : Config
loaded = record (default_config std) { sample_interval = 2 * second }

abbrev read : Table Text Text
read = (bytes "SAMPLE_INTERVAL", bytes "2s") ∷ []

read_back : parse_lines std lines [] ≡ ok read
unfolding parse_lines cut_at has_prefix put text_beq bytes
read_back = refl

accepted : load_config std (scanned lines none) ≡ ok loaded
unfolding load_config load_values parse_lines default_config then_do value_of set optional in_range
    cut_at has_prefix find put text_beq bytes
accepted = refl

load_config-IsSafe_example : IsSafe std loaded
load_config-IsSafe_example = load_config-IsSafe std (scanned lines none) accepted
