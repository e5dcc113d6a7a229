-- ===== src/Config/Store.antt =====
-- `AppConfig::parse`, `load_or_default`, `load_for_runtime` and `save` of src/config.rs.
use vorto.Prelude.{
  ℕ, Bool, true, Option, none, some, List, [], ◌∷◌, ◌++◌, map, is_empty, if◌then◌else◌, not,
}
use vorto.Text.{Text, text, trim, decimal}
use vorto.Result.{AppResult, io, ErrorKind, ok, err, ◌>>=◌, ◌>>◌, fail_if}
use vorto.Fs.{FilePath, with_file_name, display, Fs}
use vorto.Config.Tunnel.{Protocol, AppMode, socket, TunnelConfig, AppConfig, default_config}
use vorto.Config.Validate.{validate}

-- A YAML document with the fields that it gives; those with a default may be missing.
pub record RawTunnel : Type 0 where
  pub name : Text
  pub listen : Text
  pub target : Text
  pub protocol : Protocol
  pub enabled : Option Bool

pub record RawConfig : Type 0 where
  pub daemon_log : Option Bool
  pub mode : Option AppMode
  pub tunnels : Option (List RawTunnel)

abbrev pub unwrap_or {ℓ} : {A : Type ℓ} → Option A → A → A
unwrap_or none d = d
unwrap_or (some a) d = a

abbrev pub default_enabled : Bool
default_enabled = true

abbrev pub default_daemon_log : Bool
default_daemon_log = true

-- The derived `Deserialize`, which fills the missing fields.
unfoldable pub deserialize_tunnel : RawTunnel → TunnelConfig
deserialize_tunnel r = record {
  name = r.name;
  listen = r.listen;
  target = r.target;
  protocol = r.protocol;
  enabled = unwrap_or r.enabled default_enabled;
}

unfoldable pub deserialize : RawConfig → AppConfig
unfolding deserialize_tunnel
deserialize r = record {
  daemon_log = unwrap_or r.daemon_log default_daemon_log;
  mode = unwrap_or r.mode socket;
  tunnels = map deserialize_tunnel (unwrap_or r.tunnels []);
}

-- The derived `Serialize`, which gives every field.
unfoldable pub serialize_tunnel : TunnelConfig → RawTunnel
serialize_tunnel t = record {
  name = t.name;
  listen = t.listen;
  target = t.target;
  protocol = t.protocol;
  enabled = some t.enabled;
}

unfoldable pub serialize : AppConfig → RawConfig
unfolding serialize_tunnel
serialize c = record {
  daemon_log = some c.daemon_log;
  mode = some c.mode;
  tunnels = some (map serialize_tunnel c.tunnels);
}

-- The YAML library: it reads and writes documents.
pub record Yaml : Type 0 where
  pub from_str : Text → AppResult RawConfig
  pub to_string : RawConfig → AppResult Text

-- `.{file_name}.tmp.{pid}` beside the file.
unfoldable pub temp_path : ℕ → FilePath → FilePath
temp_path pid path =
    with_file_name path
      (b'.' ∷ unwrap_or path.file_name (text "config.yaml") ++ text ".tmp." ++ decimal pid)

module _ (F : Fs) where
  -- `fs::rename(&temp_path, path)?` after `fs::write(&temp_path, rendered)?`.
  unfoldable pub replace : FilePath → FilePath → Text → F.State → AppResult (Unit {0}) × F.State
  replace temp path rendered s =
      let (written, s1) = F.write s temp rendered in
      elim written [ err e ↦ (err e, s1) | ok _ ↦ F.rename s1 temp path ]

module _ (Y : Yaml) where
  unfoldable pub parse : Text → AppResult AppConfig
  parse content = do
    raw ← Y.from_str content
    let config = deserialize raw
    validate config
    ok config

  module _ (F : Fs) where
    unfoldable pub load_or_default : F.State → FilePath → AppResult AppConfig
    load_or_default s path =
        if F.exists s path
        then (do
          content ← F.read_to_string s path
          if is_empty (trim content) then ok default_config else parse content)
        else ok default_config

    unfoldable pub load_for_runtime : F.State → FilePath → AppResult AppConfig
    load_for_runtime s path = do
      fail_if (not (F.exists s path))
          (io ErrorKind.not_found (text "Config file not found: " ++ display path))
      content ← F.read_to_string s path
      fail_if (is_empty (trim content))
          (io ErrorKind.invalid_data (text "Config file is empty: " ++ display path))
      parse content

    unfoldable pub save : ℕ → AppConfig → FilePath → F.State → AppResult (Unit {0}) × F.State
    unfolding replace
    save pid config path s = elim (validate config) [
      | err e ↦ (err e, s)
      | ok _ ↦ elim (Y.to_string (serialize config)) [
        | err e ↦ (err e, s)
        | ok rendered ↦ replace F (temp_path pid path) path rendered s
      ]
    ]
