-- ===== src/Server/Locations.antt =====
-- Where the socket is: `default_socket_path` and `resolve_socket_path` of main.py, and the former of
-- backend-client.py.
use ttop_desk.Prelude.{◌≡◌, refl, Option, none, some, Text, text, [], ◌∷◌, true, false}
use ttop_desk.Python.Strings.{strip, is_empty}

-- A path as it is built: `Path(text)`, `path / text`, `path.expanduser()`.
pub data Location : Type 0 where
  path : Text → Location
  child : Location → Text → Location
  expanded : Location → Location

-- `environment.get("XDG_RUNTIME_DIR", "").strip()`
abbrev pub runtime_dir_of : Option Text → Text
runtime_dir_of none = strip []
runtime_dir_of (some t) = strip t

-- `default_socket_path(environment, home=home)`, where `home` is the given or the user's home
unfoldable pub default_socket_path : Option Text → Location → Location
default_socket_path xdg_runtime_dir home = elim (is_empty (runtime_dir_of xdg_runtime_dir)) [
  | false ↦ child (path (runtime_dir_of xdg_runtime_dir)) (text "ttop-desk.sock")
  | true ↦ child (child (child home (text ".cache")) (text "ttop-desk")) (text "ttop-desk.sock")
]

unfoldable pub resolve_socket_path : Option Text → Option Text → Location → Location
resolve_socket_path none xdg_runtime_dir home = default_socket_path xdg_runtime_dir home
resolve_socket_path (some []) xdg_runtime_dir home = default_socket_path xdg_runtime_dir home
resolve_socket_path (some (c ∷ cs)) xdg_runtime_dir home = expanded (path (c ∷ cs))

-- the client's own `default_socket_path`
unfoldable pub client_default_socket_path : Option Text → Location → Location
client_default_socket_path xdg_runtime_dir home = elim (is_empty (runtime_dir_of xdg_runtime_dir)) [
  | false ↦ child (path (runtime_dir_of xdg_runtime_dir)) (text "ttop-desk.sock")
  | true ↦ child (child (child home (text ".cache")) (text "ttop-desk")) (text "ttop-desk.sock")
]

-- the client's choice, with the argument of `--socket`
unfoldable pub client_socket_path : Option Text → Option Text → Location → Location
client_socket_path none xdg_runtime_dir home = client_default_socket_path xdg_runtime_dir home
client_socket_path (some []) xdg_runtime_dir home = client_default_socket_path xdg_runtime_dir home
client_socket_path (some (c ∷ cs)) xdg_runtime_dir home = expanded (path (c ∷ cs))

-- In one environment and with one argument, the client looks where the server listens.
client_socket_path_lem :
    (argument xdg_runtime_dir : Option Text) (home : Location)
    → client_socket_path argument xdg_runtime_dir home
      ≡ resolve_socket_path argument xdg_runtime_dir home
unfolding client_socket_path resolve_socket_path client_default_socket_path default_socket_path
client_socket_path_lem none xdg home = refl
client_socket_path_lem (some []) xdg home = refl
client_socket_path_lem (some (c ∷ cs)) xdg home = refl
