-- ===== src/Config.antt =====
-- internal/config/config.go: the checks and the defaults of `Load`, and the enabled edges.
-- The TOML decoder and the host name are arguments: what DecodeFile gives, and what os.Hostname
-- answers, which is empty where it fails. `Save` only writes a file.
pub mod Loaded
pub mod Edges
use wayland_without_borders.Prelude.{
  ℕ, ◌+◌, Bool, true, false, ◌||◌, Option, none, some, List, [], ◌∷◌, ◌++◌, ltb, ◌==◌,
  if◌then◌else◌, length, take, Result, ok, err,
}
use wayland_without_borders.Prelude.Int.{ℤ, pos, ◌+ℤ◌, eqb_ℤ}
use wayland_without_borders.Prelude.Float.{Float64}
use wayland_without_borders.Prelude.Text.{Text, bytes_of, text_eq}

pub record Config (F : Type 0) : Type 0 where
  pub host : Text
  pub key : Text
  pub name : Text
  pub port : ℤ
  pub edge : Text
  pub clipboard : Option Bool
  pub edges : List Text
  pub switch_modifier : Text
  pub bidirectional : Bool
  pub keyboard_layout : Text
  pub accel_multiplier : F
  pub inbound_multiplier : F

pub data ConfigError : Type 0 where
  decode_config : ℕ → ConfigError
  host_is_required key_is_required : ConfigError

-- `if x == "" { x = preset }`
abbrev pub or_preset : Text → Text → Text
or_preset [] preset = preset
or_preset (c ∷ cs) preset = c ∷ cs

abbrev pub cut_15 : Text → Text
cut_15 name = if ltb 15 (length name) then take 15 name else name

module _ (fl : Float64) where
  abbrev pub positive_or : ℕ → fl.F → fl.F
  positive_or preset mult = if fl.le mult (fl.of_int (pos 0)) then fl.of_int (pos preset) else mult

  -- The defaults of `Load`, from the port on.
  unfoldable pub with_defaults : Text → Config fl.F → Config fl.F
  with_defaults hostname cfg = record cfg {
    port = if eqb_ℤ cfg.port (pos 0) then pos 15100 else cfg.port;
    name = cut_15 (or_preset cfg.name (or_preset hostname (bytes_of "linux")));
    accel_multiplier = positive_or 2 cfg.accel_multiplier;
    inbound_multiplier = positive_or 1 cfg.inbound_multiplier;
    keyboard_layout = or_preset cfg.keyboard_layout (bytes_of "auto");
    edge = or_preset cfg.edge (bytes_of "left");
  }

  unfoldable pub load : Text → Result ℕ (Config fl.F) → Result ConfigError (Config fl.F)
  load hostname (err e) = err (decode_config e)
  load hostname (ok cfg) =
      if text_eq cfg.host []
      then err host_is_required
      else if text_eq cfg.key []
      then err key_is_required
      else ok (with_defaults hostname cfg)

  unfoldable pub message_port : Config fl.F → ℤ
  message_port cfg = cfg.port +ℤ pos 1

  unfoldable pub clipboard_enabled : Config fl.F → Bool
  clipboard_enabled cfg = elim cfg.clipboard [ none ↦ true | some b ↦ b ]

abbrev pub is_edge : Text → Bool
is_edge e =
    text_eq e (bytes_of "left")
    || text_eq e (bytes_of "right")
    || text_eq e (bytes_of "top")
    || text_eq e (bytes_of "bottom")

abbrev pub is_off : Text → Bool
is_off e = text_eq e (bytes_of "none") || text_eq e (bytes_of "off")

-- The loop of `EnabledEdges`, with what it has put into `out`.
unfoldable pub edges_loop : List Text → List Text → List Text
edges_loop [] out = out
edges_loop (e ∷ es) out =
    if is_edge e
    then edges_loop es (out ++ (e ∷ []))
    else if is_off e
    then []
    else edges_loop es out

unfoldable pub enabled_edges : List Text → List Text
enabled_edges [] = bytes_of "left" ∷ bytes_of "right" ∷ bytes_of "top" ∷ bytes_of "bottom" ∷ []
enabled_edges (e ∷ es) = edges_loop (e ∷ es) []
