-- ===== src/Config/Loaded.antt =====
-- What a configuration that was loaded satisfies (internal/config/config.go).
use wayland_without_borders.Prelude.{
  ℕ, ◌≤◌, ◌<◌, ◌≡◌, ◌≢◌, false, [], ◌∷◌, if◌then◌else◌, length, length-take, Result, ok, err, arith,
  Bool-cases, inl, inr, subst,
}
use wayland_without_borders.Prelude.Int.{ℤ, pos, eqb_ℤ}
use wayland_without_borders.Prelude.Float.{Float64}
use wayland_without_borders.Prelude.Text.{Text, text_eq}
use wayland_without_borders.Config.{Config, with_defaults, load, or_preset, cut_15, positive_or}

module _ (fl : Float64) where
  -- What the connection, the devices and the handler may rely on.
  pub record IsUsable (cfg : Config fl.F) : Type 0 where
    pub host : 0 < length cfg.host
    pub key : 0 < length cfg.key
    pub port : cfg.port ≢ pos 0
    pub name : (0 < length cfg.name) × (length cfg.name ≤ 15)
    pub accel : fl.le cfg.accel_multiplier (fl.of_int (pos 0)) ≡ false
    pub inbound : fl.le cfg.inbound_multiplier (fl.of_int (pos 0)) ≡ false
    pub keyboard_layout : 0 < length cfg.keyboard_layout
    pub edge : 0 < length cfg.edge

  given : (t : Text) → text_eq t [] ≡ false → 0 < length t
  given [] h = cc
  given (c ∷ cs) h = omega arith

  preset_given : (t preset : Text) → 0 < length preset → 0 < length (or_preset t preset)
  preset_given [] preset h = h
  preset_given (c ∷ cs) preset h = omega arith

  cut_given : (t : Text) → 0 < length t → (0 < length (cut_15 t)) × (length (cut_15 t) ≤ 15)
  cut_given t h = ground (arith, length-take 15 t)

  positive :
      (preset : ℕ) (mult : fl.F)
      → fl.le (fl.of_int (pos preset)) (fl.of_int (pos 0)) ≡ false
      → fl.le (positive_or fl preset mult) (fl.of_int (pos 0)) ≡ false
  positive preset mult h = ground arith

  port_set : (p : ℤ) → (if eqb_ℤ p (pos 0) then pos 15100 else p) ≢ pos 0
  port_set p = ground arith

  with_defaults-IsUsable :
      (hostname : Text) (cfg : Config fl.F)
      → fl.le (fl.of_int (pos 1)) (fl.of_int (pos 0)) ≡ false
      → fl.le (fl.of_int (pos 2)) (fl.of_int (pos 0)) ≡ false
      → text_eq cfg.host [] ≡ false
      → text_eq cfg.key [] ≡ false
      → IsUsable (with_defaults fl hostname cfg)
  unfolding with_defaults
  with_defaults-IsUsable hostname cfg one two h k = record {
    host = given cfg.host h;
    key = given cfg.key k;
    port = port_set cfg.port;
    name = cut_given _ (preset_given cfg.name _ (preset_given hostname _ (omega arith)));
    accel = positive 2 cfg.accel_multiplier two;
    inbound = positive 1 cfg.inbound_multiplier one;
    keyboard_layout = preset_given cfg.keyboard_layout _ (omega arith);
    edge = preset_given cfg.edge _ (omega arith);
  }

  accepted :
      (hostname : Text) (file cfg : Config fl.F)
      → load fl hostname (ok file) ≡ ok cfg
      → (text_eq file.host [] ≡ false)
        × (text_eq file.key [] ≡ false)
        × (with_defaults fl hostname file ≡ cfg)
  unfolding load
  accepted hostname file cfg h = elim (Bool-cases (text_eq file.host [])) [
    | inl no_host ↦ cc (h, no_host)
    | inr host ↦ elim (Bool-cases (text_eq file.key [])) [
      | inl no_key ↦ cc (h, host, no_key)
      | inr key ↦ (host, key, cc (h, host, key))
    ]
  ]

  -- What `Load` accepts has a host, a key, a port, a name of 1 to 15 bytes, multipliers that are not
  -- 0 or less, a keyboard layout and an edge, whatever the file and the host's name, if 1 and 2 are
  -- not 0 or less for float64.
  pub load-IsUsable :
      (hostname : Text) (file : Result ℕ (Config fl.F)) (cfg : Config fl.F)
      → fl.le (fl.of_int (pos 1)) (fl.of_int (pos 0)) ≡ false
      → fl.le (fl.of_int (pos 2)) (fl.of_int (pos 0)) ≡ false
      → load fl hostname file ≡ ok cfg
      → IsUsable cfg
  unfolding load
  load-IsUsable hostname (err e) cfg one two h = cc
  load-IsUsable hostname (ok file) cfg one two h =
      let (host, key, same) = accepted hostname file cfg h in
      subst IsUsable same (with_defaults-IsUsable hostname file one two host key)
