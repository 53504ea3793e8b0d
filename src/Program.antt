-- ===== src/Program.antt =====
-- cmd/mwb/main.go: what the flags and the configuration settle, and the loop over sessions.
-- The flags as parsed, the environment, which side connected, the answers to the calls of the Wayland
-- driver, whether libei disconnects, and the new clipboard manager are arguments. The goroutines of a
-- session act on the capturer and the clipboard, which have their own modules; here is the order in
-- which they are started and stopped, and where a stop never returns.
pub mod Resources
pub mod Kept
pub mod Sessions
use wayland_without_borders.Prelude.{
  ℕ, suc, ◌==◌, Bool, true, false, ◌&&◌, ◌||◌, not, Option, none, some, List, [], ◌∷◌, ◌++◌, map,
  GoError, if◌then◌else◌, length, ltb,
}
use wayland_without_borders.Prelude.Int.{pos}
use wayland_without_borders.Prelude.Float.{Float64}
use wayland_without_borders.Prelude.Text.{Text, bytes_of, text_eq}
use wayland_without_borders.Config.{Config, or_preset, clipboard_enabled, enabled_edges}
use wayland_without_borders.Protocol.Stream.{BlockCipher, Fate}
use wayland_without_borders.Network.Conn.{Conn, ◌>>=◌}
use wayland_without_borders.Network.Devices.{MouseDevice, KeyboardDevice, ClipboardHandler}
use wayland_without_borders.Network.Handler.{World, HandlerState, release_held_keys}
use wayland_without_borders.Network.Receiver.Loop.{LoopEnd, receive_loop}
use wayland_without_borders.Capture.Portal.Start.{
  Stage, Holding, Outcome, Caller, session_end, ei_feed, run_wayland_stages, still_held, stop,
}

-- The flags that matter behind `flag.Parse`.
pub record Flags : Type 0 where
  pub edge : Text
  pub bidi : Bool
  pub no_clipboard : Bool

pub record Settings : Type 0 where
  pub edge : Text
  pub bidi : Bool
  pub clipboard : Bool
  pub edges : List Text

unfoldable pub settings : (fl : Float64) → Flags → Config fl.F → Settings
settings fl flags cfg = record {
  edge = or_preset (or_preset flags.edge cfg.edge) (bytes_of "right");
  bidi = flags.bidi || cfg.bidirectional;
  clipboard = clipboard_enabled fl cfg && not flags.no_clipboard;
  edges = enabled_edges cfg.edges;
}

-- The environment that `isWayland` reads, and the sockets that match in the runtime directory.
pub record Environment : Type 0 where
  pub session_type : Text
  pub wayland_display : Text
  pub runtime_dir : Text
  pub sockets : List Text

unfoldable pub is_wayland : Environment → Bool
is_wayland env =
    if text_eq env.session_type (bytes_of "wayland") || not (text_eq env.wayland_display [])
    then true
    else not (text_eq env.runtime_dir []) && ltb 0 (length env.sockets)

-- What a session holds, and the log of the program. `left_running` is what a start of the Wayland
-- driver that failed has not released.
pub data Resource : Type 0 where
  connection clipboard_manager portal_capture xinput_capture : Resource

pub data Event : Type 0 where
  acquired released : Resource → Event
  left_running : Holding → Event
  keys_released : Event

-- Which capture driver runs, if any, with what the Wayland driver holds. `cap.Run` of the other
-- driver may fail, and its capturer is stopped all the same.
pub data Driver : Type 0 where
  no_driver xinput_driver : Driver
  portal_driver failed_driver : List Holding → Driver

-- `RunWayland` has answered.
abbrev pub portal_of : Outcome → Driver
portal_of (none, log) = portal_driver (still_held log [])
portal_of (some s, log) = failed_driver (still_held log [])

unfoldable pub driver : Settings → Bool → (Stage → GoError) → Driver
unfolding run_wayland_stages still_held
driver s wayland answers =
    if s.bidi && wayland
    then (if length s.edges == 0 then no_driver else portal_of (run_wayland_stages answers))
    else if s.bidi
    then xinput_driver
    else no_driver

abbrev pub optional : Option Resource → (Resource → Event) → List Event
optional none event = []
optional (some r) event = event r ∷ []

-- What a session starts.
abbrev pub driver_opens : Driver → List Event
driver_opens no_driver = []
driver_opens xinput_driver = acquired xinput_capture ∷ []
driver_opens (portal_driver held) = acquired portal_capture ∷ []
driver_opens (failed_driver held) = map left_running held

unfoldable pub openings : Bool → Driver → List Event
openings clipboard capture =
    acquired connection ∷ optional (if clipboard then some clipboard_manager else none) acquired
    ++ driver_opens capture

-- The calls of `stop` of the Wayland driver in a session: `capStop()`, and before or while it runs
-- the one of `feed` if libei disconnects.
abbrev pub stop_callers : Bool → List Caller
stop_callers disconnects = if disconnects then ei_feed ∷ session_end ∷ [] else session_end ∷ []

-- Whether the stop of the capture returns. `Stop` of the other driver does.
unfoldable pub capture_stops : Bool → Driver → Bool
unfolding stop
capture_stops disconnects no_driver = true
capture_stops disconnects xinput_driver = true
capture_stops disconnects (portal_driver held) = (stop (stop_callers disconnects) held).1
capture_stops disconnects (failed_driver held) = true

abbrev pub driver_closes : Driver → List Event
driver_closes no_driver = []
driver_closes xinput_driver = released xinput_capture ∷ []
driver_closes (portal_driver held) = released portal_capture ∷ []
driver_closes (failed_driver held) = []

-- What it stops behind the receive loop: nothing more where the stop of the capture blocks.
unfoldable pub closings : Bool → Bool → Driver → List Event
unfolding capture_stops
closings clipboard disconnects capture =
    if capture_stops disconnects capture
    then keys_released ∷ driver_closes capture
      ++ optional (if clipboard then some clipboard_manager else none) released
      ++ (released connection ∷ [])
    else keys_released ∷ []

module _ (c : BlockCipher) (fl : Float64) (kb : KeyboardDevice) (md : MouseDevice)
    (cb : ClipboardHandler) where
  -- Who wins the race: our own attempt, which may have failed, or the other machine.
  pub data Winner : Type 0 where
    outbound : Option (Conn c) → Winner
    inbound : Conn c → Winner

  pub record Session : Type 0 where
    pub winner : Winner
    pub wayland : Bool
    pub answers : Stage → GoError
    pub disconnects : Bool
    pub manager : cb.State
    pub worlds : ℕ → World
    pub fate : Fate

  -- The handler lives through all sessions. The loop is `blocked` in a stop that never returns.
  pub record Program : Type 0 where
    pub handler : HandlerState fl kb md cb
    pub log : List Event
    pub ends : List LoopEnd
    pub blocked : Bool

  -- The handler that `main` makes on the new devices: what it does not name is Go's zero.
  unfoldable pub new_handler : kb.State → md.State → Config fl.F → Text → HandlerState fl kb md cb
  new_handler keyboard mouse cfg layout = record {
    keys = record {
      keyboard = keyboard;
      pending_ctrl = false;
      pending_ctrl_code = 0;
      suppress_ctrl_up = false;
    };
    cursor = record {
      mouse = mouse;
      in_x = pos 0;
      in_y = pos 0;
      last_in_x = pos 0;
      last_in_y = pos 0;
      in_seeded = false;
    };
    clipboard = none;
    activated_at = none;
    inbound_multiplier = cfg.inbound_multiplier;
    keyboard_layout = layout;
    has_on_activated = false;
    has_on_reclaimed = false;
    notices = [];
  }

  -- `handler.Clipboard = clipMgr`
  abbrev pub attached : Bool → cb.State → HandlerState fl kb md cb → HandlerState fl kb md cb
  attached clipboard manager h = if clipboard then record h { clipboard = some manager } else h

  -- The callbacks that a driver sets; without one those of an earlier session stay.
  abbrev pub hooked : Driver → HandlerState fl kb md cb → HandlerState fl kb md cb
  hooked no_driver h = h
  hooked xinput_driver h = record h { has_on_activated = true; has_on_reclaimed = true }
  hooked (portal_driver held) h = record h { has_on_activated = true; has_on_reclaimed = true }
  hooked (failed_driver held) h = h

  unfoldable pub serve_session : Settings → Session → Conn c → Program → Option Program
  unfolding driver openings closings
  serve_session s i conn p = do
    let capture = driver s i.wayland i.answers
    r ←
        receive_loop c fl kb md cb (suc (length conn.dec.r.input)) i.worlds i.fate
          (conn, hooked capture (attached s.clipboard i.manager p.handler))
    some (record {
      handler = release_held_keys fl kb md cb r.1.1;
      log = p.log ++ (openings s.clipboard capture ++ closings s.clipboard i.disconnects capture);
      ends = r.0 ∷ p.ends;
      blocked = not (capture_stops i.disconnects capture);
    })

  -- One round of the loop: after a failed attempt it waits and tries again.
  unfoldable pub session : Settings → Session → Program → Option Program
  unfolding serve_session
  session s i p = elim i.winner [
    | outbound none ↦ some p
    | outbound (some conn) ↦ serve_session s i conn p
    | inbound conn ↦ serve_session s i conn p
  ]

  -- The loop goes on, if it is not blocked.
  abbrev pub unblocked : (Program → Option Program) → Program → Option Program
  unblocked next p = let rest = next p in if p.blocked then some p else rest

  unfoldable pub sessions : Settings → List Session → Program → Option Program
  unfolding session
  sessions s [] p = some p
  sessions s (i ∷ is) p = session s i p >>= unblocked (sessions s is)
