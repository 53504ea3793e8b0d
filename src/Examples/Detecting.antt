-- ===== src/Examples/Detecting.antt =====
-- What xinput, xrandr and an input device answer, and what the program makes of it
-- (internal/capture/capture_linux.go and screen_linux.go).
use wayland_without_borders.Prelude.{
  ℕ, map, none, true, GoError, ◌≡◌, refl, some, List, [], ◌∷◌, arith,
}
use wayland_without_borders.Prelude.Bytes.{All}
use wayland_without_borders.Prelude.Int.{ℤ, pos, negsuc}
use wayland_without_borders.Prelude.Float.{integral_floats}
use wayland_without_borders.Prelude.Text.{Text, bytes_of, to_lower, has_prefix}
use wayland_without_borders.Clipboard.Formats.{split, take_while}
use wayland_without_borders.Capture.{Capturer}
use wayland_without_borders.Capture.Control.{new}
use wayland_without_borders.Capture.Events.{InputEvent}
use wayland_without_borders.Capture.Events.Monitor.{all_bytes, events_read, events_read-all_bytes}
use wayland_without_borders.Capture.Portal.{Portal, barrier_at, run_wayland}
use wayland_without_borders.Capture.Portal.Start.{
  Stage, enable_capture, Leaks, held_at_end, session_end, ei_feed, signal_loop, still_held,
  run_wayland_stages, run_wayland_stages_lem, IsBarrierOf, barrier_at-barrier_edge,
}
use wayland_without_borders.Capture.Xinput.{
  contains_text, text_behind, atoi, Listed, parse_xinput_ids, parse_xinput_ids-Listed, Enables,
  stop, stop_lem,
}
use wayland_without_borders.Capture.Display.{
  IsScreen, get_screen_size_xrandr, get_screen_size_xrandr-IsScreen,
}

abbrev list_output : Text
list_output = bytes_of "Razer Viper id=9 [slave pointer]\nRazer Orbweaver id=11 [floating slave]\n"

parse_xinput_ids_test : parse_xinput_ids to_lower list_output ≡ 9 ∷ []
unfolding parse_xinput_ids has_prefix contains_text to_lower text_behind atoi take_while
parse_xinput_ids_test = refl

parse_xinput_ids-Listed_example :
    All
      (Listed to_lower (split list_output (bytes_of "\n")))
      (parse_xinput_ids to_lower list_output)
parse_xinput_ids-Listed_example = parse_xinput_ids-Listed to_lower list_output

get_screen_size_xrandr-IsScreen_example :
    IsScreen
      (λ t. pos 5)
      (get_screen_size_xrandr (λ t. pos 5) (some (bytes_of "  1920x1080 60.0*+\n")))
get_screen_size_xrandr-IsScreen_example =
    get_screen_size_xrandr-IsScreen (λ t. pos 5) (some (bytes_of "  1920x1080 60.0*+\n"))

abbrev holding_two : Capturer ℤ
holding_two = record (new integral_floats 7 8 (pos 1920) (pos 1080) (bytes_of "left")) {
  disabled_ids = 9 ∷ 12 ∷ [];
}

stop_lem_example :
    ((stop (12 ∷ 14 ∷ []) holding_two).disabled_ids ≡ [])
    × Enables 9 (stop (12 ∷ 14 ∷ []) holding_two).outputs
stop_lem_example = stop_lem (12 ∷ 14 ∷ []) holding_two 9 refl

abbrev moved_and_synced : List ((ℕ × ℕ) × InputEvent)
moved_and_synced =
    ((1700000000, 250000), record { typ = 2; code = 0; value = negsuc 4 })
    ∷ ((0, 0), record { typ = 0; code = 0; value = pos 0 })
    ∷ []

events_read-all_bytes_example :
    events_read (all_bytes moved_and_synced) ≡ map (λ e. e.1) moved_and_synced
events_read-all_bytes_example =
    events_read-all_bytes moved_and_synced
      ((omega arith, omega arith, ground arith), ((omega arith, omega arith, ground arith), tt))

-- `Enable` fails, and all else works.
abbrev only_enable_fails : Stage → GoError
only_enable_fails enable_capture = some 5
only_enable_fails s = none

-- Here libei disconnects while the session is at its end.
run_wayland_stages_lem_example : Leaks (session_end ∷ ei_feed ∷ []) (run_wayland_stages (λ s. none))
run_wayland_stages_lem_example = run_wayland_stages_lem (λ s. none) session_end (ei_feed ∷ [])

enable_fails_test :
    held_at_end (session_end ∷ []) (run_wayland_stages only_enable_fails) ≡ (signal_loop ∷ [], true)
unfolding run_wayland_stages still_held
enable_fails_test = refl

abbrev wide : Portal ℤ
wide =
    run_wayland integral_floats 7 8 (pos 0, pos 0) (pos 1920, pos 1080) (bytes_of "left") [] (pos 2)

barrier_at-barrier_edge_example : IsBarrierOf (bytes_of "top") (barrier_at wide (bytes_of "top"))
barrier_at-barrier_edge_example = barrier_at-barrier_edge wide (bytes_of "top")
