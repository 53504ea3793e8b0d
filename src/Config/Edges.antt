-- ===== src/Config/Edges.antt =====
-- Which edges switch to the remote machine (internal/config/config.go).
use wayland_without_borders.Prelude.{
  ◌≡◌, refl, Bool, true, false, List, [], ◌∷◌, ◌++◌, if◌then◌else◌, arith, sym, subst, append_assoc,
  append-nil, Bool-cases, inl, inr,
}
use wayland_without_borders.Prelude.Text.{Text, bytes_of, text_eq, text_eq_sound}
use wayland_without_borders.Config.{is_edge, is_off, edges_loop, enabled_edges}

abbrev pub lists_off : List Text → Bool
lists_off [] = false
lists_off (e ∷ es) = if is_off e then true else lists_off es

-- The listed edges, in their order.
abbrev pub edges_of : List Text → List Text
edges_of [] = []
edges_of (e ∷ es) = if is_edge e then e ∷ edges_of es else edges_of es

not_off : (e edge : Text) → is_off edge ≡ false → text_eq e edge ≡ true → is_off e ≡ false
not_off e edge h same = subst (λ t. is_off t ≡ false) (sym (text_eq_sound e edge same)) h

edge_not_off : (e : Text) → is_edge e ≡ true → is_off e ≡ false
edge_not_off e h = ground (
  arith,
  not_off e (bytes_of "left") refl,
  not_off e (bytes_of "right") refl,
  not_off e (bytes_of "top") refl,
  not_off e (bytes_of "bottom") refl,
)

edges_loop_lem :
    (es out : List Text) → edges_loop es out ≡ (if lists_off es then [] else out ++ edges_of es)
unfolding edges_loop
edges_loop_lem [] out = sym (append-nil out)
edges_loop_lem (e ∷ es) out = elim (Bool-cases (is_edge e)) [
  | inl edge ↦ rw (
    edge,
    edge_not_off e edge,
    edges_loop_lem es (out ++ (e ∷ [])),
    append_assoc out (e ∷ []) (edges_of es),
  )
  | inr other ↦ rw other (by_off (is_off e) (edges_loop_lem es out))
]
  where
    by_off :
        (off : Bool)
        → edges_loop es out ≡ (if lists_off es then [] else out ++ edges_of es)
        → (if off then [] else edges_loop es out)
          ≡ (if (if off then true else lists_off es) then [] else out ++ edges_of es)
    by_off true h = refl
    by_off false h = h

-- With edges listed, a `none` or an `off` anywhere in the list disables switching; otherwise the
-- listed edges are enabled, in their order, and other words are skipped.
pub enabled_edges_lem :
    (e : Text) (es : List Text)
    → enabled_edges (e ∷ es) ≡ (if lists_off (e ∷ es) then [] else edges_of (e ∷ es))
unfolding enabled_edges
enabled_edges_lem e es = edges_loop_lem (e ∷ es) []
