-- ===== src/Protocol/Packet/Front.antt =====
-- The front of a marshalled packet: its type, three bytes for the stamp, and the rest
-- (internal/protocol/packet.go).
use wayland_without_borders.Prelude.{
  ℕ, ◌+◌, ◌≡◌, refl, ◌∙◌, Bool, true, false, List, ◌∷◌, length, arith,
}
use wayland_without_borders.Protocol.Types.{
  Payload, mouse_payload, keyboard_payload, handshake_payload, clipboard_payload, no_payload,
  payload_of, is_big_packet, wire_size, SizeFits, payload_of-SizeFits,
}
use wayland_without_borders.Protocol.Packet.{Packet, marshal}
use wayland_without_borders.Protocol.Packet.Wire.{
  IsValid, marshal_mouse, marshal_keyboard, marshal_handshake, marshal_clipboard, marshal_small,
  marshal_big,
}
use wayland_without_borders.Protocol.Packet.RoundTrip.{length-name_bytes, length-data_bytes}

pub record Front (p : Packet) : Type 0 where
  pub body : List ℕ
  pub bytes : marshal p ≡ p.typ ∷ 0 ∷ 0 ∷ 0 ∷ body
  pub size : length body + 4 ≡ wire_size p.typ

Front-payload_of :
    (k : Payload) (big : Bool) (p : Packet)
    → IsValid p
    → payload_of p.typ ≡ k
    → is_big_packet p.typ ≡ big
    → SizeFits k big
    → Front p
unfolding wire_size
Front-payload_of mouse_payload big p v e b h = record {
  body = _;
  bytes = marshal_mouse p e (b ∙ h);
  size = rw (b ∙ h) (omega arith);
}
Front-payload_of keyboard_payload big p v e b h = record {
  body = _;
  bytes = marshal_keyboard p e (b ∙ h);
  size = rw (b ∙ h) (omega arith);
}
Front-payload_of handshake_payload big p v e b h = record {
  body = _;
  bytes = marshal_handshake p e (b ∙ h) v.machine_name;
  size = rw (b ∙ h) (omega (arith, length-name_bytes p p.clipboard_data v.machine_name));
}
Front-payload_of clipboard_payload big p v e b h = record {
  body = _;
  bytes = marshal_clipboard p e (b ∙ h) v.machine_name;
  size = rw (b ∙ h) (omega (arith, length-data_bytes p p.clipboard_data v.machine_name));
}
Front-payload_of no_payload false p v e b h = record {
  body = _;
  bytes = marshal_small p e b;
  size = rw b (omega arith);
}
Front-payload_of no_payload true p v e b h = record {
  body = _;
  bytes = marshal_big p e b v.machine_name;
  size = rw b (omega (arith, length-name_bytes p p.clipboard_data v.machine_name));
}

pub front : (p : Packet) → IsValid p → Front p
front p v =
    Front-payload_of (payload_of p.typ) (is_big_packet p.typ) p v refl refl
      (payload_of-SizeFits p.typ v.typ)
