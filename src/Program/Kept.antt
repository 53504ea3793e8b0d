-- ===== src/Program/Kept.antt =====
-- What the handler keeps for each packet, the receive loop keeps (internal/network/receiver.go), and
-- how a property goes along a chain of results.
use wayland_without_borders.Prelude.{
  ℕ, zero, suc, ◌≡◌, Bool, true, false, Option, none, some, if◌then◌else◌, Result, ok, err,
}
use wayland_without_borders.Prelude.Float.{Float64}
use wayland_without_borders.Protocol.Packet.{Packet}
use wayland_without_borders.Protocol.Stream.{BlockCipher, Fate}
use wayland_without_borders.Network.Conn.{
  Conn, ◌>>=◌, RecvError, recv_packet, send_packet, named_packet,
}
use wayland_without_borders.Network.Devices.{MouseDevice, KeyboardDevice, ClipboardHandler}
use wayland_without_borders.Network.Handler.{World, HandlerState, handle_packet}
use wayland_without_borders.Network.Receiver.{
  Route, answered_with, finished, ignored, handled, route,
}
use wayland_without_borders.Network.Receiver.Loop.{
  LoopEnd, Machine, serve, go_on, served, receive_loop,
}
use wayland_without_borders.Network.Receiver.Loop.Ends.{OnSome, on_bind}

pub on_both {ℓ κ μ} :
    {A : Type ℓ} (P : A → Type κ) (Q : A → Type μ) (x : Option A)
    → OnSome P x
    → OnSome Q x
    → OnSome (λ a. P a × Q a) x
on_both P Q none p q = tt
on_both P Q (some a) p q = (p, q)

pub bind_on {ℓ κ μ ν} :
    {A : Type ℓ} {B : Type κ} (P : A → Type μ) (Q : B → Type ν) (x : Option A) (f : A → Option B)
    → OnSome P x
    → ((a : A) → P a → OnSome Q (f a))
    → OnSome Q (x >>= f)
bind_on P Q none f p k = tt
bind_on P Q (some a) f p k = k a p

-- A test whose answer is known.
pub if_false {ℓ κ} :
    {A : Type ℓ} (P : A → Type κ) (b : Bool) (x y : A) → b ≡ false → P y → P (if b then x else y)
if_false P b x y e k = rw e k

pub if_true {ℓ κ} :
    {A : Type ℓ} (P : A → Type κ) (b : Bool) (x y : A) → b ≡ true → P x → P (if b then x else y)
if_true P b x y e k = rw e k

pub on_weaken {ℓ κ μ} :
    {A : Type ℓ} (P : A → Type κ) (Q : A → Type μ) (x : Option A)
    → OnSome P x
    → ((a : A) → P a → Q a)
    → OnSome Q x
on_weaken P Q none p f = tt
on_weaken P Q (some a) p f = f a p

-- What the handler keeps for each packet, the receive loop keeps.
module _ {κ} (c : BlockCipher) (fl : Float64) (kb : KeyboardDevice) (md : MouseDevice)
    (cb : ClipboardHandler) (P : HandlerState fl kb md cb → Type κ)
    (keeps : (w : World) (h : HandlerState fl kb md cb) (p : Packet)
      → P h
      → P (handle_packet fl kb md cb w h p)) where
  abbrev Kept : Machine c fl kb md cb × Bool → Type κ
  Kept s = P s.0.1

  abbrev KeptAtEnd : LoopEnd × Machine c fl kb md cb → Type κ
  KeptAtEnd r = P r.1.1

  serve_keeps :
      (r : Route) (w : World) (fate : Fate) (m : Machine c fl kb md cb) (p : Packet)
      → P m.1
      → OnSome Kept (serve c fl kb md cb r w fate m p)
  unfolding serve
  serve_keeps (answered_with t) w fate (conn, h) p k =
      on_bind Kept (send_packet c fate conn (named_packet c conn t p.src)) _ (λ r. k)
  serve_keeps finished w fate m p k = k
  serve_keeps ignored w fate m p k = k
  serve_keeps handled w fate (conn, h) p k = keeps w h p k

  go_on_keeps :
      (next : Machine c fl kb md cb → Option (LoopEnd × Machine c fl kb md cb))
      → ((m : Machine c fl kb md cb) → P m.1 → OnSome KeptAtEnd (next m))
      → (x : Option (Machine c fl kb md cb × Bool)) → OnSome Kept x
      → OnSome KeptAtEnd (x >>= go_on c fl kb md cb next)
  go_on_keeps next rest none k = tt
  go_on_keeps next rest (some (m, true)) k = rest m k
  go_on_keeps next rest (some (m, false)) k = k

  served_keeps :
      (next : Machine c fl kb md cb → Option (LoopEnd × Machine c fl kb md cb)) (w : World)
      (fate : Fate) (h : HandlerState fl kb md cb)
      → ((m : Machine c fl kb md cb) → P m.1 → OnSome KeptAtEnd (next m))
      → P h
      → (x : Result RecvError Packet × Conn c)
      → OnSome KeptAtEnd (served c fl kb md cb next w fate h x)
  served_keeps next w fate h rest k (err e, conn) = k
  served_keeps next w fate h rest k (ok p, conn) =
      go_on_keeps next rest _ (serve_keeps (route p.typ) w fate (conn, h) p k)

  pub receive_loop_keeps :
      (fuel : ℕ) (worlds : ℕ → World) (fate : Fate) (m : Machine c fl kb md cb)
      → P m.1
      → OnSome KeptAtEnd (receive_loop c fl kb md cb fuel worlds fate m)
  unfolding receive_loop
  receive_loop_keeps zero worlds fate m k = k
  receive_loop_keeps (suc fuel) worlds fate (conn, h) k =
      on_bind KeptAtEnd (recv_packet c (worlds fuel).now conn) _ (
        served_keeps (receive_loop c fl kb md cb fuel worlds fate) (worlds fuel) fate h
          (receive_loop_keeps fuel worlds fate) k)
