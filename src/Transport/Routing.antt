-- ===== src/Transport/Routing.antt =====
-- `route_input`, src/quic_transport/protocol.rs.
use lan_mouse_pro.Common.{◌≡◌, ◌≢◌, ◌↔◌, false, arith}
use lan_mouse_pro.Client.Types.{ChannelMode, InputChannelConfig}
use lan_mouse_pro.Wire.EventTypes.{event_type, is_fixed}
use lan_mouse_pro.Wire.Types.{PointerEvent, InputEvent, ProtoEvent}

pub data Channel : Type 0 where
  datagram stream_a stream_b stream_c : Channel

unfoldable pub by_mode : ChannelMode → Channel
by_mode ChannelMode.datagram = Channel.datagram
by_mode ChannelMode.stream = Channel.stream_b

unfoldable pub route_input : InputChannelConfig → ProtoEvent → Channel
unfolding by_mode
route_input cfg (ProtoEvent.input (InputEvent.pointer (PointerEvent.motion time dx dy))) =
    Channel.datagram
route_input cfg (ProtoEvent.input (InputEvent.pointer (PointerEvent.axis time axis value))) =
    Channel.datagram
route_input cfg (ProtoEvent.input (InputEvent.pointer (PointerEvent.axis_discrete120 axis value))) =
    Channel.datagram
route_input cfg (ProtoEvent.input (InputEvent.pointer (PointerEvent.button time button state))) =
    by_mode cfg.mouse_button
route_input cfg (ProtoEvent.input (InputEvent.keyboard event)) = by_mode cfg.keyboard
route_input cfg (ProtoEvent.enter pos) = Channel.stream_a
route_input cfg (ProtoEvent.leave serial) = Channel.stream_a
route_input cfg (ProtoEvent.ack serial) = Channel.stream_a
route_input cfg (ProtoEvent.hello magic commit) = Channel.stream_a
route_input cfg ProtoEvent.ping = Channel.stream_a
route_input cfg (ProtoEvent.pong alive) = Channel.stream_a
route_input cfg (ProtoEvent.clipboard_text e) = Channel.stream_c
route_input cfg (ProtoEvent.clipboard_image e) = Channel.stream_c
route_input cfg (ProtoEvent.clipboard_files e) = Channel.stream_c
route_input cfg (ProtoEvent.file_transfer_offer e) = Channel.stream_c
route_input cfg (ProtoEvent.file_transfer_response e) = Channel.stream_c
route_input cfg (ProtoEvent.file_transfer_cancel e) = Channel.stream_c
route_input cfg (ProtoEvent.clipboard_request e) = Channel.stream_c

by_mode-ne-c : (mode : ChannelMode) → by_mode mode ≢ Channel.stream_c
unfolding by_mode
by_mode-ne-c ChannelMode.datagram h = ground arith
by_mode-ne-c ChannelMode.stream h = ground arith

-- Whatever the channels are configured to, the events that go to stream C are those of variable length:
-- all others have the fixed size that the other channels' writers ask for.
pub route_input-is_fixed :
    (cfg : InputChannelConfig) (e : ProtoEvent)
    → (route_input cfg e ≡ Channel.stream_c) ↔ (is_fixed (event_type e) ≡ false)
unfolding route_input is_fixed event_type by_mode
route_input-is_fixed cfg e = ground arith
