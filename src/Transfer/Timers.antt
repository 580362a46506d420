-- ===== src/Transfer/Timers.antt =====
-- What `advance_map_transfer` of apps/strajer-agent/src/main.rs writes.
use strajer.Common.{
  ℕ, ◌-◌, ◌≤◌, ◌≡◌, inl, inr, refl, sym, ap, ◌∙◌, Bool, true, false, if◌then◌else◌, List, ◌++◌,
  Option, none, some, ok, Result-cases, length, arith, ltb,
}
use mathlib.Core.Option
use mathlib.Core.Path.{subst}
use strajer.Common.Bytes.{Bytes, u32_max}
use strajer.Frame.{Frame}
use strajer.Maps.Layout.{IsPeer}
use strajer.Transfer
use strajer.Transfer.{
  ActiveMapTransfer, TransferError, acknowledge, pending_frames, window_end, should_log_progress,
  progress_percent, smaller, map_transfer_total_timeout, map_transfer_stall_timeout,
  map_preparation_timeout, transfer_timed_out, transfer_stalled, preparation_timed_out,
}
use strajer.Transfer.Receiving.{assemble, assemble-append}
use strajer.Transfer.Windows.{slice, slice-append, length-slice, Sends, pending_frames-Sends}
use strajer.Transfer.States.{
  MapTransferState, awaiting_status, preparing, downloading, verified, PreparingMapTransfer,
  TransferConfig, Handled, advance_map_transfer, start_transfer, send_pending, write_frames, fail,
}
use strajer.Transfer.Written.{Written, Leaves, stays}

abbrev get_or_else : Handled → Option Handled → Handled
get_or_else d none = d
get_or_else d (some h) = h

module _ (hash : Bytes → ℕ) (map : Bytes) (c : TransferConfig) (player_id : ℕ)
    (host : IsPeer c.host_player_id) (peer : IsPeer player_id) where
  abbrev pub Advances : List Frame → Option Handled → Type 0
  Advances frames x = (h : Handled) → x ≡ some h → Leaves hash map c player_id frames h

  settled-Advances :
      (frames : List Frame) (h : Handled)
      → Leaves hash map c player_id frames h
      → Advances frames (some h)
  settled-Advances frames h leaves h' e =
      subst (λ k. Leaves hash map c player_id frames k) (ap (get_or_else h) e) leaves

  if-Advances :
      (test : Bool) (e : TransferError) (state : MapTransferState) (x : Option Handled)
      (frames : List Frame)
      → Advances frames x
      → Advances frames (if test then some (fail state e) else x)
  if-Advances true e state x frames go =
      settled-Advances frames (fail state e) (λ b h. absurd (cc h))
  if-Advances false e state x frames go = go

  module _ (addressed : length map ≤ u32_max) where
    sent-Written :
        (t : ActiveMapTransfer) (frames : List Frame) (x : Option Transfer.Sending)
        → Written hash map c player_id (downloading t) frames
        → (s : Sends hash (window_end t) t x)
        → Written hash map c player_id
            (downloading (record t { next_offset = s.stop }))
            (frames ++ s.parts)
    sent-Written t frames x w s =
        let size : length (slice 0 t.next_offset map) ≡ t.next_offset =
          omega (arith, length-slice 0 t.next_offset map (omega arith) w.0.within) in
        let behind : assemble hash c.host_player_id player_id t.next_offset s.parts
            ≡ some (slice t.next_offset s.stop map) =
          rw (w.0.same_map, w.0.sender, w.0.receiver) at s.assembled in
        (
          record {
            same_map = w.0.same_map;
            sender = w.0.sender;
            receiver = w.0.receiver;
            within = rw (sym w.0.same_map) s.inside;
          },
          record {
            parts = w.1.parts ++ s.parts;
            begun = rw w.1.begun refl;
            assembled =
                assemble-append hash c.host_player_id player_id 0 t.next_offset w.1.parts s.parts
                  (slice 0 t.next_offset map) (slice t.next_offset s.stop map) w.1.assembled
                  (omega arith) behind
                ∙ ap some (slice-append 0 t.next_offset s.stop map (omega arith) s.further);
          },
        )

    window-Advances :
        (writes : Bool) (t : ActiveMapTransfer) (frames : List Frame)
        → Written hash map c player_id (downloading t) frames
        → Advances frames
            (Option.map (λ s. write_frames writes s.transfer s.frames) (pending_frames hash t))
    window-Advances writes t frames w =
        let s : Sends hash (window_end t) t (pending_frames hash t) =
          pending_frames-Sends hash t (record {
            sender = rw w.0.sender host;
            receiver = rw w.0.receiver peer;
            within = rw w.0.same_map w.0.within;
            addressed = rw w.0.same_map addressed;
          }) in
        rw s.sent (settled-Advances frames _ (written writes s))
      where
        written :
            (accepted : Bool) (s : Sends hash (window_end t) t (pending_frames hash t))
            → Leaves hash map c player_id frames
                (write_frames accepted (record t { next_offset = s.stop }) (ok s.parts))
        written true s b e = sent-Written t frames (pending_frames hash t) w s
        written false s b e = absurd (cc e)

    send_pending-Advances :
        (writes : Bool) (now : ℕ) (state : MapTransferState) (frames : List Frame)
        → Written hash map c player_id state frames
        → Advances frames (send_pending hash writes now state)
    unfolding send_pending
    send_pending-Advances writes now (downloading t) frames w =
        if-Advances (ltb map_transfer_total_timeout (now - t.started_at)) transfer_timed_out
          (downloading t) _ frames
          (if-Advances (ltb map_transfer_stall_timeout (now - t.last_progress_at)) transfer_stalled
            (downloading t) _ frames (window-Advances writes t frames w))
    send_pending-Advances writes now awaiting_status frames w =
        settled-Advances frames _ (stays hash map c player_id awaiting_status frames false w)
    send_pending-Advances writes now (preparing p) frames w =
        settled-Advances frames _ (stays hash map c player_id (preparing p) frames false w)
    send_pending-Advances writes now verified frames w =
        settled-Advances frames _ (stays hash map c player_id verified frames false w)

    new-Written :
        (p : PreparingMapTransfer) (now : ℕ) (t : ActiveMapTransfer) (frames : List Frame)
        → Transfer.new map p.from_player_id p.to_player_id c.file_size now ≡ ok t
        → Written hash map c player_id (preparing p) frames
        → Written hash map c player_id (downloading t) frames
    unfolding Transfer.new
    new-Written p now t frames e w =
        let start : t.next_offset ≡ 0 = ground arith in
        (
          record {
            same_map = ground arith;
            sender = ground (arith, w.0);
            receiver = ground (arith, w.1);
            within = omega (arith, start);
          },
          rw start w.2,
        )

    start_transfer-Advances :
        (writes : Bool) (now : ℕ) (p : PreparingMapTransfer) (frames : List Frame)
        → Written hash map c player_id (preparing p) frames
        → Advances frames (
            start_transfer hash writes now
              (Transfer.new map p.from_player_id p.to_player_id c.file_size now))
    unfolding start_transfer
    start_transfer-Advances writes now p frames w =
        elim (Result-cases (Transfer.new map p.from_player_id p.to_player_id c.file_size now)) [
          | inl (t, begun) ↦ rw begun (
              send_pending-Advances writes now (downloading t) frames
                (new-Written p now t frames begun w))
          | inr (e, refused) ↦
              rw refused (settled-Advances frames (fail awaiting_status e) λ b h. absurd (cc h))
        ]

    pub advance_map_transfer-Advances :
        (prepared writes : Bool) (now : ℕ) (state : MapTransferState) (frames : List Frame)
        → Written hash map c player_id state frames
        → Advances frames (
            advance_map_transfer hash c (if prepared then some (ok map) else none) writes now state)
    unfolding advance_map_transfer
    advance_map_transfer-Advances true writes now (preparing p) frames w =
        if-Advances (ltb map_preparation_timeout (now - p.started_at)) preparation_timed_out
          (preparing p) _ frames (start_transfer-Advances writes now p frames w)
    advance_map_transfer-Advances false writes now (preparing p) frames w =
        if-Advances (ltb map_preparation_timeout (now - p.started_at)) preparation_timed_out
          (preparing p) _ frames
          (settled-Advances frames _ (stays hash map c player_id (preparing p) frames false w))
    advance_map_transfer-Advances prepared writes now (downloading t) frames w =
        send_pending-Advances writes now (downloading t) frames w
    advance_map_transfer-Advances prepared writes now awaiting_status frames w =
        send_pending-Advances writes now awaiting_status frames w
    advance_map_transfer-Advances prepared writes now verified frames w =
        send_pending-Advances writes now verified frames w
