-- ===== src/Transfer/Written.antt =====
-- What the transfer of apps/strajer-agent/src/main.rs has written in each of its states.
use strajer.Common.{
  ℕ, ◌≤◌, ◌≡◌, ◌⊎◌, refl, Bool, true, false, if◌then◌else◌, List, [], ◌∷◌, ◌++◌, none, some, ok,
  length, append-nil,
}
use strajer.Common.Bytes.{Bytes, to_le_bytes}
use strajer.Frame.{Frame}
use strajer.Frame.Shape.{framed}
use strajer.Transfer.{ActiveMapTransfer}
use strajer.Transfer.Receiving.{assemble}
use strajer.Transfer.Windows.{slice}
use strajer.Transfer.States.{
  MapTransferState, awaiting_status, preparing, downloading, verified, TransferConfig, Handled,
  handle_map_size, advance_map_transfer,
}

-- The packet that begins a download.
abbrev pub beginning : TransferConfig → Frame
beginning c = framed 0x3F (to_le_bytes 4 1 ++ (c.host_player_id ∷ []))

module _ (hash : Bytes → ℕ) (map : Bytes) (c : TransferConfig) (player_id : ℕ) where
  -- The frames begin a download, and a receiver puts together the map up to `stop` of the parts behind.
  pub record Carries (stop : ℕ) (frames : List Frame) : Type 0 where
    pub parts : List Frame
    pub begun : frames ≡ beginning c ∷ parts
    pub assembled : assemble hash c.host_player_id player_id 0 parts ≡ some (slice 0 stop map)

  -- A transfer of this map to this player.
  pub record IsDownload (t : ActiveMapTransfer) : Type 0 where
    pub same_map : t.bytes ≡ map
    pub sender : t.from_player_id ≡ c.host_player_id
    pub receiver : t.to_player_id ≡ player_id
    pub within : t.next_offset ≤ length map

  -- What has been written in a state.
  abbrev pub Written : MapTransferState → List Frame → Type 0
  Written awaiting_status frames = frames ≡ []
  Written (preparing p) frames =
      (p.from_player_id ≡ c.host_player_id) × (p.to_player_id ≡ player_id) × Carries 0 frames
  Written (downloading t) frames = IsDownload t × Carries t.next_offset frames
  Written verified frames = (frames ≡ []) ⊎ ((stop : ℕ) × Carries stop frames)

  -- What a handler that has not failed leaves behind.
  abbrev pub Leaves : List Frame → Handled → Type 0
  Leaves frames h = (b : Bool) → h.result ≡ ok b → Written h.state (frames ++ h.written)

  -- The handlers that have run without an error, the state that they left, and what they wrote. The
  -- preparation yields the map.
  pub data Run : MapTransferState → List Frame → Type 0 where
    connects : Run awaiting_status []
    reports :
        {state : MapTransferState} {frames : List Frame}
        → Run state frames
        → (writes : Bool) (now : ℕ) (f : Frame) (became_ready : Bool)
        → (handle_map_size c player_id writes now f state).result ≡ ok became_ready
        → Run
            (handle_map_size c player_id writes now f state).state
            (frames ++ (handle_map_size c player_id writes now f state).written)
    ticks :
        {state : MapTransferState} {frames : List Frame}
        → Run state frames
        → (prepared writes : Bool) (now : ℕ) (h : Handled) (became_ready : Bool)
        → advance_map_transfer hash c (if prepared then some (ok map) else none) writes now state
          ≡ some h
        → h.result ≡ ok became_ready
        → Run h.state (frames ++ h.written)

  pub stays :
      (state : MapTransferState) (frames : List Frame) (b : Bool)
      → Written state frames
      → Leaves frames (record { state = state; written = []; result = ok b })
  stays state frames b w b' e = rw (append-nil frames) w

  pub if-Leaves :
      (test : Bool) (h k : Handled) (frames : List Frame)
      → (test ≡ true → Leaves frames h)
      → (test ≡ false → Leaves frames k)
      → Leaves frames (if test then h else k)
  if-Leaves true h k frames yes_case no_case = yes_case refl
  if-Leaves false h k frames yes_case no_case = no_case refl
