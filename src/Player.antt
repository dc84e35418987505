-- ===== src/Player.antt =====
-- `Player` of DummyClient/Player.h and Player.cpp: the inputs that wait for the server, and how they
-- are played again on the server's state. The packed state of the server, the state that is drawn and
-- the floating-point steps on it are of any type: `correct` is what `Reconcile` does before its loop
-- to the drawn state, and `apply` is `ApplyInput` on it, with what `Reconcile` unpacked. `Update` and
-- `Reconcile` are one step each: neither takes a lock in the source, where they run on two threads.
pub mod Reconcile
pub mod Runs
pub mod Motion
mod Tests
use jam_client_prototype.Prelude.{
  ℕ, ◌+◌, ◌%◌, ◌^◌, Option, none, some, List, [], ◌∷◌, ◌++◌, ltb, leb, if◌then◌else◌,
}

-- The fields of an `Input` that the order of inputs depends on, and the rest.
pub record Input (Keys : Type 0) : Type 0 where
  pub sequence : ℕ
  pub keys : Keys

pub record Player (Keys Pose View : Type 0) : Type 0 where
  pub player_id : ℕ
  pub pending_inputs : List (Input Keys)
  pub last_sequence_number : ℕ
  pub pose : Pose
  pub view : View
  pub sent : List (Input Keys)

-- `erase_if` of the inputs up to `ackSequence`.
unfoldable pub unacknowledged : {Keys : Type 0} → ℕ → List (Input Keys) → List (Input Keys)
unacknowledged ack [] = []
unacknowledged ack (i ∷ is) =
    let rest = unacknowledged ack is in if leb i.sequence ack then rest else i ∷ rest

module _ {Keys Pose View : Type 0} (apply : Pose → Input Keys → View → View) where
  -- `Update`: `CaptureInput` gives an input with a time other than 0, or none.
  unfoldable pub update_player : Option Keys → Player Keys Pose View → Player Keys Pose View
  update_player none p = p
  update_player (some keys) p =
      let input : Input Keys = record { sequence = p.last_sequence_number; keys = keys } in
      record p {
        last_sequence_number = (p.last_sequence_number + 1) % 2 ^ 32;
        pending_inputs = p.pending_inputs ++ (input ∷ []);
        sent = p.sent ++ (input ∷ []);
        view = apply p.pose input p.view;
      }

  -- The loop of `Reconcile` over the pending inputs.
  unfoldable pub replay : ℕ → Pose → List (Input Keys) → View → View
  replay ack pose [] view = view
  replay ack pose (i ∷ is) view =
      replay ack pose is (if ltb ack i.sequence then apply pose i view else view)

  unfoldable pub reconcile :
      (Pose → View → View) → Pose → ℕ → Player Keys Pose View → Player Keys Pose View
  unfolding replay unacknowledged
  reconcile correct pose ack p = record p {
    pose = pose;
    view = replay ack pose p.pending_inputs (correct pose p.view);
    pending_inputs = unacknowledged ack p.pending_inputs;
  }

-- What happens to a player: an update, or a state from the server.
pub data PlayerEvent (Keys Pose : Type 0) : Type 0 where
  ticks : Option Keys → PlayerEvent Keys Pose
  corrects : Pose → ℕ → PlayerEvent Keys Pose

module _ {Keys Pose View : Type 0} (apply : Pose → Input Keys → View → View)
    (correct : Pose → View → View) where
  unfoldable pub run_player :
      List (PlayerEvent Keys Pose) → Player Keys Pose View → Player Keys Pose View
  unfolding update_player reconcile
  run_player [] p = p
  run_player (ticks keys ∷ es) p = run_player es (update_player apply keys p)
  run_player (corrects pose ack ∷ es) p = run_player es (reconcile apply correct pose ack p)
