-- ===== src/Wire.antt =====
-- The line protocol between the Python clients and a gate: requests, replies, and what a client may
-- rely on. soundgate/src/main.rs has the same two types; on the wire a reply is its name.
pub mod Laws
use soundgate_paper.Prelude.{
  String, Bool, true, false, ◌&&◌, Option, none, some, ◌==◌, string_eq, pair_eq,
}

pub data Request : Type 0 where
  submit : String → String → Bool → Request
  decide : String → String → Bool → Option String → Request
  cancel : String → Request
  close : String → Request
  ping : Request

pub data Reply : Type 0 where
  release held_for_approval refused_cancelled refused_duplicate refused_rejected ack pong : Reply
  error : String → Reply

-- The value of the field "verdict".
unfoldable pub verdict : Reply → String
verdict release = "release"
verdict held_for_approval = "held_for_approval"
verdict refused_cancelled = "refused_cancelled"
verdict refused_duplicate = "refused_duplicate"
verdict refused_rejected = "refused_rejected"
verdict ack = "ack"
verdict pong = "pong"
verdict (error message) = "error"

-- Tests on replies, as clients compare verdicts.
abbrev pub is_release : Reply → Bool
is_release release = true
is_release _ = false

abbrev pub is_rejected : Reply → Bool
is_rejected refused_rejected = true
is_rejected _ = false

abbrev pub is_ack : Reply → Bool
is_ack ack = true
is_ack _ = false

-- A submission or decision of this effect.
abbrev pub is_about : Request → String × String → Bool
is_about (submit run key _) i = (run, key) == i
is_about (decide run key _ _) i = (run, key) == i
is_about (cancel run) i = false
is_about (close run) i = false
is_about ping i = false

-- A cancellation or closing of this run.
abbrev pub is_fence : Request → String → Bool
is_fence (cancel run) r = run == r
is_fence (close run) r = run == r
is_fence (submit run key _) r = false
is_fence (decide run key _ _) r = false
is_fence ping r = false

-- A gate as its clients see it: one reply for each request, and restarts.
pub record Server : Type 1 where
  pub State : Type 0
  pub call : State → Request → State × Reply
  pub restart : State → State
