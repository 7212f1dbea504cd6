-- ===== src/Fuzz/Socket.antt =====
-- soundgate/scripts/fuzz_boundary.py, `rt_valid` and `send_raw`: what the fuzzer makes of what its
-- socket gives it. A connection is refused, or gives chunks of text until it is closed, times out or
-- breaks; a text that is no JSON has no verdict to read.
use Prim.Native.String.{[] as nil, ◌∷◌ as cons}
use soundgate_paper.Prelude.{
  ℕ, String, ◌<>◌, Bool, Option, none, some, List, [], ◌∷◌, ◌==◌, ltb, ◌||◌, string_eq,
  if◌then◌else◌,
}

pub data Chunk : Type 0 where
  bytes : String → Chunk
  closed timed_out broken : Chunk

pub data Connection : Type 0 where
  refused : Connection
  chunks : List Chunk → Connection

-- The result of `send_raw`: a reply with its verdict, or what happened instead.
pub data Raw : Type 0 where
  reply : Option String → Raw
  closed_raw timeout sent : Raw

ends_line : String → Bool
ends_line nil = nil == "\n"
ends_line (cons c s) = cons c s == "\n" || ends_line s

-- What reading a line of JSON gives: the field "verdict" of an object, if it has one, or no object.
module _ (verdict_of : String → Option (Option String)) (size : String → ℕ) where
  abbrev pub limit : ℕ
  limit = 4194304

  -- `json.loads(...)["verdict"]` of a whole line, or the text for what cannot be read.
  abbrev parsed : Option (Option String) → Raw
  parsed (some v) = reply v
  parsed none = reply (some "<unparseable-reply>")

  -- The loop of `recv`; a connection that gives nothing more is closed.
  unfoldable pub receive : String → List Chunk → Raw
  unfolding ends_line
  receive buf [] = if ends_line buf then parsed (verdict_of buf) else closed_raw
  receive buf (closed ∷ cs) = if ends_line buf then parsed (verdict_of buf) else closed_raw
  receive buf (timed_out ∷ cs) = if ends_line buf then parsed (verdict_of buf) else timeout
  receive buf (broken ∷ cs) = if ends_line buf then parsed (verdict_of buf) else closed_raw
  receive buf (bytes b ∷ cs) =
      let rest = receive (buf <> b) cs in
      if ends_line buf
      then parsed (verdict_of buf)
      else if b == ""
      then closed_raw
      else if ltb limit (size (buf <> b))
      then reply (some "<oversized-reply>")
      else rest

  unfoldable pub send_raw : Bool → Connection → Raw
  unfolding receive
  send_raw expect_reply refused = closed_raw
  send_raw expect_reply (chunks cs) = if expect_reply then receive "" cs else sent
