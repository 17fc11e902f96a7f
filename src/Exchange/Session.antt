-- ===== src/Exchange/Session.antt =====
-- internal/exchange/public_ws.go: `run` and `Start`, the life of a public connector. What the network,
-- the clock and the context do is an argument: a sequence of attempts, each with the turns of its loop.
pub mod Laws
pub mod Retry
pub mod Delivery
use arb_bot.Prelude.{
  Bool, true, false, not, ◌&&◌, List, [], ◌∷◌, ◌++◌, Option, none, some, ◌==◌, text_eq,
  if◌then◌else◌, Text,
}
use arb_bot.Clock.{Time}
use arb_bot.Float.{Float64}
use arb_bot.Exchange.{Name, htx, OrderBookSnapshot, Error, Fallible, ok, failed}
use arb_bot.Exchange.Messages.{Decoder, parse_snapshot}
use arb_bot.Exchange.Subscribe.{
  Frame, Link, Written, ControlDecoder, Bullet, subscribe, handle_control, endpoint,
}

pub record Message : Type 0 where
  pub binary : Bool
  pub payload : Text

-- One turn of the loop of `run`. A context that is done has an error; `cancelled` is that of the
-- first `select`, `cancelled_at_send` that of the second where it takes that case.
pub record Turn : Type 0 where
  pub cancelled : Option Error
  pub incoming : Fallible Message
  pub write_error : Option Error
  pub now : Time
  pub cancelled_at_send : Option Error

-- One call of `run`; `cancelled` is `ctx.Err()` after it.
pub record Attempt : Type 0 where
  pub clock : Time
  pub reply : Fallible Bullet
  pub dial_error : Text → Option Error
  pub link : Link
  pub turns : List Turn
  pub cancelled : Option Error

-- A call that has returned, or one that goes on after the given turns.
pub data Ending : Type 0 where
  waiting : Ending
  returned : Option Error → Ending

-- What was written to the socket, and the snapshots sent to `updates`.
pub record Session (W : Type 0) : Type 0 where
  pub frames : List Frame
  pub books : List (OrderBookSnapshot W)
  pub ending : Ending

pub data Action (W : Type 0) : Type 0 where
  stop : Error → Action W
  answer : Frame → Action W
  send : OrderBookSnapshot W → Action W
  skip : Action W

-- The parts of the connector that are not in the repository: JSON decoding and gzip.
pub record Codec (W : Type 0) : Type 0 where
  pub messages : Decoder W
  pub control : ControlDecoder
  pub ungzip : Text → Fallible Text

is_some {ℓ} : {A : Type ℓ} → Option A → Bool
is_some none = false
is_some (some _) = true

module _ {W : Type 0} where
  ended : List Frame → Error → Session W
  ended frames e = record { frames = frames; books = []; ending = returned (some e) }

module _ {W : Type 0} ⦃f : Float64 W⦄ (codec : Codec W) (name : Name) where
  unfoldable pub payload_of : Message → Fallible Text
  payload_of msg = if name == htx && msg.binary then codec.ungzip msg.payload else ok msg.payload

  send_action : Turn → Option (OrderBookSnapshot W) → Action W
  send_action turn none = skip
  send_action turn (some b) = elim turn.cancelled_at_send [ some e ↦ stop e | none ↦ send b ]

  payload_action : Turn → Text → Action W
  unfolding send_action
  payload_action turn payload = elim (handle_control codec.control name payload) [
    | some frame ↦ elim turn.write_error [ some e ↦ stop e | none ↦ answer frame ]
    | none ↦ send_action turn (parse_snapshot codec.messages name turn.now payload)
  ]

  incoming_action : Turn → Fallible Message → Action W
  unfolding payload_action payload_of
  incoming_action turn (failed e) = stop e
  incoming_action turn (ok msg) = elim (payload_of msg) [
    | failed e ↦ stop e
    | ok payload ↦ payload_action turn payload
  ]

  unfoldable pub turn_action : Turn → Action W
  unfolding incoming_action
  turn_action turn = elim turn.cancelled [
    | some e ↦ stop e
    | none ↦ incoming_action turn turn.incoming
  ]

  after_action : Action W → Session W → Session W
  unfolding ended
  after_action (stop e) rest = ended [] e
  after_action (answer frame) rest = record rest { frames = frame ∷ rest.frames }
  after_action (send b) rest = record rest { books = b ∷ rest.books }
  after_action skip rest = rest

  -- The loop of `run`.
  unfoldable pub read_loop : List Turn → Session W
  unfolding turn_action after_action
  read_loop [] = record { frames = []; books = []; ending = waiting }
  read_loop (turn ∷ turns) = after_action (turn_action turn) (read_loop turns)

  subscribed : Written → List Turn → Session W
  unfolding read_loop ended
  subscribed written turns =
      let session = read_loop turns in
      elim written.error [
        | some e ↦ ended written.frames e
        | none ↦ record session { frames = written.frames ++ session.frames }
      ]

  unfoldable pub run : List Text → Attempt → Session W
  unfolding subscribed ended
  run symbols a = elim (endpoint name a.clock a.reply) [
    | failed e ↦ ended [] e
    | ok url ↦ elim (a.dial_error url) [
      | some e ↦ ended [] e
      | none ↦ subscribed (subscribe name a.link symbols) a.turns
    ]
  ]

  -- What `Start` does once `run` has returned.
  after_run : Session W → Option Error → Session W → Session W
  unfolding is_some
  after_run session cancelled rest = elim session.ending [
    | waiting ↦ session
    | returned err ↦
        if is_some err && not (is_some cancelled)
        then record rest {
          frames = session.frames ++ rest.frames;
          books = session.books ++ rest.books;
        }
        else record session { ending = returned cancelled }
  ]

  unfoldable pub start : List Text → List Attempt → Session W
  unfolding run after_run
  start symbols [] = record { frames = []; books = []; ending = waiting }
  start symbols (a ∷ attempts) = after_run (run symbols a) a.cancelled (start symbols attempts)
