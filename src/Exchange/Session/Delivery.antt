-- ===== src/Exchange/Session/Delivery.antt =====
-- What a connection on which nothing fails does with the messages that it reads.
use mathlib.Core.List.{filter_map}
use arb_bot.Prelude.{
  ◌≡◌, refl, List, [], ◌∷◌, ◌++◌, Option, none, some, Option-cases, inl, inr, Text,
}
use arb_bot.Clock.{Time}
use arb_bot.Float.{Float64}
use arb_bot.Exchange.{Name, OrderBookSnapshot, ok}
use arb_bot.Exchange.Messages.{parse_snapshot}
use arb_bot.Exchange.Subscribe.{Frame, subscribe, handle_control, endpoint}
use arb_bot.Exchange.Session.{
  Message, Turn, Attempt, waiting, Session, Codec, payload_of, send_action, payload_action,
  incoming_action, turn_action, after_action, read_loop, subscribed, run,
}

module _ {W : Type 0} ⦃f : Float64 W⦄ (codec : Codec W) (name : Name) where
  -- The turn reads this payload, and nothing in it fails or is cancelled.
  pub record Reads (turn : Turn) (payload : Text) : Type 0 where
    pub live : turn.cancelled ≡ none
    pub message : Message
    pub read : turn.incoming ≡ ok message
    pub unpacked : payload_of codec name message ≡ ok payload
    pub written : turn.write_error ≡ none
    pub sent : turn.cancelled_at_send ≡ none

  pub data Delivers : List Turn → List (Time × Text) → Type 0 where
    nothing : Delivers [] []
    one :
        {turn : Turn} {turns : List Turn} {payload : Text} {rest : List (Time × Text)}
        → Reads turn payload
        → Delivers turns rest
        → Delivers (turn ∷ turns) ((turn.now, payload) ∷ rest)

  -- The answer to a payload that is a control message.
  abbrev pub reply_of : Time × Text → Option Frame
  reply_of message = handle_control codec.control name message.1

  -- The book in a payload that is no control message.
  abbrev pub book_of : Time × Text → Option (OrderBookSnapshot W)
  book_of message = elim (handle_control codec.control name message.1) [
    | some _ ↦ none
    | none ↦ parse_snapshot codec.messages name message.0 message.1
  ]

  abbrev pub expected : List Frame → List (Time × Text) → Session W
  expected frames payloads = record {
    frames = frames ++ filter_map reply_of payloads;
    books = filter_map book_of payloads;
    ending = waiting;
  }

  Reads-payload :
      (turn : Turn) (payload : Text)
      → Reads turn payload
      → turn_action codec name turn ≡ payload_action codec name turn payload
  unfolding turn_action incoming_action
  Reads-payload turn payload h =
      rw (h.live, turn_action)
        (rw (h.read, incoming_action) (rw (h.unpacked, incoming_action) refl))

  Reads-action :
      (turn : Turn) (payload : Text) (rest : List (Time × Text))
      → Reads turn payload
      → after_action codec name (turn_action codec name turn) (expected [] rest)
        ≡ expected [] ((turn.now, payload) ∷ rest)
  unfolding payload_action send_action after_action filter_map
  Reads-action turn payload rest h =
      rw (Reads-payload turn payload h)
        (elim (Option-cases (handle_control codec.control name payload)) [
          | inr (frame, c) ↦ rw (c, payload_action, book_of) (rw (h.written, after_action) refl)
          | inl c ↦ elim (Option-cases (parse_snapshot codec.messages name turn.now payload)) [
            | inl p ↦ rw (c, payload_action, book_of) (rw (p, send_action) refl)
            | inr (b, p) ↦
                rw (c, payload_action, book_of)
                  (rw (p, send_action) (rw (h.sent, after_action) refl))
          ]
        ])

  read_loop-Delivers :
      (turns : List Turn) (payloads : List (Time × Text))
      → Delivers turns payloads
      → read_loop codec name turns ≡ expected [] payloads
  unfolding read_loop filter_map
  read_loop-Delivers turns payloads nothing = refl
  read_loop-Delivers turns payloads (one {turn} {turns = ts} {payload} {rest} h d) =
      rw (read_loop-Delivers ts rest d) (Reads-action turn payload rest h)

  -- On a connection that is set up and on which no turn fails, a connector writes its subscription and
  -- then the answers to the control messages, in the order in which they come; and of the other
  -- messages it sends those that hold a book, in their order, and passes over the rest.
  pub run-Delivers :
      (symbols : List Text) (a : Attempt) (url : Text) (payloads : List (Time × Text))
      → endpoint name a.clock a.reply ≡ ok url
      → a.dial_error url ≡ none
      → (subscribe name a.link symbols).error ≡ none
      → Delivers a.turns payloads
      → run codec name symbols a ≡ expected (subscribe name a.link symbols).frames payloads
  unfolding run subscribed
  run-Delivers symbols a url payloads e d w turns =
      rw (e, run)
        (rw (d, run) (rw (w, subscribed) (rw (read_loop-Delivers a.turns payloads turns) refl)))
