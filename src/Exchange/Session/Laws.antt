-- ===== src/Exchange/Session/Laws.antt =====
-- What a connector sends to the runtime.
use arb_bot.Prelude.{
  ◌≡◌, refl, not, ◌&&◌, List, [], ◌∷◌, Option, none, some, Option-cases, Bool-cases, inl, inr, All,
  All-append, Text, text_eq,
}
use arb_bot.Clock.{Time}
use arb_bot.Float.{Float64}
use arb_bot.Exchange.{Fallible-cases, Name, OrderBookSnapshot, Error, Fallible, ok, failed}
use arb_bot.Exchange.Messages.Laws.{IsBookOf, parse_snapshot-IsBookOf}
use arb_bot.Exchange.Subscribe.{subscribe, handle_control, endpoint}
use arb_bot.Exchange.Session.{
  Message, Turn, Attempt, Ending, waiting, returned, Session, Action, stop, answer, send, skip,
  Codec, is_some, ended, payload_of, send_action, payload_action, incoming_action, turn_action,
  after_action, read_loop, subscribed, run, after_run, start,
}

module _ {W : Type 0} ⦃f : Float64 W⦄ (codec : Codec W) (name : Name) where
  -- The book is one of this exchange, read at some instant.
  abbrev pub IsRead : OrderBookSnapshot W → Type 0
  IsRead b = (now : Time) × IsBookOf name now b

  abbrev Sends : Action W → Type 0
  Sends (send b) = IsRead b
  Sends _ = Unit {0}

  send_action-Sends :
      (turn : Turn) (o : Option (OrderBookSnapshot W))
      → ((b : OrderBookSnapshot W) → o ≡ some b → IsRead b)
      → Sends (send_action codec name turn o)
  unfolding send_action
  send_action-Sends turn none h = tt
  send_action-Sends turn (some b) h = elim (Option-cases turn.cancelled_at_send) [
    | inl e ↦ rw (e, send_action) (h b refl)
    | inr (err, e) ↦ rw (e, send_action) tt
  ]

  payload_action-Sends :
      (turn : Turn) (payload : Text) → Sends (payload_action codec name turn payload)
  unfolding payload_action
  payload_action-Sends turn payload =
      elim (Option-cases (handle_control codec.control name payload)) [
        | inl e ↦
            rw (e, payload_action)
              (send_action-Sends turn _
                λ b p. (turn.now, parse_snapshot-IsBookOf codec.messages name turn.now payload b p))
        | inr (frame, e) ↦ elim (Option-cases turn.write_error) [
          | inl w ↦ rw (e, payload_action) (rw w tt)
          | inr (err, w) ↦ rw (e, payload_action) (rw w tt)
        ]
      ]

  incoming_action-Sends :
      (turn : Turn) (incoming : Fallible Message) → Sends (incoming_action codec name turn incoming)
  unfolding incoming_action
  incoming_action-Sends turn (failed e) = tt
  incoming_action-Sends turn (ok msg) = elim (Fallible-cases (payload_of codec name msg)) [
    | inl (err, e) ↦ rw (e, incoming_action) tt
    | inr (payload, e) ↦ rw (e, incoming_action) (payload_action-Sends turn payload)
  ]

  turn_action-Sends : (turn : Turn) → Sends (turn_action codec name turn)
  unfolding turn_action
  turn_action-Sends turn = elim (Option-cases turn.cancelled) [
    | inl e ↦ rw (e, turn_action) (incoming_action-Sends turn turn.incoming)
    | inr (err, e) ↦ rw (e, turn_action) tt
  ]

  after_action-books :
      (a : Action W) (rest : Session W)
      → Sends a
      → All IsRead rest.books
      → All IsRead (after_action codec name a rest).books
  unfolding after_action ended
  after_action-books (stop e) rest s h = tt
  after_action-books (answer frame) rest s h = h
  after_action-books (send b) rest s h = (s, h)
  after_action-books skip rest s h = h

  read_loop-books : (turns : List Turn) → All IsRead (read_loop codec name turns).books
  unfolding read_loop
  read_loop-books [] = tt
  read_loop-books (turn ∷ turns) =
      after_action-books (turn_action codec name turn) _ (turn_action-Sends turn)
        (read_loop-books turns)

  run-books : (symbols : List Text) (a : Attempt) → All IsRead (run codec name symbols a).books
  unfolding run subscribed ended
  run-books symbols a = elim (Fallible-cases (endpoint name a.clock a.reply)) [
    | inl (err, e) ↦ rw (e, run) tt
    | inr (url, e) ↦ elim (Option-cases (a.dial_error url)) [
      | inl d ↦ elim (Option-cases (subscribe name a.link symbols).error) [
        | inl w ↦ rw (e, run) (rw d (rw (w, subscribed) (read_loop-books a.turns)))
        | inr (err, w) ↦ rw (e, run) (rw d (rw (w, subscribed) tt))
      ]
      | inr (err, d) ↦ rw (e, run) (rw d tt)
    ]
  ]

  after_run-books :
      (session : Session W) (cancelled : Option Error) (rest : Session W)
      → All IsRead session.books
      → All IsRead rest.books
      → All IsRead (after_run codec name session cancelled rest).books
  unfolding after_run
  after_run-books session cancelled rest h k = go session.ending refl
    where
      go :
          (e : Ending)
          → session.ending ≡ e
          → All IsRead (after_run codec name session cancelled rest).books
      go waiting e = rw (e, after_run) h
      go (returned err) e = elim (Bool-cases (is_some err && not (is_some cancelled))) [
        | inl again ↦ rw (e, after_run) (rw again (All-append IsRead session.books rest.books h k))
        | inr last ↦ rw (e, after_run) (rw last h)
      ]

  -- Whatever the network, the clock and the context do, and over all reconnections, each snapshot that
  -- a connector sends to the runtime is a book of its own exchange, read at some instant, with at most
  -- 20 levels on a side, all of them with a positive price and a positive quantity.
  pub start-books :
      (symbols : List Text) (attempts : List Attempt)
      → All IsRead (start codec name symbols attempts).books
  unfolding start
  start-books symbols [] = tt
  start-books symbols (a ∷ attempts) =
      after_run-books (run codec name symbols a) a.cancelled (start codec name symbols attempts)
        (run-books symbols a) (start-books symbols attempts)
