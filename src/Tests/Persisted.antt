-- ===== src/Tests/Persisted.antt =====
-- An example of a run of the runtime whose position reaches the history of the API.
use mathlib.Core.List.{filter_map}
use arb_bot.Prelude.{ℕ, suc, ◌<◌, ◌≡◌, refl, ap, List, [], ◌∷◌, All, some, pos, codes, map}
use arb_bot.Float.Fixed.{Fixed, fixed_float}
use arb_bot.Storage.{Event, Store, order_book, opportunity, position, dequeue}
use arb_bot.Storage.Server.{run, received, Decoder}
use arb_bot.Storage.Server.Saved.{saved_position, IsReadBack}
use arb_bot.Api.{Reader, position_items, status_ok, limit_from_request, serve}
use arb_bot.Api.History.{history_request}
use arb_bot.App.Scanner.{Scanner}
use arb_bot.App.Runtime.{handle_update, server_config}
use arb_bot.App.Runtime.Persisted.{Writes, begun, reacts, takes, newest, IsBooked, Writes-history}
use arb_bot.Tests.Data.{long_book, short_book}
use arb_bot.Tests.Runtime.{moment}
use arb_bot.Tests.Opening.{
  high_cfg, one_book, two_books, some-get, computed, queued, logged, events,
}
use arb_bot.Tests.Stored.{Lists, client, client-IsRedis, lists_of, encoder, empty}

-- The state while these events wait for the writer.
abbrev waits : List (Event Fixed) → Scanner Fixed
waits es = record two_books { storage = record two_books.storage { events = es } }

full : Writes high_cfg [] two_books
full =
    reacts moment long_book (reacts moment short_book (begun refl) computed.begun_eq)
      (some-get one_book (handle_update one_book moment long_book) computed.ran)

cons-dequeue :
    (s : Store Fixed) (event : Event Fixed) (es : List (Event Fixed))
    → s.events ≡ event ∷ es
    → dequeue s ≡ some (event, record s { events = es })
unfolding dequeue
cons-dequeue s event es e = ap (λ q. dequeue (record s { events = q })) e

one_taken :
    Writes high_cfg
      (order_book short_book ∷ [])
      (waits (order_book long_book ∷ opportunity logged ∷ position queued ∷ []))
one_taken =
    takes (order_book short_book) _ full
      (cons-dequeue two_books.storage (order_book short_book) _ computed.queue_eq)

all_taken : Writes high_cfg events (waits [])
unfolding dequeue
all_taken =
    takes (position queued) _
      (takes (opportunity logged) _ (takes (order_book long_book) _ one_taken refl) refl) refl

abbrev decoder : Decoder Fixed
decoder = record { position = λ text. some queued; opportunity = λ text. some logged }

events-IsReadBack : IsReadBack decoder.position (saved_position encoder) events
unfolding saved_position filter_map
events-IsReadBack = (refl, tt)

abbrev reader : Reader Fixed Lists
reader = record {
  client = client;
  server = (run client encoder two_books.storage.cfg empty (map received events)).server;
  decoder = decoder;
  parse_int = λ text. some (pos 5);
}

Writes-history_example :
    (m : ℕ) × (m < 1000)
    × (limit_from_request reader.parse_int (codes "5") (pos 100) ≡ pos (suc m))
    × (serve reader (server_config high_cfg (waits [])) (history_request (codes "5"))
        ≡ some (record {
          status = status_ok;
          body = position_items (
              newest reader high_cfg encoder lists_of 9_999 empty events
                (waits [])
                (codes "5")
                (suc m));
        }))
    × All IsBooked
        (newest reader high_cfg encoder lists_of 9_999 empty events (waits []) (codes "5") (suc m))
Writes-history_example =
    Writes-history reader high_cfg encoder lists_of 9_999 empty events (waits []) (codes "5")
      all_taken client-IsRedis events-IsReadBack computed.limit computed.on refl refl
