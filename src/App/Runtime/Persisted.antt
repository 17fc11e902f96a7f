-- ===== src/App/Runtime/Persisted.antt =====
-- From the runtime through the queue, the writer and the server to the history that the API returns.
use mathlib.Core.List.{filter_map, reverse}
use arb_bot.Prelude.{
  ℕ, suc, ◌<◌, ◌≡◌, ◌⊎◌, refl, true, List, [], ◌∷◌, ◌++◌, map, some, pos, take, Text, All,
  All-append, All-take, Option-cases, inl, inr,
}
use arb_bot.Float.{Float64}
use arb_bot.Exchange.{OrderBookSnapshot}
use arb_bot.State.Positions.{Position}
use arb_bot.Storage
use arb_bot.Storage.{Event, order_book, opportunity, position, Encoder, dequeue, key_position_hist}
use arb_bot.Storage.Queue.{dequeue-All}
use arb_bot.Storage.Server.{run, received}
use arb_bot.Storage.Server.History.{IsRedis, All-reverse}
use arb_bot.Storage.Server.Saved.{saved_position, IsReadBack, with_text}
use arb_bot.Api.{Reader, position_items, status_ok, limit_from_request, serve}
use arb_bot.Api.History.{history_request, serve-history-run}
use arb_bot.App.Config.{Config}
use arb_bot.App.Scanner.{Scanner, Moment}
use arb_bot.App.Scanner.Refresh.Accounts.{IsLive, IsSettled}
use arb_bot.App.Scanner.Refresh.Records.{IsWorthy}
use arb_bot.App.Runtime.{
  new_runtime, server_config, handle_update, Reachable, started, stepped, handled, written,
}
use arb_bot.App.Runtime.Recorded.{Reachable-IsRecorded}

module _ {W : Type 0} ⦃f : Float64 W⦄ where
  -- A run of the runtime, with the events that the writer has taken, the oldest first.
  pub data Writes (cfg : Config W) : List (Event W) → Scanner W → Type 0 where
    begun : {s : Scanner W} → s ≡ new_runtime cfg → Writes cfg [] s
    reacts :
        {s t : Scanner W} {es : List (Event W)} (m : Moment) (update : OrderBookSnapshot W)
        → Writes cfg es s
        → handle_update s m update ≡ some t
        → Writes cfg es t
    takes :
        {s : Scanner W} {es : List (Event W)} (event : Event W) (rest : Storage.Store W)
        → Writes cfg es s
        → dequeue s.storage ≡ some (event, rest)
        → Writes cfg (es ++ event ∷ []) (record s { storage = rest })

  Writes-Reachable :
      (cfg : Config W) (es : List (Event W)) (s : Scanner W) → Writes cfg es s → Reachable cfg s
  Writes-Reachable cfg es s (begun e) = started e
  Writes-Reachable cfg es s (reacts m update w e) =
      stepped (Writes-Reachable cfg es _ w) (handled m update e)
  Writes-Reachable cfg es s (takes event rest w e) =
      stepped (Writes-Reachable cfg _ _ w) (written event rest e refl)

  Writes-IsWorthy :
      (cfg : Config W) (es : List (Event W)) (s : Scanner W) → Writes cfg es s → All IsWorthy es
  Writes-IsWorthy cfg es s (begun e) = tt
  Writes-IsWorthy cfg es s (reacts m update w e) = Writes-IsWorthy cfg es _ w
  Writes-IsWorthy cfg es s (takes {s = before} {es = earlier} event rest w e) =
      let h = Reachable-IsRecorded cfg before (Writes-Reachable cfg earlier before w) in
      All-append IsWorthy earlier (event ∷ []) (Writes-IsWorthy cfg earlier before w)
        ((dequeue-All IsWorthy before.storage event rest e h.events).0, tt)

  -- The position is open or closed by its accounts.
  abbrev pub IsBooked : Position W → Type 0
  IsBooked p = IsLive p ⊎ IsSettled p

  saved-IsBooked :
      (enc : Encoder W) (es : List (Event W))
      → All IsWorthy es
      → All (λ q. IsBooked q.0) (filter_map (saved_position enc) es)
  unfolding filter_map saved_position with_text
  saved-IsBooked enc [] h = tt
  saved-IsBooked enc (order_book b ∷ es) h = saved-IsBooked enc es h.1
  saved-IsBooked enc (opportunity r ∷ es) h = saved-IsBooked enc es h.1
  saved-IsBooked enc (position p ∷ es) h = elim (Option-cases (enc.position_json p)) [
    | inl e ↦ rw (e, with_text) (saved-IsBooked enc es h.1)
    | inr (text, e) ↦ rw (e, with_text) (h.0, saved-IsBooked enc es h.1)
  ]

  All-map :
      (P : Position W → Type 0) (qs : List (Position W × Text))
      → All (λ q. P q.0) qs
      → All P (map (λ q. q.0) qs)
  All-map P [] h = tt
  All-map P (q ∷ qs) h = (h.0, All-map P qs h.1)

  module _ {S : Type 0} (reader : Reader W S) (cfg : Config W) (enc : Encoder W)
      (list_at : S → Text → List Text) (n : ℕ) (start : S) (es : List (Event W)) (s : Scanner W)
      (raw : Text) where
    -- The newest positions that were written: at most m, and at most the history limit.
    abbrev pub newest : ℕ → List (Position W)
    newest m = map (λ q. q.0) (take m (take (suc n) (reverse (filter_map (saved_position enc) es))))

    newest-IsBooked : (m : ℕ) → All IsWorthy es → All IsBooked (newest m)
    newest-IsBooked m h = All-map IsBooked _ (
        All-take _ m _
          (All-take _ (suc n) _ (All-reverse (λ q. IsBooked q.0) _ (saved-IsBooked enc es h))))

    -- When the storage is enabled with a positive history limit, the server keeps its lists as Redis
    -- documents and the JSON of the positions is read back as it was written: at any point of a run of
    -- the runtime, when the server is as the writer left it after the events that it has taken, starting
    -- with an empty history, the API answers a request for the history with the status 200 and the
    -- positions of these events that were encoded, newest first, at most the history limit and at most
    -- as many as the request asks for, which is from 1 to 1000; and each of them is open with nothing
    -- realized or closed with the accounts that follow from its legs.
    pub Writes-history :
        Writes cfg es s
        → IsRedis reader.client list_at
        → IsReadBack reader.decoder.position (saved_position enc) es
        → s.storage.cfg.history_limit ≡ pos (suc n)
        → s.storage.cfg.enabled ≡ true
        → list_at start key_position_hist ≡ []
        → reader.server ≡ (run reader.client enc s.storage.cfg start (map received es)).server
        → (m : ℕ) × (m < 1000)
          × (limit_from_request reader.parse_int raw (pos 100) ≡ pos (suc m))
          × (serve reader (server_config cfg s) (history_request raw)
              ≡ some (record { status = status_ok; body = position_items (newest (suc m)) }))
          × All IsBooked (newest (suc m))
    unfolding server_config
    Writes-history writes redis back limit on empty left =
        let (m, small, same, answer) =
          serve-history-run reader (server_config cfg s) enc list_at n start es raw redis back limit
            on empty left in
        (m, small, same, answer, newest-IsBooked (suc m) (Writes-IsWorthy cfg es s writes))
