-- ===== src/Api/History.antt =====
-- The limit of a request, and the history that the API returns.
use arb_bot.Prelude.{
  ℕ, suc, zero, ◌<◌, ◌≤◌, ◌≡◌, ◌≢◌, refl, ap, ◌∙◌, true, false, List, [], map, Option, some, arith,
  text_eq, text_beq, text_beq_iff, ℤ, pos, negsuc, ◌≤ℤ◌, take, Text, codes,
}
use mathlib.Core.List.{filter_map, reverse}
use arb_bot.Float.{Float64}
use arb_bot.Storage.{Event, Encoder, key_position_hist}
use arb_bot.Storage.Server.{run, received, recent_positions, storage_disabled}
use arb_bot.Storage.Server.History.{IsRedis}
use arb_bot.Storage.Server.Saved.{saved_position, IsReadBack}
use arb_bot.Storage.Server.Recent.{recent_positions-run}
use arb_bot.Api.{
  ServerConfig, Request, position_items, error, status_ok, status_service_unavailable,
  limit_from_request, Reader, history_of, history_reply, get, serve,
}

-- With a default from 1 to 1000, the limit of a request is from 1 to 1000 whatever the query says; and
-- a number in this range is taken as it is.
limit_from_request-InRange :
    (parse_int : Text → Option ℤ) (raw : Text) (fallback : ℤ)
    → pos 1 ≤ℤ fallback
    → fallback ≤ℤ pos 1000
    → (pos 1 ≤ℤ limit_from_request parse_int raw fallback)
      × (limit_from_request parse_int raw fallback ≤ℤ pos 1000)
      × ((n : ℕ)
          → raw ≢ []
          → parse_int raw ≡ some (pos n)
          → 1 ≤ n
          → n ≤ 1000
          → limit_from_request parse_int raw fallback ≡ pos n)
unfolding limit_from_request
limit_from_request-InRange parse_int raw fallback h k = (
  ground (arith, h, k),
  ground (arith, h, k),
  λ n filled parsed low high. ground (arith, text_beq_iff raw [], filled, parsed),
)

-- A limit in the range of a request, as a number of items.
InRange-suc : (z : ℤ) → pos 1 ≤ℤ z → z ≤ℤ pos 1000 → (m : ℕ) × (m < 1000) × (z ≡ pos (suc m))
InRange-suc (pos zero) h k = absurd (omega arith)
InRange-suc (pos (suc m)) h k = (m, omega arith, refl)
InRange-suc (negsuc n) h k = absurd (omega arith)

abbrev pub history_request : Text → Request
history_request raw = record {
  method = codes "GET";
  path = codes "/positions/history";
  limit = raw;
}

module _ {W S : Type 0} ⦃f : Float64 W⦄ where
  serve-history :
      (reader : Reader W S) (cfg : ServerConfig W) (raw : Text)
      → serve reader cfg (history_request raw) ≡ some (history_of reader cfg raw)
  unfolding serve get text_beq
  serve-history reader cfg raw = refl

  -- While the storage is disabled, a request for the history is answered by an error, with the status
  -- 503; and with no other reply.
  pub serve-disabled :
      (reader : Reader W S) (cfg : ServerConfig W) (raw : Text)
      → cfg.storage.cfg.enabled ≡ false
      → serve reader cfg (history_request raw)
        ≡ some (record { status = status_service_unavailable; body = error storage_disabled })
  unfolding history_of history_reply recent_positions
  serve-disabled reader cfg raw off =
      serve-history reader cfg raw ∙ rw (off, history_of, history_reply, recent_positions) refl

  -- When the storage is enabled with a positive history limit, the server keeps its lists as Redis
  -- documents and the JSON of the positions is read back as it was written: after the writer has handled
  -- some events on an empty history, the API answers a request for the history with the status 200 and the
  -- positions of these events that were encoded, newest first, at most the history limit and at most as
  -- many as the request asks for, which is from 1 to 1000.
  pub serve-history-run :
      (reader : Reader W S) (cfg : ServerConfig W) (enc : Encoder W)
      (list_at : S → Text → List Text) (n : ℕ) (s : S) (es : List (Event W)) (raw : Text)
      → IsRedis reader.client list_at
      → IsReadBack reader.decoder.position (saved_position enc) es
      → (limit : cfg.storage.cfg.history_limit ≡ pos (suc n)) → cfg.storage.cfg.enabled ≡ true
      → list_at s key_position_hist ≡ []
      → reader.server ≡ (run reader.client enc cfg.storage.cfg s (map received es)).server
      → (m : ℕ) × (m < 1000)
        × (limit_from_request reader.parse_int raw (pos 100) ≡ pos (suc m))
        × (serve reader cfg (history_request raw)
            ≡ some (record {
              status = status_ok;
              body = position_items (
                  map
                    (λ q. q.0)
                    (take (suc m) (take (suc n) (reverse (filter_map (saved_position enc) es)))));
            }))
  unfolding history_of
  serve-history-run reader cfg enc list_at n s es raw redis back limit on empty written =
      let (low, high, _) =
        limit_from_request-InRange reader.parse_int raw (pos 100) (omega arith) (omega arith) in
      let (m, small, same) =
        InRange-suc (limit_from_request reader.parse_int raw (pos 100)) low high in
      let items =
        recent_positions-run reader.client enc cfg.storage.cfg list_at redis n limit s es m on
          reader.decoder back empty in
      (
        m,
        small,
        same,
        serve-history reader cfg raw
            ∙ ap (λ r. some (history_reply r))
                (ap
                    (λ u.
                      recent_positions reader.client reader.decoder cfg.storage.cfg u
                        (limit_from_request reader.parse_int raw (pos 100)))
                    written
                  ∙ ap (recent_positions reader.client reader.decoder cfg.storage.cfg _) same
                  ∙ items),
      )
