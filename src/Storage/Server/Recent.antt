-- ===== src/Storage/Server/Recent.antt =====
-- The history that `RecentPositions` and `RecentOpportunities` return, for events of any kinds.
use mathlib.Core.List.{filter_map, reverse, append-nil}
use arb_bot.Prelude.{
  ℕ, suc, ◌≡◌, refl, ap, ◌∙◌, true, List, [], map, Option, arith, Option-cases, inl, inr, text_eq,
  text_beq, if◌then◌else◌, pos, ◌-ℤ◌, take, All, All-take, Text,
}
use arb_bot.Exchange.{ok, failed}
use arb_bot.Storage.{
  Config, Event, order_book, opportunity, position, Encoder, write_event, write_order_book,
  key_opportunity_hist, key_position_hist,
}
use arb_bot.Storage.Server.{
  Client, received, Decoder, write_logged, write_loop, run, lrange, default_limit, decode_all,
  recent_positions, recent_opportunities, Turn, idle, storage_disabled,
}
use arb_bot.Storage.Server.History.{
  IsRedis, Decodes, Pushes, map-take, map-reverse, All-reverse, filter_map-Decodes, write_loop-list,
  push_json-list,
}
use arb_bot.Storage.Server.Saved.{
  constant, elim-with_text, saved_position, saved_opportunity, IsReadBack,
}

module _ {A : Type 0} (decode : Text → Option A) where
  -- Decoding what is left of a trimmed history.
  decode-trimmed :
      (qs : List (A × Text)) (m n : ℕ)
      → All (Decodes decode) qs
      → filter_map decode (take m (take n (reverse (map (λ q. q.1) qs))))
        ≡ map (λ q. q.0) (take m (take n (reverse qs)))
  decode-trimmed qs m n h =
      rw
        (
          map-reverse (λ q. q.1) qs,
          map-take (λ q. q.1) n (reverse qs),
          map-take (λ q. q.1) m (take n (reverse qs)),
        )
        (filter_map-Decodes decode (take m (take n (reverse qs)))
          (All-take _ m _ (All-take _ n _ (All-reverse _ qs h))))

module _ {W S : Type 0} (client : Client S) (enc : Encoder W) (cfg : Config)
    (list_at : S → Text → List Text) (redis : IsRedis client list_at) (n : ℕ)
    (limit : cfg.history_limit ≡ pos (suc n)) where
  Pushes-positions : Pushes client enc cfg list_at key_position_hist (saved_position enc) n
  unfolding write_event write_order_book saved_position write_logged text_beq
  Pushes-positions s (order_book b) = elim (Option-cases (enc.book_json b)) [
    | inl e ↦ rw (e, write_logged, write_order_book) refl
    | inr (text, e) ↦
        rw (e, write_logged, write_order_book) (redis.hset_law s _ _ text key_position_hist)
  ]
  Pushes-positions s (opportunity r) =
      push_json-list client enc cfg list_at redis n limit s key_opportunity_hist key_position_hist
        (enc.record_json r)
      ∙ constant (enc.record_json r) (list_at s key_position_hist)
  Pushes-positions s (position p) =
      push_json-list client enc cfg list_at redis n limit s key_position_hist key_position_hist
        (enc.position_json p)
      ∙ elim-with_text p (enc.position_json p) _ _

  Pushes-opportunities :
      Pushes client enc cfg list_at key_opportunity_hist (saved_opportunity enc) n
  unfolding write_event write_order_book saved_opportunity write_logged text_beq
  Pushes-opportunities s (order_book b) = elim (Option-cases (enc.book_json b)) [
    | inl e ↦ rw (e, write_logged, write_order_book) refl
    | inr (text, e) ↦
        rw (e, write_logged, write_order_book) (redis.hset_law s _ _ text key_opportunity_hist)
  ]
  Pushes-opportunities s (opportunity r) =
      push_json-list client enc cfg list_at redis n limit s key_opportunity_hist
        key_opportunity_hist (enc.record_json r)
      ∙ elim-with_text r (enc.record_json r) _ _
  Pushes-opportunities s (position p) =
      push_json-list client enc cfg list_at redis n limit s key_position_hist key_opportunity_hist
        (enc.position_json p)
      ∙ constant (enc.position_json p) (list_at s key_opportunity_hist)

  -- The values with their texts that the writer saves, newest first, within its limit.
  abbrev pub kept : {A : Type 0} → (Event W → Option (A × Text)) → List (Event W) → List (A × Text)
  kept saved es = take (suc n) (reverse (filter_map saved es))

  module _ (s : S) (es : List (Event W)) (m : ℕ) (on : cfg.enabled ≡ true) where
    abbrev pub turns : List (Turn W)
    turns = map received es

    abbrev pub after : S
    after = (run client enc cfg s turns).server

    list_at-after :
        {A : Type 0} (key : Text) (saved : Event W → Option (A × Text))
        → Pushes client enc cfg list_at key saved n
        → list_at s key ≡ []
        → list_at after key ≡ take (suc n) (reverse (map (λ q. q.1) (filter_map saved es)))
    unfolding run
    list_at-after key saved p empty =
        ap
          (λ b.
            list_at (if b then write_loop client enc cfg s turns else idle client s turns).server
              key)
          on
        ∙ write_loop-list client enc cfg list_at key saved n p s es (rw empty (omega arith))
        ∙ rw (empty, append-nil (reverse (map (λ q. q.1) (filter_map saved es)))) refl

    lrange-after :
        (key : Text) → lrange client after key (pos (suc m)) ≡ ok (take (suc m) (list_at after key))
    unfolding lrange ◌-ℤ◌
    lrange-after key =
        let last : pos (suc m) -ℤ pos 1 ≡ pos m = ground arith in
        ap (client.lrange after key (pos 0)) last ∙ redis.lrange_law after key m

    decode_all-after :
        {A : Type 0} (key : Text) (saved : Event W → Option (A × Text)) (decode : Text → Option A)
        → Pushes client enc cfg list_at key saved n
        → IsReadBack decode saved es
        → list_at s key ≡ []
        → decode_all decode (lrange client after key (pos (suc m)))
          ≡ ok (map (λ q. q.0) (take (suc m) (kept saved es)))
    unfolding decode_all
    decode_all-after key saved decode p back empty =
        ap (decode_all decode) (lrange-after key)
        ∙ rw (list_at-after key saved p empty)
            (ap ok (decode-trimmed decode (filter_map saved es) (suc m) (suc n) back))

    default_limit-pos : default_limit (pos (suc m)) ≡ pos (suc m)
    unfolding default_limit
    default_limit-pos = ground arith

    -- When the storage is enabled with a positive history limit, the server keeps its lists as Redis
    -- documents and the JSON of the positions is read back as it was written: after the writer has handled some events, of
    -- any kinds and on an empty history, a read of the positions with a positive limit returns the
    -- positions of these events that were encoded, newest first, at most the history limit and at most
    -- the limit of the read.
    pub recent_positions-run :
        (dec : Decoder W)
        → IsReadBack dec.position (saved_position enc) es
        → list_at s key_position_hist ≡ []
        → recent_positions client dec cfg after (pos (suc m))
          ≡ ok (map (λ q. q.0) (take (suc m) (kept (saved_position enc) es)))
    unfolding recent_positions
    recent_positions-run dec back empty =
        ap
          (λ b.
            if b
            then decode_all dec.position
                (lrange client after key_position_hist (default_limit (pos (suc m))))
            else failed storage_disabled)
          on
        ∙ rw default_limit-pos (
            decode_all-after key_position_hist (saved_position enc) dec.position Pushes-positions
              back empty)

    pub recent_opportunities-run :
        (dec : Decoder W)
        → IsReadBack dec.opportunity (saved_opportunity enc) es
        → list_at s key_opportunity_hist ≡ []
        → recent_opportunities client dec cfg after (pos (suc m))
          ≡ ok (map (λ q. q.0) (take (suc m) (kept (saved_opportunity enc) es)))
    unfolding recent_opportunities
    recent_opportunities-run dec back empty =
        ap
          (λ b.
            if b
            then decode_all dec.opportunity
                (lrange client after key_opportunity_hist (default_limit (pos (suc m))))
            else failed storage_disabled)
          on
        ∙ rw default_limit-pos (
            decode_all-after key_opportunity_hist (saved_opportunity enc) dec.opportunity
              Pushes-opportunities back empty)
