-- ===== src/Storage/Server/History.antt =====
-- What the writer puts into a history is what the reads of the history return. The client is assumed to
-- do what Redis documents for the commands that the writer sends.
use mathlib.Core.List.{filter_map, reverse, reverse-cons, append_assoc, map-append}
use arb_bot.Prelude.{
  ℕ, suc, zero, ◌≤◌, ◌≡◌, refl, sym, ap, ◌∙◌, List, [], ◌∷◌, ◌++◌, map, Option, none, some, arith,
  Option-cases, inl, inr, ◌==◌, text_eq, if◌then◌else◌, pos, length, take, take-eq_of_le,
  length-take, All, All-append, Text,
}
use arb_bot.Exchange.{ok}
use arb_bot.Storage.{Config, Event, hset, lpush, ltrim, Encoder, decrement, push_json}
use arb_bot.Storage.Server.{Client, received, write_logged, write_loop}

-- Lists behind a trim.
module _ {ℓ} {A : Type ℓ} where
  take-take_le : (n m : ℕ) (xs : List A) → n ≤ m → take n (take m xs) ≡ take n xs
  take-take_le zero m xs h = refl
  take-take_le (suc n) zero xs h = absurd (omega arith)
  take-take_le (suc n) (suc m) [] h = refl
  take-take_le (suc n) (suc m) (x ∷ xs) h = ap (◌∷◌ x) (take-take_le n m xs (omega arith))

  take-append-take :
      (n m : ℕ) (xs ys : List A) → n ≤ m → take n (xs ++ take m ys) ≡ take n (xs ++ ys)
  take-append-take n m [] ys h = take-take_le n m ys h
  take-append-take zero m (x ∷ xs) ys h = refl
  take-append-take (suc n) m (x ∷ xs) ys h = ap (◌∷◌ x) (take-append-take n m xs ys (omega arith))

module _ {ℓ κ} {A : Type ℓ} {B : Type κ} where
  pub map-take : (g : A → B) (n : ℕ) (xs : List A) → take n (map g xs) ≡ map g (take n xs)
  map-take g zero xs = refl
  map-take g (suc n) [] = refl
  map-take g (suc n) (x ∷ xs) = ap (◌∷◌ (g x)) (map-take g n xs)

  pub map-reverse : (g : A → B) (xs : List A) → reverse (map g xs) ≡ map g (reverse xs)
  map-reverse g [] = refl
  map-reverse g (x ∷ xs) =
      reverse-cons (g x) (map g xs)
      ∙ rw (reverse-cons x xs, map-append g (reverse xs) (x ∷ []), map-reverse g xs) refl

module _ {A : Type 0} where
  pub All-reverse : (P : A → Type 0) (xs : List A) → All P xs → All P (reverse xs)
  All-reverse P [] h = tt
  All-reverse P (x ∷ xs) h =
      rw (reverse-cons x xs) (All-append P (reverse xs) (x ∷ []) (All-reverse P xs h.1) (h.0, tt))

  -- The text of the pair is decoded as its value.
  abbrev pub Decodes : (Text → Option A) → A × Text → Type 0
  Decodes decode q = decode q.1 ≡ some q.0

  pub filter_map-Decodes :
      (decode : Text → Option A) (qs : List (A × Text))
      → All (Decodes decode) qs
      → filter_map decode (map (λ q. q.1) qs) ≡ map (λ q. q.0) qs
  unfolding filter_map
  filter_map-Decodes decode [] h = refl
  filter_map-Decodes decode (q ∷ qs) h = rw (h.0, filter_map-Decodes decode qs h.1) refl

-- What Redis documents, for the lists at the keys.
pub record IsRedis {S : Type 0} (client : Client S) (list_at : S → Text → List Text) : Type 0 where
  pub hset_law :
      (s : S) (hash field value key : Text)
      → list_at (client.exec s (hset hash field value ∷ [])).0 key ≡ list_at s key
  pub push_law :
      (s : S) (at value key : Text) (n : ℕ)
      → list_at (client.exec s (lpush at value ∷ ltrim at (pos 0) (pos n) ∷ [])).0 key
        ≡ (if at == key then take (suc n) (value ∷ list_at s at) else list_at s key)
  pub lrange_law :
      (s : S) (key : Text) (n : ℕ)
      → client.lrange s key (pos 0) (pos n) ≡ ok (take (suc n) (list_at s key))

module _ {W S : Type 0} (client : Client S) (enc : Encoder W) (cfg : Config) where
  module _ {A : Type 0} (list_at : S → Text → List Text) (key : Text)
      (saved : Event W → Option (A × Text)) (n : ℕ) where
    -- Each event that is saved is pushed on the list, and the others leave it.
    abbrev pub Pushes : Type 0
    Pushes =
        (s : S) (e : Event W)
        → list_at (write_logged client enc cfg s e) key
          ≡ elim (saved e) [ none ↦ list_at s key | some q ↦ take (suc n) (q.1 ∷ list_at s key) ]

    pub write_loop-list :
        Pushes
        → (s : S) (es : List (Event W)) → length (list_at s key) ≤ suc n
        → list_at (write_loop client enc cfg s (map received es)).server key
          ≡ take (suc n) (reverse (map (λ q. q.1) (filter_map saved es)) ++ list_at s key)
    unfolding write_loop filter_map
    write_loop-list p s [] h = sym (take-eq_of_le (suc n) (list_at s key) h)
    write_loop-list p s (e ∷ es) h =
        let s' = write_logged client enc cfg s e in
        elim (Option-cases (saved e)) [
          | inl k ↦
              let same : list_at s' key ≡ list_at s key = p s e ∙ rw k refl in
              write_loop-list p s' es (rw same h) ∙ rw (k, same) refl
          | inr (q, k) ↦
              let same : list_at s' key ≡ take (suc n) (q.1 ∷ list_at s key) = p s e ∙ rw k refl in
              let texts = map (λ r. r.1) (filter_map saved es) in
              write_loop-list p s' es
                (rw same (omega (arith, length-take (suc n) (q.1 ∷ list_at s key))))
              ∙ rw (k, same)
                  (take-append-take (suc n) (suc n) (reverse texts) (q.1 ∷ list_at s key)
                      (omega arith)
                    ∙ rw (reverse-cons q.1 texts) (
                        ap (take (suc n))
                          (sym (append_assoc (reverse texts) (q.1 ∷ []) (list_at s key)))))
        ]

  module _ (list_at : S → Text → List Text) (redis : IsRedis client list_at) (n : ℕ)
      (limit : cfg.history_limit ≡ pos (suc n)) where
    pub push_json-list :
        (s : S) (at key : Text) (o : Option Text)
        → list_at
            (elim (push_json enc cfg.history_limit at o) [
              | none ↦ s
              | some commands ↦ (client.exec s commands).0
            ])
            key
          ≡ elim o [
            | none ↦ list_at s key
            | some value ↦ if at == key then take (suc n) (value ∷ list_at s at) else list_at s key
          ]
    unfolding push_json decrement
    push_json-list s at key none = refl
    push_json-list s at key (some value) =
        rw limit (ground (arith, redis.push_law s at value key n))
