-- ===== src/Storage/Server/Stop.antt =====
-- When the writer of the queue returns.
use mathlib.Core.List.{Memᴰ}
use mathlib.Core.List.Memᴰ.{head, tail}
use arb_bot.Prelude.{
  ◌≡◌, ◌↔◌, arith, sym, subst, refl, true, List, [], ◌∷◌, Bool-cases, inl, inr, if◌then◌else◌,
}
use arb_bot.Storage.{Event, Config, Encoder}
use arb_bot.Storage.Server.{Client, Turn, done, received, write_logged, write_loop, idle, run}

later :
    {W : Type 0} (turns : List (Turn W)) (event : Event W) {B : Type 0}
    → (B ↔ Memᴰ done turns)
    → (B ↔ Memᴰ done (received event ∷ turns))
later turns event h = (
  (λ x. tail (h.0 x)),
  λ k. elim k [ head same ↦ absurd (ground (arith, same)) | tail k' ↦ h.1 k' ],
)

module _ {W S : Type 0} (client : Client S) where
  write_loop-returned :
      (enc : Encoder W) (cfg : Config) (server : S) (turns : List (Turn W))
      → ((write_loop client enc cfg server turns).returned ≡ true) ↔ Memᴰ done turns
  unfolding write_loop
  write_loop-returned enc cfg server [] = ((λ e. absurd cc), λ k. elim k [ ])
  write_loop-returned enc cfg server (done ∷ turns) = ((λ e. head refl), λ k. refl)
  write_loop-returned enc cfg server (received event ∷ turns) =
      later turns event
        (write_loop-returned enc cfg (write_logged client enc cfg server event) turns)

  idle-returned :
      (server : S) (turns : List (Turn W))
      → ((idle client server turns).returned ≡ true) ↔ Memᴰ done turns
  unfolding idle
  idle-returned server [] = ((λ e. absurd cc), λ k. elim k [ ])
  idle-returned server (done ∷ turns) = ((λ e. head refl), λ k. refl)
  idle-returned server (received event ∷ turns) = later turns event (idle-returned server turns)

  -- The writer returns exactly when its context is done, enabled or not, whatever events it takes and
  -- whatever errors the encoding and the client report.
  pub run-returned_iff :
      (enc : Encoder W) (cfg : Config) (server : S) (turns : List (Turn W))
      → ((run client enc cfg server turns).returned ≡ true) ↔ Memᴰ done turns
  unfolding run
  run-returned_iff enc cfg server turns = elim (Bool-cases cfg.enabled) [
    | inl on ↦
        subst
          (λ b.
            ((if b
                then write_loop client enc cfg server turns
                else idle client server turns).returned
              ≡ true)
            ↔ Memᴰ done turns)
          (sym on) (write_loop-returned enc cfg server turns)
    | inr off ↦
        subst
          (λ b.
            ((if b
                then write_loop client enc cfg server turns
                else idle client server turns).returned
              ≡ true)
            ↔ Memᴰ done turns)
          (sym off) (idle-returned server turns)
  ]
