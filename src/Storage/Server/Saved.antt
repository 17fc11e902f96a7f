-- ===== src/Storage/Server/Saved.antt =====
-- The positions and the opportunities that the writer saves, with their JSON texts.
use mathlib.Core.List.{filter_map}
use arb_bot.Storage.Server.History.{Decodes}
use arb_bot.Prelude.{◌≡◌, refl, List, Option, none, some, All, Text}
use arb_bot.State.Opportunities.{OpportunityRecord}
use arb_bot.State.Positions.{Position}
use arb_bot.Storage.{Event, opportunity, position, Encoder}

unfoldable pub with_text : {A : Type 0} → A → Option Text → Option (A × Text)
with_text a none = none
with_text a (some text) = some (a, text)

pub constant : {A B : Type 0} (o : Option A) (b : B) → elim o [ none ↦ b | some _ ↦ b ] ≡ b
constant none b = refl
constant (some a) b = refl

pub elim-with_text :
    {A B : Type 0} (a : A) (o : Option Text) (b : B) (c : Text → B)
    → elim o [ none ↦ b | some text ↦ c text ] ≡ elim (with_text a o) [ none ↦ b | some q ↦ c q.1 ]
unfolding with_text
elim-with_text a none b c = refl
elim-with_text a (some text) b c = refl

module _ {W : Type 0} (enc : Encoder W) where
  -- A position that is written, with its JSON text.
  unfoldable pub saved_position : Event W → Option (Position W × Text)
  unfolding with_text
  saved_position (position p) = with_text p (enc.position_json p)
  saved_position _ = none

  unfoldable pub saved_opportunity : Event W → Option (OpportunityRecord W × Text)
  unfolding with_text
  saved_opportunity (opportunity r) = with_text r (enc.record_json r)
  saved_opportunity _ = none

-- The texts of the values that are saved are read back as these values.
abbrev pub IsReadBack :
    {W A : Type 0} → (Text → Option A) → (Event W → Option (A × Text)) → List (Event W) → Type 0
IsReadBack decode saved es = All (Decodes decode) (filter_map saved es)
