-- ===== src/Tests/Positions.antt =====
-- Examples of the position book.
use arb_bot.Prelude.{List, leb_ℤ, ◌≡◌, ◌+◌, ◌*◌, [], ◌∷◌, Text, codes, pos, text_eq, if◌then◌else◌}
use arb_bot.Clock.{hour}
use arb_bot.Float.{nought}
use arb_bot.Float.Fixed.{Fixed, fixed_float}
use arb_bot.Exchange.{Name, bybit, okx, htx}
use arb_bot.State.Positions.{Leg, Position, PositionBook, position_open, new_position_book, add}
use mathlib.Core.List.{foldl}
use arb_bot.State.Positions.Abstract.{
  Op, adds, updates, closes, apply_op, contract_op, nothing_held, Answers,
  new_position_book-Answers,
}
use arb_bot.Tests.Data.{cents, now, symbol}

abbrev leg : Name → Leg Fixed
leg name = record {
  exchange = name;
  entry_price = cents 10_000;
  exit_price = nought;
  fee_usd = nought;
}

abbrev trade : Text → Position Fixed
trade id = record {
  id = id;
  symbol = symbol;
  long_leg = leg bybit;
  short_leg = leg okx;
  quantity = cents 50;
  status = position_open;
  opened_at = now;
  closed_at = 0;
  target_funding_time = now + 1 * hour;
  expected_carry_usd = cents 100;
  accrued_funding_usd = nought;
  realized_pnl_usd = nought;
  unrealized_pnl_usd = nought;
  close_reason = [];
  last_updated_at = now;
}

abbrev one : Position Fixed
one = trade (codes "one")

abbrev other : Position Fixed
other = record (trade (codes "other")) { short_leg = leg htx }

abbrev book : PositionBook Fixed
book = add (add (new_position_book (pos 100)) one) other

abbrev ops : List (Op Fixed)
ops = adds one ∷ adds other ∷ closes one ∷ updates one ∷ []

new_position_book-Answers_example :
    Answers (foldl apply_op (new_position_book (pos 1)) ops) (foldl contract_op nothing_held ops)
    × ((foldl apply_op (new_position_book (pos 1)) ops).limit
        ≡ (if leb_ℤ (pos 1) (pos 0) then pos 100 else pos 1))
new_position_book-Answers_example = new_position_book-Answers (pos 1) ops
