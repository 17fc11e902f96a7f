-- ===== src/Exchange/Symbols.antt =====
-- internal/exchange/public_ws.go: the names of a symbol on the exchanges. Letters are those of ASCII.
pub mod Roundtrip
use arb_bot.Prelude.{
  ℕ, zero, suc, ◌+◌, ◌-◌, Bool, true, false, ◌&&◌, List, [], ◌∷◌, ◌++◌, ◌==◌, nat_eq, text_eq,
  if◌then◌else◌, ltb, leb, length, take, Text, codes,
}

-- `strings.ReplaceAll(s, old, new)` for an `old` of one byte.
unfoldable pub replace_all : Text → ℕ → Text → Text
replace_all [] old new = []
replace_all (c ∷ cs) old new =
    let rest = replace_all cs old new in if c == old then new ++ rest else c ∷ rest

abbrev pub upper_byte : ℕ → ℕ
upper_byte c = if leb 97 c && leb c 122 then c - 32 else c

unfoldable pub to_upper : Text → Text
to_upper [] = []
to_upper (c ∷ cs) = upper_byte c ∷ to_upper cs

unfoldable pub to_lower : Text → Text
to_lower [] = []
to_lower (c ∷ cs) = (if leb 65 c && leb c 90 then c + 32 else c) ∷ to_lower cs

unfoldable pub drop : ℕ → Text → Text
drop zero s = s
drop (suc n) [] = []
drop (suc n) (c ∷ cs) = drop n cs

unfoldable pub has_suffix : Text → Text → Bool
unfolding drop
has_suffix s suffix =
    if leb (length suffix) (length s) then drop (length s - length suffix) s == suffix else false

unfoldable pub trim_suffix : Text → Text → Text
unfolding has_suffix
trim_suffix s suffix = if has_suffix s suffix then take (length s - length suffix) s else s

abbrev pub slash : ℕ
slash = 47

abbrev pub dash : ℕ
dash = 45

unfoldable pub bybit_symbol : Text → Text
unfolding replace_all
bybit_symbol symbol = replace_all symbol slash []

unfoldable pub dash_symbol : Text → Text
unfolding replace_all
dash_symbol symbol = replace_all symbol slash (codes "-")

unfoldable pub market_htx_symbol : Text → Text
unfolding replace_all to_lower
market_htx_symbol symbol = codes "market." ++ to_lower (replace_all symbol slash [])

abbrev with_slash : Text → Text
with_slash symbol =
    if has_suffix symbol (codes "USDT") && ltb 4 (length symbol)
    then trim_suffix symbol (codes "USDT") ++ codes "/USDT"
    else symbol

unfoldable pub slash_symbol : Text → Text
unfolding replace_all to_upper has_suffix trim_suffix
slash_symbol symbol = with_slash (to_upper (replace_all symbol dash []))
