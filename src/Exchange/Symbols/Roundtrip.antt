-- ===== src/Exchange/Symbols/Roundtrip.antt =====
-- A symbol that is subscribed to comes back under its own name.
use arb_bot.Prelude.{
  ℕ, ◌-◌, ◌≡◌, ◌≢◌, refl, ap, true, [], ◌∷◌, ◌++◌, arith, nat_eq, text_eq, text_beq_iff, ltb,
  length, length-append, take, All, Text, codes,
}
use arb_bot.Exchange.Symbols.{
  replace_all, upper_byte, to_upper, drop, has_suffix, trim_suffix, slash, dash, bybit_symbol,
  dash_symbol, with_slash, slash_symbol,
}

-- A byte of a name in capital letters and digits, or at least no small letter and no separator.
pub record IsPlain (c : ℕ) : Type 0 where
  pub capital : upper_byte c ≡ c
  pub not_slash : c ≢ slash
  pub not_dash : c ≢ dash

pub drop-append : (xs ys : Text) → drop (length xs) (xs ++ ys) ≡ ys
unfolding drop
drop-append [] ys = refl
drop-append (x ∷ xs) ys = drop-append xs ys

pub take-append : (xs ys : Text) → take (length xs) (xs ++ ys) ≡ xs
take-append [] [] = refl
take-append [] (y ∷ ys) = refl
take-append (x ∷ xs) ys = ap (◌∷◌ x) (take-append xs ys)

replace_all-dash :
    (base rest : Text)
    → All IsPlain base
    → replace_all (base ++ rest) dash [] ≡ base ++ replace_all rest dash []
unfolding replace_all
replace_all-dash [] rest h = refl
replace_all-dash (c ∷ cs) rest h = ground (arith, h.0.not_dash, replace_all-dash cs rest h.1)

pub replace_all-slash :
    (base rest new : Text)
    → All IsPlain base
    → replace_all (base ++ rest) slash new ≡ base ++ replace_all rest slash new
unfolding replace_all
replace_all-slash [] rest new h = refl
replace_all-slash (c ∷ cs) rest new h =
    ground (arith, h.0.not_slash, replace_all-slash cs rest new h.1)

pub to_upper-append :
    (base rest : Text) → All IsPlain base → to_upper (base ++ rest) ≡ base ++ to_upper rest
unfolding to_upper
to_upper-append [] rest h = refl
to_upper-append (c ∷ cs) rest h = rw (h.0.capital, to_upper-append cs rest h.1) refl

has_suffix-append : (base suffix : Text) → has_suffix (base ++ suffix) suffix ≡ true
unfolding has_suffix
has_suffix-append base suffix =
    let rest : length (base ++ suffix) - length suffix ≡ length base =
      omega (arith, length-append base suffix) in
    rw (rest, drop-append base suffix)
      (ground (arith, length-append base suffix, text_beq_iff suffix suffix))

trim_suffix-append : (base suffix : Text) → trim_suffix (base ++ suffix) suffix ≡ base
unfolding trim_suffix
trim_suffix-append base suffix =
    let rest : length (base ++ suffix) - length suffix ≡ length base =
      omega (arith, length-append base suffix) in
    rw (has_suffix-append base suffix, rest) (take-append base suffix)

with_slash-append :
    (base : Text) → base ≢ [] → with_slash (base ++ codes "USDT") ≡ base ++ codes "/USDT"
with_slash-append [] n = absurd (n refl)
with_slash-append (c ∷ cs) n =
    let long : ltb 4 (length (c ∷ cs ++ codes "USDT")) ≡ true =
      ground (arith, length-append cs (codes "USDT")) in
    rw (has_suffix-append (c ∷ cs) (codes "USDT"), long, trim_suffix-append (c ∷ cs) (codes "USDT"))
      refl

pub slash_symbol-append :
    (base : Text)
    → base ≢ []
    → All IsPlain base
    → slash_symbol (base ++ codes "USDT") ≡ base ++ codes "/USDT"
unfolding slash_symbol replace_all to_upper
slash_symbol-append base n h =
    rw (replace_all-dash base (codes "USDT") h, to_upper-append base (codes "USDT") h)
      (with_slash-append base n)

-- For a pair whose base is not empty and plain and whose quote is USDT, the name under which Bybit
-- sends its book is read back as the pair.
pub slash_symbol-bybit_symbol :
    (base : Text)
    → base ≢ []
    → All IsPlain base
    → slash_symbol (bybit_symbol (base ++ codes "/USDT")) ≡ base ++ codes "/USDT"
unfolding bybit_symbol replace_all
slash_symbol-bybit_symbol base n h =
    rw (replace_all-slash base (codes "/USDT") [] h) (slash_symbol-append base n h)

-- A pair with no dash is read back from the name that OKX and KuCoin use.
pub replace_all-dash_symbol :
    (symbol : Text)
    → All (λ c. c ≢ dash) symbol
    → replace_all (dash_symbol symbol) dash (codes "/") ≡ symbol
unfolding replace_all dash_symbol
replace_all-dash_symbol [] h = refl
replace_all-dash_symbol (c ∷ cs) h = ground (arith, h.0, replace_all-dash_symbol cs h.1)
