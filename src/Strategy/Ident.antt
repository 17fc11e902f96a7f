-- ===== src/Strategy/Ident.antt =====
-- internal/strategy/opportunity.go: the identifier of an opportunity.
use arb_bot.Prelude.{
  wrap64, print_int, print_int-injective, ℕ, ◌+◌, ◌-◌, ◌*◌, ◌^◌, ◌≤◌, ◌<◌, ◌≡◌, sym, ap, ◌∙◌, ◌||◌,
  List, [], ◌∷◌, ◌++◌, arith, ◌==◌, nat_eq, if◌then◌else◌, pos, Text, codes,
}
use arb_bot.Clock.{Time, second, unix_nano}
use arb_bot.Exchange.{Name}

-- `strings.NewReplacer("/", "", "-", "").Replace(symbol)`
normalize_symbol : Text → Text
normalize_symbol [] = []
normalize_symbol (c ∷ cs) =
    let rest = normalize_symbol cs in if c == b'/' || c == b'-' then rest else c ∷ rest

unfoldable pub new_opportunity_id : Text → Name → Name → Time → Text
unfolding normalize_symbol print_int
new_opportunity_id symbol long short detected_at =
    let stamp = print_int (unix_nano detected_at) in
    normalize_symbol symbol
    ++ (codes "-" ++ (long ++ (codes "-" ++ (short ++ (codes "-" ++ stamp)))))

append_cancel {ℓ} : {A : Type ℓ} (p : List A) {xs ys : List A} → p ++ xs ≡ p ++ ys → xs ≡ ys
append_cancel [] e = e
append_cancel (x ∷ p) e = append_cancel p (cc)

abbrev epoch : ℕ
epoch = 62_135_596_800 * second

unix_nano-eq : (t : Time) → epoch ≤ t → t < epoch + 2 ^ 63 → unix_nano t ≡ pos (t - epoch)
unfolding unix_nano wrap64
unix_nano-eq t h i = ground arith

-- Two instants from the Unix epoch on whose nanoseconds fit an `int64` have different identifiers,
-- for the same symbol and exchanges.
pub new_opportunity_id-injective :
    (symbol : Text) (long short : Name) (t u : Time)
    → 62_135_596_800 * second ≤ t
    → t < 62_135_596_800 * second + 2 ^ 63
    → 62_135_596_800 * second ≤ u
    → u < 62_135_596_800 * second + 2 ^ 63
    → new_opportunity_id symbol long short t ≡ new_opportunity_id symbol long short u
    → t ≡ u
unfolding new_opportunity_id
new_opportunity_id-injective symbol long short t u h i j k e =
    let behind_long = append_cancel (codes "-") (append_cancel (normalize_symbol symbol) e) in
    let behind_short = append_cancel (codes "-") (append_cancel long behind_long) in
    let stamps = append_cancel (codes "-") (append_cancel short behind_short) in
    let same : print_int (pos (t - epoch)) ≡ print_int (pos (u - epoch)) =
      sym (ap print_int (unix_nano-eq t h i)) ∙ stamps ∙ ap print_int (unix_nano-eq u j k) in
    omega (arith, print_int-injective (t - epoch) (u - epoch) (omega arith) (omega arith) same)
