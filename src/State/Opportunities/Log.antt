-- ===== src/State/Opportunities/Log.antt =====
-- The opportunity log holds the latest records, up to its limit.
use arb_bot.Prelude.{
  ℕ, ◌≤◌, ◌≡◌, refl, List, [], ◌∷◌, ◌++◌, Option, none, some, arith, pos, ltb_ℤ, length, take,
  take-eq_of_le, take-cons-take, length-take, All, All-take, subst, Bool-cases, inl, inr, pos_part,
}
use mathlib.Core.Option.{some-injective}
use mathlib.Core.List.{reverse, reverse-cons, append_assoc, append-nil}
use arb_bot.State.Opportunities.{OpportunityRecord, OpportunityLog, new_opportunity_log, add}

module _ {W : Type 0} where
  -- The log after a sequence of additions, the first one first; `none` where one of them panics.
  abbrev pub add_all : OpportunityLog W → List (OpportunityRecord W) → Option (OpportunityLog W)
  add_all l [] = some l
  add_all l (r ∷ rs) = elim (add l r) [ none ↦ none | some l' ↦ add_all l' rs ]

  add-eq :
      (n : ℕ) (l : OpportunityLog W) (r : OpportunityRecord W)
      → l.limit ≡ pos n
      → length l.records ≤ n
      → add l r ≡ some (record { limit = pos n; records = take n (r ∷ l.records) })
  unfolding add
  add-eq n l r e h = ground (arith, take-eq_of_le n (r ∷ l.records))

  add_all-eq :
      (n : ℕ) (rs seen : List (OpportunityRecord W))
      → add_all (record { limit = pos n; records = take n seen }) rs
        ≡ some (record { limit = pos n; records = take n (reverse rs ++ seen) })
  add_all-eq n [] seen = refl
  add_all-eq n (r ∷ rs) seen =
      let here =
        add-eq n (record { limit = pos n; records = take n seen }) r refl
          (omega (arith, length-take n seen)) in
      let order : reverse rs ++ (r ∷ seen) ≡ reverse (r ∷ rs) ++ seen =
        rw (reverse-cons r rs, append_assoc (reverse rs) (r ∷ []) seen) in
      rw (here, add_all) (rw (take-cons-take n r seen, ← order) (add_all-eq n rs (r ∷ seen)))

  -- After any sequence of additions a new log with a limit n holds the n latest records, newest
  -- first.
  pub add_all-new :
      (n : ℕ) (rs : List (OpportunityRecord W))
      → add_all (new_opportunity_log (pos n)) rs
        ≡ some (record { limit = pos n; records = take n (reverse rs) })
  unfolding new_opportunity_log
  add_all-new n rs =
      let empty : take {A = OpportunityRecord W} n [] ≡ [] = take-eq_of_le n [] (omega arith) in
      rw (empty, append-nil (reverse rs)) at (add_all-eq n rs [])

  pub add-All :
      (P : OpportunityRecord W → Type 0) (l : OpportunityLog W) (r : OpportunityRecord W)
      (t : OpportunityLog W)
      → add l r ≡ some t
      → P r
      → All P l.records
      → All P t.records
  unfolding add
  add-All P l r t e p h = elim (Bool-cases (ltb_ℤ l.limit (pos (length (r ∷ l.records))))) [
    | inr room ↦ subst (λ u. All P u.records) (some-injective _ _ (rw (room, add) at e)) (p, h)
    | inl full ↦ elim (Bool-cases (ltb_ℤ l.limit (pos 0))) [
      | inl negative ↦ absurd (ground (arith, full, negative, e))
      | inr whole ↦
          subst (λ u. All P u.records) (some-injective _ _ (rw (full, whole, add) at e))
            (All-take P (pos_part l.limit) (r ∷ l.records) (p, h))
    ]
  ]
