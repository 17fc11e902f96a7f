-- ===== src/App/Config/Load.antt =====
-- internal/app/config.go: `LoadConfig` on the lines of a file. White space is that of ASCII.
pub mod Modes
use arb_bot.Prelude.{
  ℕ, Bool, true, false, ◌||◌, ◌&&◌, List, [], ◌∷◌, ◌++◌, Option, none, some, ◌==◌, nat_eq, text_eq,
  if◌then◌else◌, leb, Text, codes, lookup, insert,
}
use mathlib.Core.List.{reverse}
use arb_bot.Float.{Float64, nought}
use arb_bot.App.Config.{Config, default_config}
use arb_bot.App.Config.Values.{Parsers, apply_config_value}

-- The ASCII characters that `unicode.IsSpace` holds for.
is_space : ℕ → Bool
is_space c = c == 32 || (leb 9 c && leb c 13)

is_quote : ℕ → Bool
is_quote c = c == 34

trim_left : (ℕ → Bool) → Text → Text
trim_left test [] = []
trim_left test (c ∷ cs) = let rest = trim_left test cs in if test c then rest else c ∷ cs

trim : (ℕ → Bool) → Text → Text
unfolding trim_left
trim test s = reverse (trim_left test (reverse (trim_left test s)))

-- `strings.TrimSpace(s)` and `strings.Trim(s, "\"")`.
unfoldable pub trim_space : Text → Text
unfolding trim is_space
trim_space = trim is_space

unfoldable pub trim_quotes : Text → Text
unfolding trim is_quote
trim_quotes = trim is_quote

-- `strings.Cut(s, ":")`; `none` is a text with no colon.
unfoldable pub cut_colon : Text → Option (Text × Text)
cut_colon [] = none
cut_colon (c ∷ cs) =
    let rest = cut_colon cs in
    if c == 58
    then some ([], cs)
    else elim rest [ none ↦ none | some (key, value) ↦ some (c ∷ key, value) ]

unfoldable pub contains : List Text → Text → Bool
contains [] value = false
contains (x ∷ xs) value = x == value || contains xs value

unfoldable pub append_if_missing : List Text → Text → List Text
unfolding contains
append_if_missing values value = if contains values value then values else values ++ value ∷ []

-- What a line is, after it is trimmed.
pub data Line : Type 0 where
  ignored : Line
  item : Text → Line
  heading : Text → Line
  setting : Text → Text → Line

-- A line with a colon: a heading where nothing stands behind it.
keyed : Option (Text × Text) → Line
keyed none = ignored
keyed (some (k, v)) =
    let key = trim_space k in
    let value = trim_quotes (trim_space v) in if value == [] then heading key else setting key value

begins_with_space : Text → Bool
begins_with_space [] = false
begins_with_space (c ∷ _) = c == 32

tail_of : Text → Text
tail_of [] = []
tail_of (_ ∷ cs) = cs

-- `#` begins a comment, and `- ` an item.
line_of : Text → Line
unfolding keyed cut_colon trim_space trim_quotes begins_with_space tail_of
line_of [] = ignored
line_of (c ∷ cs) =
    if c == 35
    then ignored
    else if c == 45 && begins_with_space cs
    then item (trim_quotes (tail_of cs))
    else keyed (cut_colon (c ∷ cs))

unfoldable pub read_line : Text → Line
unfolding line_of trim_space
read_line raw = line_of (trim_space raw)

is_section : Text → Bool
unfolding contains
is_section key =
    contains
      (codes "app"
        ∷ codes "trading"
        ∷ codes "exchanges"
        ∷ codes "fees"
        ∷ codes "risk"
        ∷ codes "strategy"
        ∷ codes "execution"
        ∷ codes "storage"
        ∷ [])
      key

-- The variables of the loop.
pub record Loader (W : Type 0) : Type 0 where
  pub cfg : Config W
  pub section : Text
  pub exchange : Text
  pub list_key : Text

module _ {W : Type 0} ⦃f : Float64 W⦄ where
  add_symbol : Config W → Text → Config W
  unfolding append_if_missing
  add_symbol cfg symbol = record cfg {
    trading = record cfg.trading { symbols = append_if_missing cfg.trading.symbols symbol };
  }

  -- A heading inside a section: the name of an exchange in two of them.
  name_exchange : Loader W → Text → Loader W
  name_exchange l key =
      if l.section == codes "exchanges"
      then record l {
        exchange = key;
        cfg = record l.cfg { exchanges = insert key (record { enabled = false }) l.cfg.exchanges };
      }
      else if l.section == codes "fees"
      then elim (lookup key l.cfg.fees) [
        | some _ ↦ record l { exchange = key }
        | none ↦ record l {
          exchange = key;
          cfg = record l.cfg {
            fees = insert key (record { maker_pct = nought; taker_pct = nought }) l.cfg.fees;
          };
        }
      ]
      else l

  open_list : Loader W → Loader W
  open_list l =
      let named = record l { list_key = l.section ++ codes ".symbols" } in
      if l.section == codes "trading"
      then record named { cfg = record l.cfg { trading = record l.cfg.trading { symbols = [] } } }
      else named

  head_line : Loader W → Text → Loader W
  unfolding is_section name_exchange open_list
  head_line l0 key =
      let l = record l0 { list_key = [] } in
      if is_section key
      then record l { section = key; exchange = [] }
      else if key == codes "symbols"
      then open_list l
      else name_exchange l key

  -- One round of the loop; `none` is an error, for which `LoadConfig` returns what it has so far.
  unfoldable pub load_line : Parsers W → Loader W → Line → Option (Loader W)
  unfolding head_line add_symbol
  load_line ps l ignored = some l
  load_line ps l (item symbol) =
      if l.list_key == codes "trading.symbols"
      then some (record l { cfg = add_symbol l.cfg symbol })
      else some l
  load_line ps l (heading key) = some (head_line l key)
  load_line ps l (setting key value) =
      elim (apply_config_value ps l.cfg l.section l.exchange key value) [
        | none ↦ none
        | some cfg ↦ some (record l { cfg = cfg })
      ]

  -- The configuration, and the line of the error if there is one.
  load_lines : Parsers W → Loader W → List Text → Config W × Option Text
  unfolding load_line read_line
  load_lines ps l [] = (l.cfg, none)
  load_lines ps l (raw ∷ rest) = elim (load_line ps l (read_line raw)) [
    | none ↦ (l.cfg, some raw)
    | some l' ↦ load_lines ps l' rest
  ]

  -- `LoadConfig` for a file that opens and is read to its end.
  unfoldable pub load_config : Parsers W → List Text → Config W × Option Text
  unfolding load_lines
  load_config ps lines =
      load_lines ps (record { cfg = default_config; section = []; exchange = []; list_key = [] })
        lines
