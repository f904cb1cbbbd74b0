-- ===== src/Wt/Protocols.antt =====
-- src/aiopquic/_binding/c/h3wt_callback.h, the choice of a session's protocol by the server: the lists of names
-- with commas between them, that of the client and the configured one. A text is the list of its bytes.
pub mod Chosen
use aiopquic.Base.{
  ℕ, zero, suc, ◌-◌, Bool, true, false, not, ◌&&◌, ◌||◌, Option, none, some, List, [], ◌∷◌, ltb,
  leb, ◌==◌, if◌then◌else◌, length, take, drop,
}
use aiopquic.Bridge.Alpn.{space, tab, comma, quote, skip, same_bytes}

abbrev pub semicolon : ℕ
semicolon = 59

-- The bytes before the first `stop`, and those from there on.
unfoldable pub before_byte : ℕ → List ℕ → List ℕ
before_byte stop [] = []
before_byte stop (c ∷ p) = let more = before_byte stop p in if c == stop then [] else c ∷ more

unfoldable pub from_byte : ℕ → List ℕ → List ℕ
from_byte stop [] = []
from_byte stop (c ∷ p) = let more = from_byte stop p in if c == stop then c ∷ p else more

abbrev pub is_blank : ℕ → Bool
is_blank c = (c == space) || (c == tab)

abbrev pub kept_before : ℕ → List ℕ → List ℕ
kept_before c [] = if is_blank c then [] else c ∷ []
kept_before c (d ∷ rest) = c ∷ d ∷ rest

-- Without the spaces and tabs at its end.
unfoldable pub trim_end : List ℕ → List ℕ
trim_end [] = []
trim_end (c ∷ p) = kept_before c (trim_end p)

abbrev pub ends_quoted : List ℕ → Bool
ends_quoted [] = false
ends_quoted (c ∷ []) = c == quote
ends_quoted (c ∷ d ∷ p) = ends_quoted (d ∷ p)

abbrev pub starts_quoted : List ℕ → Bool
starts_quoted [] = false
starts_quoted (c ∷ p) = c == quote

unfoldable pub unquote : List ℕ → List ℕ
unquote item =
    if leb 2 (length item) && starts_quoted item && ends_quoted item
    then take (length item - 2) (drop 1 item)
    else item

abbrev pub item_of : List ℕ → List ℕ
item_of text = unquote (trim_end (before_byte semicolon (before_byte comma text)))

abbrev pub item_at : List ℕ → Option (List ℕ × List ℕ)
item_at [] = none
item_at (c ∷ p) = some (item_of (c ∷ p), from_byte comma (c ∷ p))

-- `aiopquic_wt_list_next`: the item and the position after it, none when none is left.
unfoldable pub list_next : List ℕ → Option (List ℕ × List ℕ)
list_next text = item_at (skip text)

-- The items that the loops see, with as many steps as there are bytes.
unfoldable pub items_in : ℕ → List ℕ → List (List ℕ)
items_in zero text = []
items_in (suc n) text = elim (list_next text) [
  | none ↦ []
  | some (item, rest) ↦ item ∷ items_in n rest
]

unfoldable pub items : List ℕ → List (List ℕ)
items text = items_in (suc (length text)) text

pub data Selection : Type 0 where
  none_offered no_match : Selection
  selected : List ℕ → Selection

unfoldable pub offers_any : List (List ℕ) → Bool
offers_any [] = false
offers_any (o ∷ os) = let more = offers_any os in if ltb 0 (length o) then true else more

-- The inner loop: whether an item of the configured list is the one offered.
unfoldable pub has_item : List ℕ → List (List ℕ) → Bool
has_item o [] = false
has_item o (sv ∷ svs) = let more = has_item o svs in if same_bytes o sv then true else more

abbrev pub name_size : ℕ
name_size = 256

-- The outer loop; `is_set` is whether picowt takes the name.
unfoldable pub select_from : (List ℕ → Bool) → List (List ℕ) → List (List ℕ) → Selection
select_from is_set [] supported = no_match
select_from is_set (o ∷ os) supported =
    let more = select_from is_set os supported in
    if length o == 0
    then more
    else if has_item o supported
    then (if leb name_size (length o) then more else if is_set o then selected o else no_match)
    else more

-- No offer is NULL.
unfoldable pub select_protocol : (List ℕ → Bool) → Option (List ℕ) → List ℕ → Selection
select_protocol is_set none supported = none_offered
select_protocol is_set (some offer) supported =
    if not (offers_any (items offer))
    then none_offered
    else select_from is_set (items offer) (items supported)
