-- ===== src/Tests/Choices.antt =====
-- The choice of a protocol at concrete inputs: the client offers b and a, the server is configured with a and b.
use mathlib.Core.List.{Mem}
use mathlib.Core.List.Perm
use aiopquic.Base.{◌↔◌, ℕ, ◌≡◌, refl, Bool, true, some, List, [], ◌∷◌}
use aiopquic.Bridge.Alpn.{skip, same_bytes}
use aiopquic.Wt.Protocols.{
  before_byte, from_byte, trim_end, unquote, list_next, items_in, items, selected, offers_any,
  has_item, select_from, select_protocol,
}
use aiopquic.Wt.Protocols.Chosen.{IsFirst, select_protocol-order, select_protocol-IsFirst}

-- b, "a";v
abbrev offered_names : List ℕ
offered_names = 98 ∷ 44 ∷ 32 ∷ 34 ∷ 97 ∷ 34 ∷ 59 ∷ 118 ∷ []

-- a,b
abbrev configured : List ℕ
configured = 97 ∷ 44 ∷ 98 ∷ []

-- b, a
abbrev turned : List ℕ
turned = 98 ∷ 44 ∷ 32 ∷ 97 ∷ []

abbrev yes : List ℕ → Bool
yes name = true

chosen : select_protocol yes (some offered_names) configured ≡ selected (98 ∷ [])
unfolding select_protocol select_from has_item offers_any items items_in list_next skip from_byte
    before_byte trim_end unquote same_bytes
chosen = refl

select_protocol-IsFirst_example : IsFirst yes (items offered_names) (items configured) (98 ∷ [])
select_protocol-IsFirst_example =
    select_protocol-IsFirst yes offered_names configured (98 ∷ []) chosen

same_names : (o : List ℕ) → Mem o (items configured) ↔ Mem o (items turned)
unfolding items items_in list_next skip from_byte before_byte trim_end unquote
same_names o = Perm.mem_iff (Perm.swap (98 ∷ []) (97 ∷ []) [])

select_protocol-order_example :
    select_protocol yes (some offered_names) configured
    ≡ select_protocol yes (some offered_names) turned
select_protocol-order_example =
    select_protocol-order yes (some offered_names) configured turned same_names
