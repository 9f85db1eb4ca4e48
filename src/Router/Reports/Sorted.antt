-- ===== src/Router/Reports/Sorted.antt =====
-- The addresses in the debug text of a router.
use xchg.Base.{ℕ, ◌≡◌, refl, ap, List, [], ◌∷◌, length, map}
use mathlib.Core.Path.{subst}
use mathlib.Core.List.{Permᴰ}
use xchg.Sorting.{IsSorted, sort_by, sort_by-IsSorted, sort_by-Perm}
use xchg.Storage.{Storage, messages_count}
use xchg.Router.{Router, Addresses}
use xchg.Router.Reports.{AddressInfo, Speed, address_text, address_infos, debug_info}

-- The entry of an address: its text and how many messages its storage holds.
abbrev pub entry : List ℕ × Storage → AddressInfo
entry (k, s) = record { address = k; message_count = length s.messages }

address_infos-eq : (m : Addresses) → address_infos m ≡ map entry m
unfolding address_infos messages_count
address_infos-eq [] = refl
address_infos-eq ((k, s) ∷ m) = ap (λ l. entry (k, s) ∷ l) (address_infos-eq m)

-- The debug text of a router lists its addresses, each as often as the router's table has it, with
-- the number of messages that its storage holds, in the order of their texts.
pub debug_info-IsSorted :
    (c : Router) (speed : Speed)
    → IsSorted address_text (debug_info c speed).addresses
      × Permᴰ (debug_info c speed).addresses (map entry c.addresses)
unfolding debug_info
debug_info-IsSorted c speed = (
  sort_by-IsSorted address_text (address_infos c.addresses),
  subst (Permᴰ (sort_by address_text (address_infos c.addresses))) (address_infos-eq c.addresses)
      (sort_by-Perm address_text (address_infos c.addresses)),
)
