-- ===== src/Json/RoundTrip/Order.antt =====
-- The members the parser holds after an object without two members of one name.
use nexus_rpc.Common.{◌≡◌, refl, ap, sym, ◌∙◌, arith, none}
use nexus_rpc.Common.{Bool-cases, inl, inr, Bytes}
use nexus_rpc.Common.ByteMap.{bytes_eq}
use nexus_rpc.Json.Value.{JsonValue, Members}
use nexus_rpc.Json.Value.{no_members, member, Doubles, find_member, set_member}
use nexus_rpc.Json.RoundTrip.Printable.{ArePrintable}

unfoldable pub append : Members → Members → Members
append no_members ms = ms
append (member k v acc) ms = member k v (append acc ms)

-- The members that the parser holds when it has read `ms` behind `acc`.
unfoldable pub add_all : Members → Members → Members
add_all acc no_members = acc
add_all acc (member k v ms) = add_all (set_member k v acc) ms

pub set_member-append :
    (k : Bytes) (v : JsonValue) (acc : Members)
    → find_member k acc ≡ none
    → set_member k v acc ≡ append acc (member k v no_members)
unfolding find_member set_member append
set_member-append k v no_members h = refl
set_member-append k v (member j w acc) h = elim (Bool-cases (bytes_eq j k)) [
  | inl e ↦ absurd (ground (arith, h, e))
  | inr e ↦ rw e (ap (member j w) (set_member-append k v acc (ground (arith, h, e))))
]

pub append-no_members : (acc : Members) → append acc no_members ≡ acc
unfolding append
append-no_members no_members = refl
append-no_members (member k v acc) = ap (member k v) (append-no_members acc)

pub append-append : (a b c : Members) → append (append a b) c ≡ append a (append b c)
unfolding append
append-append no_members b c = refl
append-append (member k v a) b c = ap (member k v) (append-append a b c)

module _ (lib : Doubles) where
  pub add_all-append : (ms acc : Members) → ArePrintable lib acc ms → add_all acc ms ≡ append acc ms
  unfolding add_all append
  add_all-append no_members acc p = sym (append-no_members acc)
  add_all-append (member k v ms) acc p =
      add_all-append ms (set_member k v acc) p.2
      ∙ ap (λ a. append a ms) (set_member-append k v acc p.0)
      ∙ append-append acc (member k v no_members) ms
