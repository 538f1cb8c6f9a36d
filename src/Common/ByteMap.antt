-- ===== src/Common/ByteMap.antt =====
-- `std::map` with `std::string` keys: an association list in ascending order of its keys.
use mathlib.Core.Path.{◌≡◌, refl, sym, ◌∙◌, ap}
use mathlib.Core.Logic.{inl, inr, ◌↔◌}
use mathlib.Core.Bool.{Bool, true, false}
use mathlib.Core.Option.{Option, none, some}
use mathlib.Core.List.{List, [], ◌∷◌, ◌++◌, append_assoc, append-nil}
use native.Mathlib.Omega.{arith}
use nexus_rpc.Common.Tests.{ltb, ◌==◌, if◌then◌else◌, Bool-cases}
use nexus_rpc.Common.Lists.{Bytes}

-- `operator<` of `std::string`: lexicographic, by unsigned bytes.
abbrev pub bytes_lt : Bytes → Bytes → Bool
bytes_lt [] [] = false
bytes_lt [] (y ∷ ys) = true
bytes_lt (x ∷ xs) [] = false
bytes_lt (x ∷ xs) (y ∷ ys) = if ltb x y then true else if ltb y x then false else bytes_lt xs ys

abbrev pub bytes_eq : Bytes → Bytes → Bool
bytes_eq [] [] = true
bytes_eq [] (y ∷ ys) = false
bytes_eq (x ∷ xs) [] = false
bytes_eq (x ∷ xs) (y ∷ ys) = if x == y then bytes_eq xs ys else false

pub bytes_eq_iff : (xs ys : Bytes) → (bytes_eq xs ys ≡ true) ↔ (xs ≡ ys)
bytes_eq_iff [] [] = (λ _. refl, λ _. refl)
bytes_eq_iff [] (y ∷ ys) = (λ h. cc, λ h. cc)
bytes_eq_iff (x ∷ xs) [] = (λ h. cc, λ h. cc)
bytes_eq_iff (x ∷ xs) (y ∷ ys) =
    (λ h. ground (arith, bytes_eq_iff xs ys), λ h. ground (arith, bytes_eq_iff xs ys))

pub bytes_lt_irrefl : (xs : Bytes) → bytes_lt xs xs ≡ false
bytes_lt_irrefl [] = refl
bytes_lt_irrefl (x ∷ xs) = ground (arith, bytes_lt_irrefl xs)

pub bytes_lt_asymm : (xs ys : Bytes) → bytes_lt xs ys ≡ true → bytes_lt ys xs ≡ false
bytes_lt_asymm [] [] h = cc
bytes_lt_asymm [] (y ∷ ys) h = refl
bytes_lt_asymm (x ∷ xs) [] h = cc
bytes_lt_asymm (x ∷ xs) (y ∷ ys) h = ground (arith, bytes_lt_asymm xs ys)

pub bytes_lt_trans :
    (xs ys zs : Bytes) → bytes_lt xs ys ≡ true → bytes_lt ys zs ≡ true → bytes_lt xs zs ≡ true
bytes_lt_trans xs [] [] h k = cc
bytes_lt_trans xs (y ∷ ys) [] h k = cc
bytes_lt_trans [] ys (z ∷ zs) h k = refl
bytes_lt_trans (x ∷ xs) [] (z ∷ zs) h k = cc
bytes_lt_trans (x ∷ xs) (y ∷ ys) (z ∷ zs) h k = ground (arith, bytes_lt_trans xs ys zs)

-- Two keys that are not ordered are the same.
pub bytes_lt_total : (xs ys : Bytes) → bytes_lt xs ys ≡ false → bytes_lt ys xs ≡ false → xs ≡ ys
bytes_lt_total [] [] h k = refl
bytes_lt_total [] (y ∷ ys) h k = cc
bytes_lt_total (x ∷ xs) [] h k = cc
bytes_lt_total (x ∷ xs) (y ∷ ys) h k = ground (arith, bytes_lt_total xs ys)

module _ {ℓ} {V : Type ℓ} where
  -- `m.find(k)`.
  abbrev pub find : Bytes → List (Bytes × V) → Option V
  find k [] = none
  find k ((j, w) ∷ m) = if bytes_eq j k then some w else find k m

  -- `m[k] = v`.
  abbrev pub set : Bytes → V → List (Bytes × V) → List (Bytes × V)
  set k v [] = (k, v) ∷ []
  set k v ((j, w) ∷ m) =
      if bytes_lt k j
      then (k, v) ∷ (j, w) ∷ m
      else if bytes_lt j k
      then (j, w) ∷ set k v m
      else (j, v) ∷ m

  abbrev pub Above : Bytes → List (Bytes × V) → Type 0
  Above k [] = Unit
  Above k ((j, w) ∷ m) = (bytes_lt k j ≡ true) × Above k m

  abbrev pub IsSorted : List (Bytes × V) → Type 0
  IsSorted [] = Unit
  IsSorted ((k, v) ∷ m) = Above k m × IsSorted m

  pub find-set :
      (k j : Bytes) (v : V) (m : List (Bytes × V))
      → find j (set k v m) ≡ (if bytes_eq k j then some v else find j m)
  find-set k j v [] = refl
  find-set k j v ((i, w) ∷ m) = ground (
    arith,
    find-set k j v m,
    bytes_eq_iff k j,
    bytes_eq_iff i j,
    bytes_eq_iff i k,
    bytes_lt_irrefl k,
    bytes_lt_total k i,
  )

  Above-set :
      (j k : Bytes) (v : V) (m : List (Bytes × V))
      → bytes_lt j k ≡ true
      → Above j m
      → Above j (set k v m)
  Above-set j k v [] h a = (h, tt)
  Above-set j k v ((i, w) ∷ m) h a = ground (arith, Above-set j k v m h)

  Above-trans : (j k : Bytes) (m : List (Bytes × V)) → bytes_lt j k ≡ true → Above k m → Above j m
  Above-trans j k [] h a = tt
  Above-trans j k ((i, w) ∷ m) h a = (bytes_lt_trans j k i h a.0, Above-trans j k m h a.1)

  -- A write keeps the keys ascending.
  pub set-IsSorted : (k : Bytes) (v : V) (m : List (Bytes × V)) → IsSorted m → IsSorted (set k v m)
  set-IsSorted k v [] s = (tt, tt)
  set-IsSorted k v ((i, w) ∷ m) s = elim (Bool-cases (bytes_lt k i)) [
    | inl before ↦ rw before ((before, Above-trans k i m before s.0), s)
    | inr after ↦ elim (Bool-cases (bytes_lt i k)) [
      | inl later ↦ rw (after, later) (Above-set i k v m later s.0, set-IsSorted k v m s.1)
      | inr same ↦ rw (after, same) s
    ]
  ]

  -- The entries of `m`, written into `acc` in order.
  abbrev pub set_all : List (Bytes × V) → List (Bytes × V) → List (Bytes × V)
  set_all acc [] = acc
  set_all acc ((k, v) ∷ m) = set_all (set k v acc) m

  abbrev Below : List (Bytes × V) → Bytes → Type 0
  Below [] k = Unit
  Below ((j, w) ∷ acc) k = (bytes_lt j k ≡ true) × Below acc k

  abbrev AllBelow : List (Bytes × V) → List (Bytes × V) → Type 0
  AllBelow acc [] = Unit
  AllBelow acc ((k, v) ∷ m) = Below acc k × AllBelow acc m

  set_last :
      (k : Bytes) (v : V) (acc : List (Bytes × V)) → Below acc k → set k v acc ≡ acc ++ (k, v) ∷ []
  set_last k v [] b = refl
  set_last k v ((j, w) ∷ acc) b =
      rw (bytes_lt_asymm j k b.0, b.0) (ap (λ t. (j, w) ∷ t) (set_last k v acc b.1))

  Below-append :
      (j k : Bytes) (v : V) (acc : List (Bytes × V))
      → Below acc j
      → bytes_lt k j ≡ true
      → Below (acc ++ (k, v) ∷ []) j
  Below-append j k v [] b h = (h, tt)
  Below-append j k v ((i, w) ∷ acc) b h = (b.0, Below-append j k v acc b.1 h)

  AllBelow-append :
      (k : Bytes) (v : V) (acc m : List (Bytes × V))
      → AllBelow acc m
      → Above k m
      → AllBelow (acc ++ (k, v) ∷ []) m
  AllBelow-append k v acc [] b a = tt
  AllBelow-append k v acc ((j, w) ∷ m) b a =
      (Below-append j k v acc b.0 a.0, AllBelow-append k v acc m b.1 a.1)

  set_all-append :
      (acc m : List (Bytes × V)) → IsSorted m → AllBelow acc m → set_all acc m ≡ acc ++ m
  set_all-append acc [] s b = sym (append-nil acc)
  set_all-append acc ((k, v) ∷ m) s b = rw (set_last k v acc b.0) (
      set_all-append (acc ++ (k, v) ∷ []) m s.1 (AllBelow-append k v acc m b.1 s.0)
      ∙ append_assoc acc ((k, v) ∷ []) m)

  nothing_below : (m : List (Bytes × V)) → AllBelow [] m
  nothing_below [] = tt
  nothing_below ((k, v) ∷ m) = (tt, nothing_below m)

  -- The entries of a map in order, written into an empty map, make the map again.
  pub set_all_sorted : (m : List (Bytes × V)) → IsSorted m → set_all [] m ≡ m
  set_all_sorted m s = set_all-append [] m s (nothing_below m)
