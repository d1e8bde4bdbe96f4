-- ===== src/Pci/Addresses.antt =====
-- A glob spec made from the text of an address matches that address.
use Prim.Native.String.{String, [], ◌∷◌}
use Prim.Native.Char.{Char, code}
use mathlib.Core.List.{List, [] as nil, ◌∷◌ as cons}
use snap_openstack.Prelude.{
  ℕ, ◌≡◌, refl, ap, sym, ◌∙◌, true, false, arith, ◌==◌, nat_eq, string_eq, Bool-cases, inl, inr,
  split, partition, return, ◌>>=◌, >>=-eq-return, put_first, eq_iff,
}
use snap_openstack.Pci.{
  PciAddress, pci_address, glob_spec, glob_match, parse_hex, any, glob_address, glob_function,
  glob_parts, split_function, split_address, parse_fields,
}

split-ne-nil : (sep : ℕ) (s : String) → split sep s ≡ nil → ⊥
unfolding split
split-ne-nil sep [] h = cc
split-ne-nil sep (c ∷ s) h = elim (Bool-cases (code c == sep)) [
  | inl here ↦ cc (rw here at h)
  | inr on ↦ put_first-ne-nil c (split sep s) (split-ne-nil sep s) (rw on at h)
]
  where
    put_first-ne-nil : (c : Char) (xs : List String) → (xs ≡ nil → ⊥) → put_first c xs ≡ nil → ⊥
    put_first-ne-nil c nil f h = f refl
    put_first-ne-nil c (cons x xs) f h = cc

put_first-cons :
    (c : Char) (xs : List String) {x : String} {ys : List String}
    → put_first c xs ≡ cons x ys
    → (w : String) × (xs ≡ cons w ys) × (x ≡ c ∷ w)
put_first-cons c nil h = cc
put_first-cons c (cons w ws) h = (w, cc, cc)

split-single : (sep : ℕ) (s y : String) → split sep s ≡ cons y nil → s ≡ y
unfolding split
split-single sep [] y h = cc
split-single sep (c ∷ s) y h = elim (Bool-cases (code c == sep)) [
  | inl here ↦ let g : split sep s ≡ nil = cc (rw here at h) in elim (split-ne-nil sep s g) [ ]
  | inr on ↦
      let (w, e, f) = put_first-cons c (split sep s) (rw on at h) in
      ap (λ t. c ∷ t) (split-single sep s w e) ∙ sym f
]

pub partition-split :
    (sep : ℕ) (s x y : String) → split sep s ≡ cons x (cons y nil) → partition sep s ≡ (x, y)
unfolding split partition
partition-split sep [] x y h = cc
partition-split sep (c ∷ s) x y h = elim (Bool-cases (code c == sep)) [
  | inl here ↦
      let g : split sep s ≡ cons y nil = cc (rw here at h) in
      let f : x ≡ [] = cc (rw here at h) in let e = split-single sep s y g in rw here cc
  | inr on ↦
      let (w, e, f) = put_first-cons c (split sep s) (rw on at h) in
      let k = partition-split sep s w y e in rw (on, k) cc
]

glob_match_self : (a : PciAddress) → glob_match a a ≡ true
unfolding glob_match
glob_match_self a = ground (
  arith,
  eq_iff a.domain a.domain,
  eq_iff a.bus a.bus,
  eq_iff a.slot a.slot,
  eq_iff a.function a.function,
)

-- What a glob spec with these parts does, for parts that are an address.
abbrev Globbed : String → String → PciAddress → Type 0
Globbed domain_bus_slot function a =
    (spec : PciAddress) × ((glob_address (domain_bus_slot == "") domain_bus_slot
        >>= glob_function (function == "") function)
      ≡ return spec)
    × (glob_match spec a ≡ true)

three_parts :
    (s : String) {a b c : String} → split b':' s ≡ cons a (cons b (cons c nil)) → s == "" ≡ false
unfolding split
three_parts s h = elim (Bool-cases (s == "")) [
  | inl empty ↦ cc (rw ((eq_iff s "").0 empty) at h)
  | inr full ↦ full
]

function_parts :
    (xs : List String) {a : PciAddress}
    → split_function xs ≡ return a
    → (p : String) × (f : String) × (xs ≡ cons p (cons f nil))
      × (split_address f (split b':' p) ≡ return a)
unfolding split_function
function_parts nil h = cc
function_parts (cons p nil) h = cc
function_parts (cons p (cons f nil)) h = (p, f, refl, h)
function_parts (cons p (cons f (cons x xs))) h = cc

address_parts :
    (f : String) (xs : List String) {a : PciAddress}
    → split_address f xs ≡ return a
    → (d : String) × (b : String) × (s : String) × (xs ≡ cons d (cons b (cons s nil)))
      × (parse_fields d b s f ≡ return a)
unfolding split_address
address_parts f nil h = cc
address_parts f (cons d nil) h = cc
address_parts f (cons d (cons b nil)) h = cc
address_parts f (cons d (cons b (cons s nil))) h = (d, b, s, refl, h)
address_parts f (cons d (cons b (cons s (cons x xs)))) h = cc

-- The parts of an address, parsed.
abbrev Parsed : String → String → String → String → PciAddress → Type 0
Parsed d b s f a =
    (parse_hex 4 d ≡ return a.domain)
    × (parse_hex 2 b ≡ return a.bus)
    × (parse_hex 2 s ≡ return a.slot)
    × (parse_hex 1 f ≡ return a.function)

parse_fields-Parsed :
    (d b s f : String) {a : PciAddress} → parse_fields d b s f ≡ return a → Parsed d b s f a
unfolding parse_fields
parse_fields-Parsed d b s f {a} h =
    let (x, hx, h1) = >>=-eq-return (parse_hex 4 d) _ h in
    let (y, hy, h2) = >>=-eq-return (parse_hex 2 b) _ h1 in
    let (z, hz, h3) = >>=-eq-return (parse_hex 2 s) _ h2 in
    let (w, hw, h4) = >>=-eq-return (parse_hex 1 f) _ h3 in
    let e : a ≡ record { domain = x; bus = y; slot = z; function = w } = cc in
    (
      hx ∙ ap (λ r. return r.domain) (sym e),
      hy ∙ ap (λ r. return r.bus) (sym e),
      hz ∙ ap (λ r. return r.slot) (sym e),
      hw ∙ ap (λ r. return r.function) (sym e),
    )

function-Globbed :
    (d b s f : String) (a : PciAddress)
    → Parsed d b s f a
    → (spec : PciAddress) × (glob_function (f == "") f (record a { function = any }) ≡ return spec)
      × (glob_match spec a ≡ true)
unfolding glob_function glob_match
function-Globbed d b s f a h = elim (Bool-cases (f == "")) [
  | inl empty ↦ (
    record a { function = any },
    rw empty refl,
    ground (arith, eq_iff a.domain a.domain, eq_iff a.bus a.bus, eq_iff a.slot a.slot),
  )
  | inr full ↦ (a, rw (full, h.3) refl, glob_match_self a)
]

Parsed-Globbed :
    (p d b s f : String) (a : PciAddress)
    → split b':' p ≡ cons d (cons b (cons s nil))
    → Parsed d b s f a
    → Globbed p f a
unfolding glob_address glob_parts
Parsed-Globbed p d b s f a e h =
    let full = three_parts p e in rw (full, e, h.0, h.1, h.2) (function-Globbed d b s f a h)

pub glob_spec-pci_address :
    (address : String) (a : PciAddress)
    → pci_address address ≡ return a
    → (spec : PciAddress) × (glob_spec address ≡ return spec) × (glob_match spec a ≡ true)
unfolding pci_address glob_spec
glob_spec-pci_address address a h =
    let (p, f, e, k) = function_parts (split b'.' address) h in
    let (d, b, s, e2, k2) = address_parts f (split b':' p) k in
    rw (partition-split b'.' address p f e)
      (Parsed-Globbed p d b s f a e2 (parse_fields-Parsed d b s f k2))
