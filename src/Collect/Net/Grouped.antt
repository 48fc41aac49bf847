-- ===== src/Collect/Net/Grouped.antt =====
-- src/net.cc: the addresses of an interface among those of the host.
use archspec.Base.{
  ◌≡◌, refl, ap, ◌∙◌, sym, true, ◌&&◌, List, [], ◌∷◌, ◌++◌, append_assoc, append-nil, Bytes, Option,
  none, some, eq_bytes, eq_bytes_iff, if◌then◌else◌, is_empty, Bool-cases, Option-cases, inl, inr,
}
use archspec.Base.Dict.{lookup, lookup-insert}
use archspec.Host.{Address, no_address, other_family, inet, inet6}
use archspec.Collect.Net.{InterfaceAddresses, Addresses, addresses_of, add_address, add_addresses}

-- the text of an IPv4 address, and of an IPv6 address
abbrev pub ipv4_text : Address → Option Bytes
ipv4_text (inet text) = text
ipv4_text _ = none

abbrev pub ipv6_text : Address → Option Bytes
ipv6_text (inet6 text) = text
ipv6_text _ = none

-- the texts that an entry gives an interface
abbrev pub texts_of_entry : (Address → Option Bytes) → Bytes → Bytes × Address → List Bytes
texts_of_entry text name (n, address) = elim (text address) [
  | none ↦ []
  | some t ↦ if eq_bytes n name then t ∷ [] else []
]

-- the texts of an interface's addresses, in the order of the entries
abbrev pub texts_of : (Address → Option Bytes) → Bytes → List (Bytes × Address) → List Bytes
texts_of text name [] = []
texts_of text name (entry ∷ entries) = texts_of_entry text name entry ++ texts_of text name entries

-- nothing, or the addresses behind those that are there
abbrev pub joined : Option InterfaceAddresses → List Bytes → List Bytes → Option InterfaceAddresses
joined (some found) a b = some (record { ipv4 = found.ipv4 ++ a; ipv6 = found.ipv6 ++ b })
joined none a b = if is_empty a && is_empty b then none else some (record { ipv4 = a; ipv6 = b })

joined-nil : (o : Option InterfaceAddresses) → joined o [] [] ≡ o
joined-nil none = refl
joined-nil (some found) = simp append-nil

joined-append :
    (o : Option InterfaceAddresses) (a b c d : List Bytes)
    → joined (joined o a b) c d ≡ joined o (a ++ c) (b ++ d)
joined-append (some found) a b c d = simp append_assoc
joined-append none [] [] c d = refl
joined-append none (x ∷ a) b c d = refl
joined-append none [] (y ∷ b) [] d = refl
joined-append none [] (y ∷ b) (z ∷ c) d = refl

same : (n name : Bytes) (m : Addresses) → eq_bytes n name ≡ true → lookup n m ≡ lookup name m
same n name m e = ap (λ k. lookup k m) ((eq_bytes_iff n name).0 e)

add_address-joined :
    (name n : Bytes) (address : Address) (m : Addresses)
    → lookup name (add_address n address m)
      ≡ joined
          (lookup name m)
          (texts_of_entry ipv4_text name (n, address))
          (texts_of_entry ipv6_text name (n, address))
unfolding add_address
add_address-joined name n no_address m = sym (joined-nil (lookup name m))
add_address-joined name n other_family m = sym (joined-nil (lookup name m))
add_address-joined name n (inet none) m = sym (joined-nil (lookup name m))
add_address-joined name n (inet6 none) m = sym (joined-nil (lookup name m))
add_address-joined name n (inet (some text)) m = elim (Bool-cases (eq_bytes n name)) [
  | inr e ↦ rw (lookup-insert n name, e) (sym (joined-nil (lookup name m)))
  | inl e ↦ elim (Option-cases (lookup name m)) [
    | inl q ↦ rw (lookup-insert n name, e, addresses_of, same n name m e, q) refl
    | inr (found, q) ↦
        rw (lookup-insert n name, e, addresses_of, same n name m e, q) (simp append-nil)
  ]
]
add_address-joined name n (inet6 (some text)) m = elim (Bool-cases (eq_bytes n name)) [
  | inr e ↦ rw (lookup-insert n name, e) (sym (joined-nil (lookup name m)))
  | inl e ↦ elim (Option-cases (lookup name m)) [
    | inl q ↦ rw (lookup-insert n name, e, addresses_of, same n name m e, q) refl
    | inr (found, q) ↦
        rw (lookup-insert n name, e, addresses_of, same n name m e, q) (simp append-nil)
  ]
]

add_addresses-joined :
    (name : Bytes) (entries : List (Bytes × Address)) (m : Addresses)
    → lookup name (add_addresses entries m)
      ≡ joined (lookup name m) (texts_of ipv4_text name entries) (texts_of ipv6_text name entries)
unfolding add_addresses
add_addresses-joined name [] m = sym (joined-nil (lookup name m))
add_addresses-joined name ((n, address) ∷ entries) m =
    add_addresses-joined name entries (add_address n address m)
    ∙ (ap (λ o. joined o (texts_of ipv4_text name entries) (texts_of ipv6_text name entries))
          (add_address-joined name n address m)
        ∙ joined-append (lookup name m) _ _ _ _)

-- The addresses that are collected for a name are the texts of its IPv4 entries and those of its IPv6
-- entries, each in the order of the entries, and there are none where both are missing.
pub lookup-add_addresses :
    (name : Bytes) (entries : List (Bytes × Address))
    → lookup name (add_addresses entries [])
      ≡ joined none (texts_of ipv4_text name entries) (texts_of ipv6_text name entries)
unfolding lookup
lookup-add_addresses name entries = add_addresses-joined name entries []
