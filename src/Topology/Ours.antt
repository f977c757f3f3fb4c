-- ===== src/Topology/Ours.antt =====
-- `node_addr_extract_exts` and `is_node_addr_us` of aionetiface/net/topology.py. Of an interface
-- the external addresses of its routes are used, by family.
use aionetiface.Prelude.{refl, true, ◌↔◌, ◌⊎◌, ◌≡◌}
use aionetiface.Prelude.{ℕ, Bool, false, ◌||◌, Option, none, some}
use aionetiface.Prelude.{Option-cases, inl, inr, ap, sym, ◌∙◌, Bool-cases, arith}
use aionetiface.Prelude.{List, [], ◌∷◌, ◌++◌, get_elem?}
use aionetiface.Bytes.{Bytes, Result, ok, err, type_error}
use aionetiface.IpRange.{IpRange, range_intersects}
use aionetiface.Stun.Address.{Family, ip4, ip6}
use aionetiface.Topology.{Info, Block, Infos, NodeAddr}
use aionetiface.Topology.Parsing.{parse_node_addr}

abbrev pub infos_exts : Infos → List Block
infos_exts [] = []
infos_exts ((index, info) ∷ infos) = info.ext ∷ info.nic ∷ infos_exts infos

-- The argument is a parsed address, or the `None` of one that was not.
unfoldable pub node_addr_extract_exts : Option NodeAddr → Result (List Block)
node_addr_extract_exts none = err type_error
node_addr_extract_exts (some addr) = ok (infos_exts addr.ip4s ++ infos_exts addr.ip6s)

-- The external addresses of each route.
abbrev pub LocalExts : Type 0
LocalExts = Family → List (List IpRange)

-- `ipr in ext_ipr`, for one of a route.
abbrev pub in_route : IpRange → List IpRange → Bool
in_route ipr [] = false
in_route ipr (ext_ipr ∷ ext_iprs) = range_intersects ext_ipr.r ipr.r || in_route ipr ext_iprs

abbrev pub in_routes : IpRange → List (List IpRange) → Bool
in_routes ipr [] = false
in_routes ipr (route ∷ routes) = in_route ipr route || in_routes ipr routes

-- An index past the interfaces is passed over.
abbrev pub in_interface : Family → IpRange → Option LocalExts → Bool
in_interface af ipr none = false
in_interface af ipr (some exts) = in_routes ipr (exts af)

abbrev pub any_ours : Family → List LocalExts → Infos → Bool
any_ours af if_list [] = false
any_ours af if_list ((index, info) ∷ infos) =
    in_interface af info.ext.range (get_elem? if_list info.if_index) || any_ours af if_list infos

abbrev pub is_us : Option NodeAddr → List LocalExts → Result Bool
is_us none if_list = err type_error
is_us (some addr) if_list = ok (any_ours ip4 if_list addr.ip4s || any_ours ip6 if_list addr.ip6s)

module _ (read_ip : Bytes → Option (ℕ × ℕ)) where
  unfoldable pub is_node_addr_us : Bytes → List LocalExts → Result Bool
  is_node_addr_us addr_bytes if_list = is_us (parse_node_addr read_ip addr_bytes) if_list

-- Some interface that the address names by its index has a route with the external address.
abbrev pub Named : Family → List LocalExts → Infos → Type 0
Named af if_list infos =
    (front : Infos) × (index : ℕ) × (info : Info) × (back : Infos) × (exts : LocalExts) × (infos
      ≡ front ++ ((index, info) ∷ back))
    × (get_elem? if_list info.if_index ≡ some exts)
    × (in_routes info.ext.range (exts af) ≡ true)

Named-here :
    (af : Family) (if_list : List LocalExts) (index : ℕ) (info : Info) (infos : Infos)
    → in_interface af info.ext.range (get_elem? if_list info.if_index) ≡ true
    → Named af if_list ((index, info) ∷ infos)
Named-here af if_list index info infos h = elim (Option-cases (get_elem? if_list info.if_index)) [
  | inl out_of_range ↦
      absurd (ground (arith, sym (ap (in_interface af info.ext.range) out_of_range) ∙ h))
  | inr (exts, e) ↦
      ([], index, info, infos, exts, refl, e, sym (ap (in_interface af info.ext.range) e) ∙ h)
]

Named-later :
    (af : Family) (if_list : List LocalExts) (entry : ℕ × Info) (infos : Infos)
    → Named af if_list infos
    → Named af if_list (entry ∷ infos)
Named-later af if_list entry infos (front, index, info, back, exts, e, at_index, found) =
    (entry ∷ front, index, info, back, exts, ap (λ t. entry ∷ t) e, at_index, found)

any_ours-Named :
    (af : Family) (if_list : List LocalExts) (infos : Infos)
    → any_ours af if_list infos ≡ true
    → Named af if_list infos
any_ours-Named af if_list [] h = absurd (ground arith)
any_ours-Named af if_list ((index, info) ∷ infos) h =
    elim (Bool-cases (in_interface af info.ext.range (get_elem? if_list info.if_index))) [
      | inl ours ↦ Named-here af if_list index info infos ours
      | inr other ↦
          Named-later af if_list (index, info) infos
            (any_ours-Named af if_list infos (ground arith))
    ]

any_ours-append :
    (af : Family) (if_list : List LocalExts) (front : Infos) (index : ℕ) (info : Info)
    (back : Infos)
    → in_interface af info.ext.range (get_elem? if_list info.if_index) ≡ true
    → any_ours af if_list (front ++ ((index, info) ∷ back)) ≡ true
any_ours-append af if_list [] index info back h = rw h refl
any_ours-append af if_list ((i, other) ∷ front) index info back h =
    ground (arith, any_ours-append af if_list front index info back h)

Named-any_ours :
    (af : Family) (if_list : List LocalExts) (infos : Infos)
    → Named af if_list infos
    → any_ours af if_list infos ≡ true
Named-any_ours af if_list infos (front, index, info, back, exts, e, at_index, found) =
    ap (any_ours af if_list) e
    ∙ any_ours-append af if_list front index info back
        (ap (in_interface af info.ext.range) at_index ∙ found)

either-Named :
    (addr : NodeAddr) (if_list : List LocalExts)
    → (any_ours ip4 if_list addr.ip4s || any_ours ip6 if_list addr.ip6s) ≡ true
    → Named ip4 if_list addr.ip4s ⊎ Named ip6 if_list addr.ip6s
either-Named addr if_list h = elim (Bool-cases (any_ours ip4 if_list addr.ip4s)) [
  | inl ours ↦ inl (any_ours-Named ip4 if_list addr.ip4s ours)
  | inr other ↦ inr (any_ours-Named ip6 if_list addr.ip6s (ground arith))
]

Named-either :
    (addr : NodeAddr) (if_list : List LocalExts)
    → Named ip4 if_list addr.ip4s ⊎ Named ip6 if_list addr.ip6s
    → (any_ours ip4 if_list addr.ip4s || any_ours ip6 if_list addr.ip6s) ≡ true
Named-either addr if_list (inl h) = rw (Named-any_ours ip4 if_list addr.ip4s h) refl
Named-either addr if_list (inr h) = ground (arith, Named-any_ours ip6 if_list addr.ip6s h)

module _ (read_ip : Bytes → Option (ℕ × ℕ)) where
  -- For an address that parses the answer is that it is ours just if some interface of it, in one of
  -- the families, has an external address that is in one of a route of the local interface with the
  -- same index.
  pub is_node_addr_us-Named :
      (text : Bytes) (if_list : List LocalExts) (addr : NodeAddr)
      → parse_node_addr read_ip text ≡ some addr
      → (is_node_addr_us read_ip text if_list ≡ ok true)
        ↔ (Named ip4 if_list addr.ip4s ⊎ Named ip6 if_list addr.ip6s)
  unfolding is_node_addr_us
  is_node_addr_us-Named text if_list addr e = (
    λ h. either-Named addr if_list (ground (arith, sym (ap (λ a. is_us a if_list) e) ∙ h)),
    λ h. ap (λ a. is_us a if_list) e ∙ ap ok (Named-either addr if_list h),
  )

  -- Bytes that do not parse make the call raise a `TypeError`.
  pub is_node_addr_us_unparsed :
      (text : Bytes) (if_list : List LocalExts)
      → parse_node_addr read_ip text ≡ none
      → is_node_addr_us read_ip text if_list ≡ err type_error
  unfolding is_node_addr_us
  is_node_addr_us_unparsed text if_list e = ap (λ a. is_us a if_list) e
