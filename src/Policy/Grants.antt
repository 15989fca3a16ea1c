-- ===== src/Policy/Grants.antt =====
-- digital/authorization.py: the grants of a run of digital capabilities. Of a digital capability only
-- its `spec` is read here.
use autonomous_ai_scout.Base.{
  String, ◌≡◌, Bool, true, not, ◌&&◌, Option, none, some, Result, ok, err, ◌>>=◌, >>=-eq-ok,
  ok-injective, value_error, err-ne-ok, ◌||◌, refl, text_eq_iff, List, [], ◌∷◌, ◌++◌, any, All,
  All-append, text_eq, text_le, if◌then◌else◌, strip, arith, Bool-cases, inl, inr, subst,
}
use autonomous_ai_scout.Policy.Capability.{
  Capability, value, is_safe, all_capabilities, Request, member, named, other,
}
use autonomous_ai_scout.Policy.Tool.{ToolSpec, find_capability}

abbrev pub known : Option Capability → Result Capability
known none = err (value_error "unknown capability")
known (some c) = ok c

abbrev pub holds_capability : Capability → List Capability → Bool
holds_capability c cs = any (λ d. text_eq (value d) (value c)) cs

-- `sorted(..., key=lambda item: item.value)`
unfoldable pub insert_capability : Capability → List Capability → List Capability
unfolding value
insert_capability c [] = c ∷ []
insert_capability c (d ∷ ds) =
    let rest = insert_capability c ds in
    if text_le (value c) (value d) then c ∷ d ∷ ds else d ∷ rest

unfoldable pub sort_capabilities : List Capability → List Capability
unfolding insert_capability
sort_capabilities [] = []
sort_capabilities (c ∷ cs) = insert_capability c (sort_capabilities cs)

-- `lower` is `str.lower`.
module _ (lower : String → String) where
  -- `_coerce`
  unfoldable pub coerce : Request → Result Capability
  unfolding find_capability
  coerce (member c) = ok c
  coerce (named s) = known (find_capability (lower (strip s)) all_capabilities)
  coerce (other s) = known (find_capability (lower (strip s)) all_capabilities)

  -- The loop of `required_capabilities` behind the capabilities that it has seen.
  unfoldable pub collect_required : List Capability → List ToolSpec → Result (List Capability)
  unfolding coerce value
  collect_required seen [] = ok seen
  collect_required seen (spec ∷ specs) = do
    c ← coerce (named spec.capability)
    collect_required (if holds_capability c seen then seen else seen ++ c ∷ []) specs

  unfoldable pub required_capabilities : List ToolSpec → Result (List Capability)
  unfolding collect_required sort_capabilities
  required_capabilities specs = collect_required [] specs >>= λ seen. ok (sort_capabilities seen)

  -- The test of `narrow_grants` on one requested capability.
  abbrev pub is_granted : List Capability → List Capability → Capability → Bool
  is_granted needed granted c =
      is_safe c && (holds_capability c needed && not (holds_capability c granted))

  unfoldable pub collect_grants :
      List Capability → List Capability → List Request → Result (List Capability)
  unfolding coerce value is_safe
  collect_grants needed granted [] = ok granted
  collect_grants needed granted (item ∷ items) = do
    c ← coerce item
    collect_grants needed (if is_granted needed granted c then granted ++ c ∷ [] else granted) items

  unfoldable pub narrow_grants : List ToolSpec → List Request → Result (List Capability)
  unfolding required_capabilities collect_grants sort_capabilities
  narrow_grants specs requested = do
    needed ← required_capabilities specs
    granted ← collect_grants needed [] requested
    ok (sort_capabilities granted)

  -- A selected capability requires a capability: the text that its spec names, without space around
  -- it and in lower case, is the value of the capability.
  abbrev pub requires : Capability → ToolSpec → Bool
  requires c spec = text_eq (lower (strip spec.capability)) (value c)

  -- A capability was requested, as a member or by its text.
  abbrev pub asks_for : Capability → Request → Bool
  asks_for c (member d) = text_eq (value d) (value c)
  asks_for c (named s) = text_eq (lower (strip s)) (value c)
  asks_for c (other s) = text_eq (lower (strip s)) (value c)

  -- A capability that a run may use: safe, required by a selected capability, and requested.
  pub record IsJustified (specs : List ToolSpec) (requested : List Request) (c : Capability)
      : Type 0 where
    pub safe : is_safe c ≡ true
    pub required : any (requires c) specs ≡ true
    pub requested_too : any (asks_for c) requested ≡ true

  holds-append :
      (c : Capability) (cs ds : List Capability)
      → holds_capability c (cs ++ ds) ≡ (holds_capability c cs || holds_capability c ds)
  holds-append c [] ds = refl
  holds-append c (d ∷ cs) ds = ground (arith, holds-append c cs ds)

  holds-insert :
      (c d : Capability) (cs : List Capability)
      → holds_capability c (insert_capability d cs)
        ≡ (text_eq (value d) (value c) || holds_capability c cs)
  unfolding insert_capability
  holds-insert c d [] = refl
  holds-insert c d (x ∷ cs) = elim (Bool-cases (text_le (value d) (value x))) [
    | inl e ↦ rw e refl
    | inr e ↦ rw e (ground (arith, holds-insert c d cs))
  ]

  holds-sort :
      (c : Capability) (cs : List Capability)
      → holds_capability c (sort_capabilities cs) ≡ holds_capability c cs
  unfolding sort_capabilities
  holds-sort c [] = refl
  holds-sort c (d ∷ cs) = ground (arith, holds-insert c d (sort_capabilities cs), holds-sort c cs)

  find_capability-value :
      (s : String) (cs : List Capability) (c : Capability)
      → find_capability s cs ≡ some c
      → value c ≡ s
  unfolding find_capability
  find_capability-value s [] c h = cc
  find_capability-value s (d ∷ cs) c h =
      ground (arith, h, text_eq_iff (value d) s, find_capability-value s cs c)

  known-text :
      (s : String) (c : Capability)
      → known (find_capability s all_capabilities) ≡ ok c
      → text_eq s (value c) ≡ true
  known-text s c h = go (find_capability s all_capabilities) refl h
    where
      go :
          (found : Option Capability)
          → find_capability s all_capabilities ≡ found
          → known found ≡ ok c
          → text_eq s (value c) ≡ true
      go none e k = absurd (err-ne-ok k)
      go (some d) e k =
          let same = find_capability-value s all_capabilities d e in
          ground (arith, same, k, text_eq_iff s (value c))

  coerce-asks_for : (item : Request) (c : Capability) → coerce item ≡ ok c → asks_for c item ≡ true
  unfolding coerce
  coerce-asks_for (member d) c h = ground (arith, h, text_eq_iff (value d) (value c))
  coerce-asks_for (named s) c h = known-text (lower (strip s)) c h
  coerce-asks_for (other s) c h = known-text (lower (strip s)) c h

  -- What the loop has seen at the end it had seen before, or a spec requires it.
  collect_required-requires :
      (seen : List Capability) (specs : List ToolSpec) (out : List Capability) (c : Capability)
      → collect_required seen specs ≡ ok out
      → holds_capability c out ≡ true
      → (holds_capability c seen || any (requires c) specs) ≡ true
  unfolding collect_required
  collect_required-requires seen [] out c h inside = ground (arith, h, inside)
  collect_required-requires seen (spec ∷ specs) out c h inside =
      let (d, first, h1) = >>=-eq-ok (coerce (named spec.capability)) _ h in
      let more = if holds_capability d seen then seen else seen ++ d ∷ [] in
      ground (
        arith,
        collect_required-requires more specs out c h1 inside,
        coerce-asks_for (named spec.capability) d first,
        text_eq_iff (value d) (value c),
        text_eq_iff (lower (strip spec.capability)) (value d),
        holds-append c seen (d ∷ []),
      )

  required_capabilities-requires :
      (specs : List ToolSpec) (needed : List Capability) (c : Capability)
      → required_capabilities specs ≡ ok needed
      → holds_capability c needed ≡ true
      → any (requires c) specs ≡ true
  unfolding required_capabilities
  required_capabilities-requires specs needed c h inside =
      let (seen, e, h1) = >>=-eq-ok (collect_required [] specs) _ h in
      collect_required-requires [] specs seen c e (ground (arith, h1, inside, holds-sort c seen))

  insert-All :
      (P : Capability → Type 0) (c : Capability) (cs : List Capability)
      → P c
      → All P cs
      → All P (insert_capability c cs)
  unfolding insert_capability
  insert-All P c [] h hs = (h, tt)
  insert-All P c (d ∷ ds) h hs = elim (Bool-cases (text_le (value c) (value d))) [
    | inl e ↦ rw e (h, hs)
    | inr e ↦ rw e (hs.0, insert-All P c ds h hs.1)
  ]

  sort-All :
      (P : Capability → Type 0) (cs : List Capability) → All P cs → All P (sort_capabilities cs)
  unfolding sort_capabilities
  sort-All P [] hs = hs
  sort-All P (c ∷ cs) hs = insert-All P c (sort_capabilities cs) hs.0 (sort-All P cs hs.1)

  module _ (specs : List ToolSpec) (requested : List Request) (needed : List Capability)
      (found : required_capabilities specs ≡ ok needed) where
    add-IsJustified :
        (granted : List Capability) (c : Capability)
        → any (asks_for c) requested ≡ true
        → All (IsJustified specs requested) granted
        → All
            (IsJustified specs requested)
            (if is_granted needed granted c then granted ++ c ∷ [] else granted)
    add-IsJustified granted c asked hs = elim (Bool-cases (is_granted needed granted c)) [
      | inl e ↦ rw e (
          All-append (IsJustified specs requested) granted (c ∷ []) hs (
            (record {
              safe = ground arith;
              required = required_capabilities-requires specs needed c found (ground arith);
              requested_too = asked;
            }),
            tt,
          ))
      | inr e ↦ rw e hs
    ]

    collect-IsJustified :
        (granted : List Capability) (items : List Request) {out : List Capability}
        → ((c : Capability) → any (asks_for c) items ≡ true → any (asks_for c) requested ≡ true)
        → All (IsJustified specs requested) granted
        → collect_grants needed granted items ≡ ok out
        → All (IsJustified specs requested) out
    unfolding collect_grants
    collect-IsJustified granted [] asked hs h =
        subst (All (IsJustified specs requested)) (ok-injective h) hs
    collect-IsJustified granted (item ∷ items) asked hs h =
        let (c, first, h1) = >>=-eq-ok (coerce item) _ h in
        collect-IsJustified (if is_granted needed granted c then granted ++ c ∷ [] else granted)
          items (λ d later. asked d (ground (arith, later)))
          (add-IsJustified granted c (asked c (ground (arith, coerce-asks_for item c first))) hs) h1

  -- Grants are narrowed: every capability that a run is granted is safe, was requested, and is
  -- required by one of the selected capabilities, whose spec names it.
  pub narrow_grants-IsJustified :
      (specs : List ToolSpec) (requested : List Request) (granted : List Capability)
      → narrow_grants specs requested ≡ ok granted
      → All (IsJustified specs requested) granted
  unfolding narrow_grants
  narrow_grants-IsJustified specs requested granted h =
      let (needed, e, h1) = >>=-eq-ok (required_capabilities specs) _ h in
      let (kept, f, h2) = >>=-eq-ok (collect_grants needed [] requested) _ h1 in
      subst (All (IsJustified specs requested)) (ok-injective h2) (
        sort-All (IsJustified specs requested) kept
          (collect-IsJustified specs requested needed e [] requested (λ c asked. asked) tt f))
