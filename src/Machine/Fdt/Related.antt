-- ===== src/Machine/Fdt/Related.antt =====
-- Two searches over the tokens of one blob, of which what they note stays related.
use tab_linux.Base.{
  ℕ, zero, suc, ◌+◌, ◌≤◌, ◌≡◌, refl, sym, subst, inl, inr, Bool, true, false, List, [], ◌∷◌, arith,
  ◌==◌, if◌then◌else◌, select, length,
}
use tab_linux.Machine.Fdt.{
  align4, name_at, token_cases, Next, Notes, Property, Search, property_step, read_property, search,
  token_step,
}
use tab_linux.Machine.Fdt.Ends.{be32_cases}

module _ {A B : Type 0} (notes : Notes A) (notes' : Notes B) (Rel : ℕ → A → B → Type 0) where
  -- Both end in the same way.
  abbrev pub EndsAlike : Search A → Search B → Type 0
  EndsAlike (Search.found a) (Search.found b) = (pos : ℕ) × Rel pos a b
  EndsAlike Search.refused Search.refused = Unit
  EndsAlike Search.panicked Search.panicked = Unit
  EndsAlike Search.unfinished Search.unfinished = Unit
  EndsAlike r r' = ⊥

  abbrev GoesAlike : Next A → Next B → Type 0
  GoesAlike (Next.go_on pos a) (Next.go_on pos' b) = (pos' ≡ pos) × Rel pos a b
  GoesAlike (Next.stop r) (Next.stop r') = EndsAlike r r'
  GoesAlike n n' = ⊥

  -- What is noted at a token that lies in the blob stays related behind it.
  pub record IsKept (size : ℕ) : Type 0 where
    pub begins :
        (pos pos' : ℕ) (name : List ℕ) (a : A) (b : B)
        → pos + 4 ≤ size
        → pos + 4 ≤ pos'
        → Rel pos a b
        → Rel pos' (notes.at_begin name a) (notes'.at_begin name b)
    pub ends :
        (pos pos' : ℕ) (a : A) (b : B)
        → pos + 4 ≤ size
        → pos + 4 ≤ pos'
        → Rel pos a b
        → Rel pos' (notes.at_end a) (notes'.at_end b)
    pub properties :
        (pos pos' : ℕ) (p : Property) (a : A) (b : B)
        → pos + 4 ≤ size
        → pos + 4 ≤ pos'
        → Rel pos a b
        → Rel pos' (notes.at_property p a) (notes'.at_property p b)
    pub passes : (pos pos' : ℕ) (a : A) (b : B) → pos + 4 ≤ pos' → Rel pos a b → Rel pos' a b

  abbrev Alike : List (ℕ × Next A) → List (ℕ × Next B) → Type 0
  Alike [] [] = Unit
  Alike ((k, n) ∷ ns) ((k', n') ∷ ns') = (k' ≡ k) × GoesAlike n n' × Alike ns ns'
  Alike ns ns' = ⊥

  select-GoesAlike :
      (key : ℕ) (table : List (ℕ × Next A)) (table' : List (ℕ × Next B))
      → Alike table table'
      → GoesAlike
          (select key table (Next.stop Search.refused))
          (select key table' (Next.stop Search.refused))
  select-GoesAlike key [] [] alike = tt
  select-GoesAlike key [] (n' ∷ ns') alike = absurd alike
  select-GoesAlike key ((k, n) ∷ ns) [] alike = absurd alike
  select-GoesAlike key ((k, n) ∷ ns) ((k', n') ∷ ns') (equal, alike, rest) =
      rw equal
        (elim (key == k)
          as (λ (b : Bool).
            GoesAlike (if b then n else select key ns (Next.stop Search.refused))
              (if b then n' else select key ns' (Next.stop Search.refused))) [
                | true ↦ alike
                | false ↦ select-GoesAlike key ns ns' rest
              ])

  GoesAlike-same :
      {n : Next A} {n' : Next B} (other : Next A) (other' : Next B)
      → n ≡ other
      → n' ≡ other'
      → GoesAlike other other'
      → GoesAlike n n'
  GoesAlike-same {n' = n'} other other' e e' alike =
      subst (λ (x : Next A). GoesAlike x n') (sym e)
        (subst (λ (y : Next B). GoesAlike other y) (sym e') alike)

  module _ (dtb : List ℕ) (off_strings : ℕ) (kept : IsKept (length dtb)) where
    property_step-GoesAlike :
        (pos : ℕ) (a : A) (b : B)
        → pos + 4 ≤ length dtb
        → Rel pos a b
        → GoesAlike
            (property_step notes dtb off_strings pos a)
            (property_step notes' dtb off_strings pos b)
    unfolding property_step read_property
    property_step-GoesAlike pos a b inside rel = elim (be32_cases dtb (pos + 4)) [
      | inl e ↦
          GoesAlike-same (Next.stop Search.panicked) (Next.stop Search.panicked)
            (rw (e, property_step, read_property) refl) (rw (e, property_step, read_property) refl)
            tt
      | inr (len, e, _) ↦ elim (be32_cases dtb (pos + 8)) [
        | inl f ↦
            GoesAlike-same (Next.stop Search.panicked) (Next.stop Search.panicked)
              (rw (e, f, property_step, read_property) refl)
              (rw (e, f, property_step, read_property) refl) tt
        | inr (nameoff, f, _) ↦
            let p : Property = record {
              len = len;
              name = name_at dtb off_strings nameoff;
              data_at = pos + 12;
            } in
            GoesAlike-same (Next.go_on (align4 (pos + 12 + len)) (notes.at_property p a))
              (Next.go_on (align4 (pos + 12 + len)) (notes'.at_property p b))
              (rw (e, f, property_step, read_property) refl)
              (rw (e, f, property_step, read_property) refl)
              (refl, kept.properties pos _ p a b inside (omega arith) rel)
      ]
    ]

    token_step-GoesAlike :
        (pos : ℕ) (a : A) (b : B)
        → Rel pos a b
        → GoesAlike
            (token_step notes dtb off_strings pos a)
            (token_step notes' dtb off_strings pos b)
    unfolding token_step
    token_step-GoesAlike pos a b rel = elim (be32_cases dtb pos) [
      | inl e ↦
          GoesAlike-same (Next.stop (Search.found a)) (Next.stop (Search.found b))
            (rw (e, token_step) refl) (rw (e, token_step) refl) (pos, rel)
      | inr (token, e, inside) ↦
          GoesAlike-same
            (select token (token_cases notes dtb off_strings pos a) (Next.stop Search.refused))
            (select token (token_cases notes' dtb off_strings pos b) (Next.stop Search.refused))
            (rw (e, token_step) refl) (rw (e, token_step) refl)
            (select-GoesAlike token (token_cases notes dtb off_strings pos a)
              (token_cases notes' dtb off_strings pos b)
              (
                refl,
                (refl, kept.begins pos _ _ a b inside (omega arith) rel),
                (
                  refl,
                  (refl, kept.ends pos _ a b inside (omega arith) rel),
                  (
                    refl,
                    (refl, kept.passes pos _ a b (omega arith) rel),
                    (refl, property_step-GoesAlike pos a b inside rel, (refl, (pos, rel), tt)),
                  ),
                ),
              ))
    ]

    search_next-EndsAlike :
        (fuel : ℕ)
        → ((pos : ℕ) (a : A) (b : B)
            → Rel pos a b
            → EndsAlike
                (search notes fuel dtb off_strings pos a)
                (search notes' fuel dtb off_strings pos b))
        → (n : Next A) (n' : Next B) → GoesAlike n n'
        → EndsAlike
            (elim n [ Next.go_on p x ↦ search notes fuel dtb off_strings p x | Next.stop r ↦ r ])
            (elim n' [ Next.go_on p y ↦ search notes' fuel dtb off_strings p y | Next.stop r ↦ r ])
    search_next-EndsAlike fuel go (Next.go_on p x) (Next.go_on p' y) (e, next_rel) =
        subst
          (λ (q : ℕ).
            EndsAlike (search notes fuel dtb off_strings p x)
              (search notes' fuel dtb off_strings q y))
          (sym e) (go p x y next_rel)
    search_next-EndsAlike fuel go (Next.stop r) (Next.stop r') alike = alike
    search_next-EndsAlike fuel go (Next.go_on p x) (Next.stop r') alike = absurd alike
    search_next-EndsAlike fuel go (Next.stop r) (Next.go_on p' y) alike = absurd alike

    pub search-EndsAlike :
        (fuel pos : ℕ) (a : A) (b : B)
        → Rel pos a b
        → EndsAlike
            (search notes fuel dtb off_strings pos a)
            (search notes' fuel dtb off_strings pos b)
    unfolding search
    search-EndsAlike zero pos a b rel = tt
    search-EndsAlike (suc fuel) pos a b rel =
        search_next-EndsAlike fuel (search-EndsAlike fuel) (token_step notes dtb off_strings pos a)
          (token_step notes' dtb off_strings pos b) (token_step-GoesAlike pos a b rel)
