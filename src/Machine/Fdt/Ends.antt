-- ===== src/Machine/Fdt/Ends.antt =====
-- The loop over the tokens of a devicetree, and its end.
use tab_linux.Base.{
  ℕ, zero, suc, ◌+◌, ◌≤◌, ◌≡◌, refl, sym, subst, ◌⊎◌, inl, inr, none, some, List, [], ◌∷◌, arith,
  leb, ◌==◌, select, Bool-cases, length, take, drop, All,
}
use tab_linux.Machine.Fdt.{
  name_at, token_cases, align4, Next, Notes, Search, be32, from_be_bytes, property_step,
  read_property, search, token_step,
}

-- A step that goes on has read a token, and passes it; one that stops says so.
abbrev Passes : {A : Type 0} → (size pos : ℕ) → Next A → Type 0
Passes size pos (Next.go_on pos' a) = (pos + 4 ≤ size) × (pos + 4 ≤ pos')
Passes size pos (Next.stop Search.unfinished) = ⊥
Passes size pos (Next.stop result) = Unit

Passes-step :
    {A : Type 0} (size pos : ℕ) {next_step : Next A} (other : Next A)
    → next_step ≡ other
    → Passes size pos other
    → Passes size pos next_step
Passes-step size pos other e p = subst (Passes size pos) (sym e) p

abbrev IsUnfinished : {A : Type 0} → Search A → Type 0
IsUnfinished Search.unfinished = Unit
IsUnfinished result = ⊥

Passes-stop :
    {A : Type 0} (size pos : ℕ) (result : Search A)
    → Passes size pos (Next.stop result)
    → ¬ (result ≡ Search.unfinished)
Passes-stop size pos (Search.found a) p e = subst IsUnfinished (sym e) tt
Passes-stop size pos Search.refused p e = subst IsUnfinished (sym e) tt
Passes-stop size pos Search.panicked p e = subst IsUnfinished (sym e) tt
Passes-stop size pos Search.unfinished p e = p

-- What holds of every entry holds of the one that is selected.
select_all :
    {A : Type 0} (P : A → Type 0) (key : ℕ) (table : List (ℕ × A)) (default : A)
    → All (λ entry. P (entry.1)) table
    → P default
    → P (select key table default)
select_all P key [] default all p = p
select_all P key ((code, value) ∷ table) default (q, all) p = elim (Bool-cases (key == code)) [
  | inl e ↦ rw e q
  | inr e ↦ rw e (select_all P key table default all p)
]

pub Next-cases :
    {A : Type 0} (n : Next A)
    → ((pos : ℕ) × (a : A) × (n ≡ Next.go_on pos a))
      ⊎ ((result : Search A) × (n ≡ Next.stop result))
Next-cases (Next.go_on pos a) = inl (pos, a, refl)
Next-cases (Next.stop result) = inr (result, refl)

pub be32_cases :
    (dtb : List ℕ) (o : ℕ)
    → (be32 dtb o ≡ none) ⊎ ((token : ℕ) × (be32 dtb o ≡ some token) × (o + 4 ≤ length dtb))
unfolding be32
be32_cases dtb o = elim (Bool-cases (leb (o + 4) (length dtb))) [
  | inl fits ↦ inr (from_be_bytes (take 4 (drop o dtb)), rw fits refl, ground (arith, fits))
  | inr beyond ↦ inl (rw beyond refl)
]

property-Passes :
    {A : Type 0} (notes : Notes A) (dtb : List ℕ) (off_strings pos : ℕ) (a : A)
    → pos + 4 ≤ length dtb
    → Passes (length dtb) pos (property_step notes dtb off_strings pos a)
unfolding property_step read_property
property-Passes notes dtb off_strings pos a inside = elim (be32_cases dtb (pos + 4)) [
  | inl e ↦
      Passes-step (length dtb) pos (Next.stop Search.panicked)
        (rw (e, property_step, read_property) refl) tt
  | inr (len, e, _) ↦ elim (be32_cases dtb (pos + 8)) [
    | inl f ↦
        Passes-step (length dtb) pos (Next.stop Search.panicked)
          (rw (e, f, property_step, read_property) refl) tt
    | inr (nameoff, f, _) ↦
        Passes-step (length dtb) pos
          (Next.go_on (align4 (pos + 12 + len)) (
            notes.at_property
              (record { len = len; name = name_at dtb off_strings nameoff; data_at = pos + 12 }) a))
          (rw (e, f, property_step, read_property) refl) (inside, omega arith)
  ]
]

token_step-Passes :
    {A : Type 0} (notes : Notes A) (dtb : List ℕ) (off_strings pos : ℕ) (a : A)
    → Passes (length dtb) pos (token_step notes dtb off_strings pos a)
unfolding token_step
token_step-Passes notes dtb off_strings pos a = elim (be32_cases dtb pos) [
  | inl e ↦ Passes-step (length dtb) pos (Next.stop (Search.found a)) (rw (e, token_step) refl) tt
  | inr (token, e, inside) ↦
      Passes-step (length dtb) pos
        (select token (token_cases notes dtb off_strings pos a) (Next.stop Search.refused))
        (rw (e, token_step) refl)
        (select_all (Passes (length dtb) pos) token (token_cases notes dtb off_strings pos a)
          (Next.stop Search.refused)
          (
            (inside, omega arith),
            (
              (inside, omega arith),
              (
                (inside, omega arith),
                (property-Passes notes dtb off_strings pos a inside, (tt, tt)),
              ),
            ),
          )
          tt)
]

pub search-ne-unfinished :
    {A : Type 0} (notes : Notes A) (fuel : ℕ) (dtb : List ℕ) (off_strings pos : ℕ) (a : A)
    → 1 ≤ fuel
    → length dtb ≤ pos + fuel
    → ¬ (search notes fuel dtb off_strings pos a ≡ Search.unfinished)
unfolding search
search-ne-unfinished notes zero dtb off_strings pos a some_fuel enough = absurd (omega arith)
search-ne-unfinished notes (suc fuel) dtb off_strings pos a some_fuel enough =
    let passes : Passes (length dtb) pos (token_step notes dtb off_strings pos a) =
      token_step-Passes notes dtb off_strings pos a in
    elim (Next-cases (token_step notes dtb off_strings pos a)) [
      | inl (pos', a', e) ↦
          let passed : (pos + 4 ≤ length dtb) × (pos + 4 ≤ pos') =
            subst (Passes (length dtb) pos) e passes in
          rw (e, search)
            (search-ne-unfinished notes fuel dtb off_strings pos' a' (omega (arith, passed.0))
              (omega (arith, passed.0, passed.1)))
      | inr (result, e) ↦
          rw (e, search)
            (Passes-stop (length dtb) pos result (subst (Passes (length dtb) pos) e passes))
    ]
