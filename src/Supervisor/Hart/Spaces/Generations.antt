-- ===== src/Supervisor/Hart/Spaces/Generations.antt =====
-- The generations that a switch of the address space takes.
use tab_linux.Base.{
  ℕ, ◌+◌, ◌^◌, ◌≤◌, ◌<◌, ◌≡◌, refl, subst, ◌≢◌, ◌⊎◌, inl, inr, Bool, true, false, arith, ◌==◌,
  if◌then◌else◌, Bool-cases, u32,
}
use tab_linux.Supervisor.Hart.Spaces.{
  asid_index, fresh_gens, select_space, stash, switch_address_space,
}
use tab_linux.Supervisor.Hart.{AsidSlot, Hart}

-- No generation in use is above the last that was given out.
abbrev pub IsBounded : Hart → Type 0
IsBounded h =
    (h.trans_gen ≤ h.asid_gen_next)
    × (h.data_trans_gen ≤ h.asid_gen_next)
    × ((i : ℕ) → (h.asid_tbl i).trans_gen ≤ h.asid_gen_next)
    × ((i : ℕ) → (h.asid_tbl i).data_trans_gen ≤ h.asid_gen_next)

stash-IsBounded : (old : ℕ) (h : Hart) → IsBounded h → IsBounded (stash old h)
unfolding stash
stash-IsBounded old h (t, d, ts, ds) = (t, d, (λ i. at_trans i), (λ i. at_data i))
  where
    at_trans : (i : ℕ) → ((stash old h).asid_tbl i).trans_gen ≤ h.asid_gen_next
    at_trans i = let below = ts i in ground arith

    at_data : (i : ℕ) → ((stash old h).asid_tbl i).data_trans_gen ≤ h.asid_gen_next
    at_data i = let below = ds i in ground arith

fresh_gens-IsBounded :
    (h : Hart) → h.asid_gen_next + 1 < 2 ^ 32 → IsBounded h → IsBounded (fresh_gens h)
unfolding fresh_gens
fresh_gens-IsBounded h room (t, d, ts, ds) = (
  omega arith,
  omega arith,
  (λ i. let below = ts i in omega arith),
  (λ i. let below = ds i in omega arith),
)

stash-room :
    (old : ℕ) (h : Hart) → h.asid_gen_next + 1 < 2 ^ 32 → (stash old h).asid_gen_next + 1 < 2 ^ 32
unfolding stash
stash-room old h room = room

either-IsBounded :
    (b : Bool) (x y : Hart) → IsBounded x → IsBounded y → IsBounded (if b then x else y)
either-IsBounded true x y p q = p
either-IsBounded false x y p q = q

-- A switch of the address space keeps every generation at most the last that was given out, as long as
-- the 32-bit counter has room for one more.
switch_address_space-IsBounded :
    (old new : ℕ) (h : Hart)
    → h.asid_gen_next + 1 < 2 ^ 32
    → IsBounded h
    → IsBounded (switch_address_space old new h)
unfolding switch_address_space select_space
switch_address_space-IsBounded old new h room bounded =
    let left : Hart = stash old h in
    let (t, d, ts, ds) = stash-IsBounded old h bounded in
    let slot : AsidSlot = left.asid_tbl (asid_index new) in
    either-IsBounded (slot.satp == new)
      (record left { trans_gen = slot.trans_gen; data_trans_gen = slot.data_trans_gen })
      (fresh_gens left) (ts (asid_index new), ds (asid_index new), ts, ds)
      (fresh_gens-IsBounded left (stash-room old h room) (t, d, ts, ds))

-- Generations that nothing has: they are above those of every slot and of the space that is left.
abbrev pub IsFresh : (left : Hart) → (gen : ℕ) → Type 0
IsFresh left gen =
    (left.trans_gen < gen)
    × (left.data_trans_gen < gen)
    × ((i : ℕ) → ((left.asid_tbl i).trans_gen < gen) × ((left.asid_tbl i).data_trans_gen < gen))

-- What a switch does with the slot of the space that is entered, once the space that is left is stashed.
abbrev pub Enters : (new : ℕ) → (left entered : Hart) → Type 0
Enters new left entered =
    (((left.asid_tbl (asid_index new)).satp ≡ new)
      × (entered.trans_gen ≡ (left.asid_tbl (asid_index new)).trans_gen)
      × (entered.data_trans_gen ≡ (left.asid_tbl (asid_index new)).data_trans_gen))
    ⊎ (((left.asid_tbl (asid_index new)).satp ≢ new)
        × IsFresh left entered.trans_gen
        × IsFresh left entered.data_trans_gen
        × (entered.asid_gen_next ≡ entered.trans_gen))

select_space-Enters :
    (new : ℕ) (left : Hart)
    → left.asid_gen_next + 1 < 2 ^ 32
    → IsBounded left
    → Enters new left (select_space new left)
unfolding select_space fresh_gens
select_space-Enters new left room (t, d, ts, ds) =
    let slot : AsidSlot = left.asid_tbl (asid_index new) in
    let fresh : IsFresh left (u32 (left.asid_gen_next + 1)) = (
      omega arith,
      omega arith,
      λ i. (let below = ts i in omega arith, let below = ds i in omega arith),
    ) in
    elim (Bool-cases (slot.satp == new)) [
      | inl own ↦
          inl (ground (arith, own), rw (own, select_space) refl, rw (own, select_space) refl)
      | inr foreign ↦ inr (
        ground (arith, foreign),
        subst (IsFresh left) (rw (foreign, select_space, fresh_gens) refl) fresh,
        subst (IsFresh left) (rw (foreign, select_space, fresh_gens) refl) fresh,
        rw (foreign, select_space, fresh_gens) refl,
      )
    ]

-- A switch to a space that its slot remembers takes the generations of the slot; a switch to one that
-- its slot does not remember takes generations above those of every slot and of the space that is left,
-- and the counter moves on to them, as long as the 32-bit counter has room for one more and nothing is
-- above it.
pub switch_address_space-Enters :
    (old new : ℕ) (h : Hart)
    → h.asid_gen_next + 1 < 2 ^ 32
    → IsBounded h
    → Enters new (stash old h) (switch_address_space old new h)
unfolding switch_address_space
switch_address_space-Enters old new h room bounded =
    select_space-Enters new (stash old h) (stash-room old h room) (stash-IsBounded old h bounded)

-- Leaving a space for one of another slot and coming back gives the space its generations again, so
-- that what was compiled for it is valid again.
switch_address_space-back :
    (old new : ℕ) (h : Hart)
    → asid_index old ≢ asid_index new
    → ((switch_address_space new old (switch_address_space old new h)).trans_gen ≡ h.trans_gen)
      × ((switch_address_space new old (switch_address_space old new h)).data_trans_gen
          ≡ h.data_trans_gen)
unfolding switch_address_space select_space stash fresh_gens
switch_address_space-back old new h apart = ground arith
