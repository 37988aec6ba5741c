-- ===== src/Machine/Fdt/Patch/Splice.antt =====
-- A blob with a doubleword put into it, once and twice.
use tab_linux.Base.{
  ℕ, zero, suc, ◌+◌, ◌≤◌, ◌<◌, ◌≡◌, refl, sym, ap, ap₂, ◌∙◌, inl, inr, none, some, some-injective,
  List, [], ◌∷◌, ◌++◌, arith, leb, Bool-cases, length, take, drop, length-append,
}
use tab_linux.Machine.Fdt.{put_u64, to_be_bytes}
use tab_linux.Snapshot.RoundTrip.{append_assoc}

take-append : (k : ℕ) (xs ys : List ℕ) → k ≡ length xs → take k (xs ++ ys) ≡ xs
take-append zero [] ys e = refl
take-append zero (x ∷ xs) ys e = absurd (omega arith)
take-append (suc k) [] ys e = absurd (omega arith)
take-append (suc k) (x ∷ xs) ys e = ap (◌∷◌ x) (take-append k xs ys (omega arith))

drop-append : (k n : ℕ) (xs ys : List ℕ) → k ≡ length xs + n → drop k (xs ++ ys) ≡ drop n ys
drop-append k n [] ys e = let equal : k ≡ n = omega arith in ap (λ (m : ℕ). drop m ys) equal
drop-append zero n (x ∷ xs) ys e = absurd (omega arith)
drop-append (suc k) n (x ∷ xs) ys e = drop-append k n xs ys (omega arith)

drop-drop : (k m n : ℕ) (xs : List ℕ) → k ≡ n + m → drop m (drop n xs) ≡ drop k xs
drop-drop k m zero xs e = let equal : m ≡ k = omega arith in ap (λ (i : ℕ). drop i xs) equal
drop-drop zero m (suc n) xs e = absurd (omega arith)
drop-drop (suc k) zero (suc n) [] e = refl
drop-drop (suc k) (suc m) (suc n) [] e = refl
drop-drop (suc k) m (suc n) (x ∷ xs) e = drop-drop k m n xs (omega arith)

length-take : (n : ℕ) (xs : List ℕ) → n ≤ length xs → length (take n xs) ≡ n
length-take zero xs fits = refl
length-take (suc n) [] fits = absurd (omega arith)
length-take (suc n) (x ∷ xs) fits = ap suc (length-take n xs (omega arith))

length-to_be_bytes : (n v : ℕ) → length (to_be_bytes n v) ≡ n
unfolding to_be_bytes
length-to_be_bytes zero v = refl
length-to_be_bytes (suc n) v = ap suc (length-to_be_bytes n v)

-- The blob with sixteen bytes of it replaced by two doublewords.
abbrev pub splice : List ℕ → (offset base size : ℕ) → List ℕ
splice dtb offset base size =
    take offset dtb ++ (to_be_bytes 8 base ++ (to_be_bytes 8 size ++ drop (offset + 16) dtb))

none-ne-some : (out : List ℕ) → ¬ (none ≡ some out)
none-ne-some out e = cc

pub put_u64-splices :
    (dtb out : List ℕ) (offset v : ℕ)
    → put_u64 dtb offset v ≡ some out
    → (offset + 8 ≤ length dtb)
      × (out ≡ take offset dtb ++ (to_be_bytes 8 v ++ drop (offset + 8) dtb))
unfolding put_u64
put_u64-splices dtb out offset v e = elim (Bool-cases (leb (offset + 8) (length dtb))) [
  | inl fits ↦ (ground (arith, fits), sym (some-injective _ _ (sym (rw (fits, put_u64) refl) ∙ e)))
  | inr beyond ↦ absurd (none-ne-some out (sym (rw (beyond, put_u64) refl) ∙ e))
]

splice_twice :
    (offset : ℕ) (before once twice after : List ℕ)
    → length before ≡ offset
    → length once ≡ 8
    → take (offset + 8) (before ++ (once ++ after))
        ++ (twice ++ drop (offset + 8 + 8) (before ++ (once ++ after)))
      ≡ before ++ (once ++ (twice ++ drop 8 after))
splice_twice offset before once twice after e f =
    let assoc : before ++ (once ++ after) ≡ (before ++ once) ++ after =
      sym (append_assoc before once after) in
    let size : length (before ++ once) ≡ length before + length once = length-append before once in
    ap₂ (λ (t d : List ℕ). t ++ (twice ++ d))
      (ap (take (offset + 8)) assoc
        ∙ take-append (offset + 8) (before ++ once) after (omega (arith, size, e, f)))
      (ap (drop (offset + 8 + 8)) assoc
        ∙ drop-append (offset + 8 + 8) 8 (before ++ once) after (omega (arith, size, e, f)))
    ∙ append_assoc before once (twice ++ drop 8 after)

pub put_twice :
    (dtb once twice : List ℕ) (offset base size : ℕ)
    → put_u64 dtb offset base ≡ some once
    → put_u64 once (offset + 8) size ≡ some twice
    → twice ≡ splice dtb offset base size
put_twice dtb once twice offset base size e f =
    let first : (offset + 8 ≤ length dtb)
        × (once ≡ take offset dtb ++ (to_be_bytes 8 base ++ drop (offset + 8) dtb)) =
      put_u64-splices dtb once offset base e in
    (put_u64-splices once twice (offset + 8) size f).1
    ∙ ap (λ (b : List ℕ). take (offset + 8) b ++ (to_be_bytes 8 size ++ drop (offset + 8 + 8) b))
        (first.1)
    ∙ splice_twice offset (take offset dtb) (to_be_bytes 8 base) (to_be_bytes 8 size)
        (drop (offset + 8) dtb) (length-take offset dtb (omega (arith, first.0)))
        (length-to_be_bytes 8 base)
    ∙ ap
        (λ (rest : List ℕ). take offset dtb ++ (to_be_bytes 8 base ++ (to_be_bytes 8 size ++ rest)))
        (drop-drop (offset + 16) 8 (offset + 8) dtb (omega arith))

pub put_u64-none :
    (dtb : List ℕ) (offset v : ℕ) → put_u64 dtb offset v ≡ none → length dtb < offset + 8
unfolding put_u64
put_u64-none dtb offset v e = elim (Bool-cases (leb (offset + 8) (length dtb))) [
  | inl fits ↦ absurd (
      none-ne-some (take offset dtb ++ (to_be_bytes 8 v ++ drop (offset + 8) dtb))
        (sym e ∙ rw (fits, put_u64) refl))
  | inr beyond ↦ ground (arith, beyond)
]

length-drop : (n : ℕ) (xs : List ℕ) → n ≤ length xs → length (drop n xs) + n ≡ length xs
length-drop zero xs fits = omega arith
length-drop (suc n) [] fits = absurd (omega arith)
length-drop (suc n) (x ∷ xs) fits = omega (arith, length-drop n xs (omega arith))

pub length-put_u64 :
    (dtb out : List ℕ) (offset v : ℕ) → put_u64 dtb offset v ≡ some out → length out ≡ length dtb
length-put_u64 dtb out offset v e =
    let spliced : (offset + 8 ≤ length dtb)
        × (out ≡ take offset dtb ++ (to_be_bytes 8 v ++ drop (offset + 8) dtb)) =
      put_u64-splices dtb out offset v e in
    ap length (spliced.1)
    ∙ omega (
      arith,
      spliced.0,
      length-append (take offset dtb) (to_be_bytes 8 v ++ drop (offset + 8) dtb),
      length-append (to_be_bytes 8 v) (drop (offset + 8) dtb),
      length-take offset dtb (omega (arith, spliced.0)),
      length-to_be_bytes 8 v,
      length-drop (offset + 8) dtb (spliced.0),
    )
