-- ===== src/Bridge/Layout/Fallback.antt =====
-- The layout that the parameters of the node describe.
use uniubi_ros.Prelude.{
  ℕ, zero, suc, ◌+◌, ◌≤◌, ◌<◌, ◌⊎◌, ◌^◌, ◌%◌, ℤ, pos, negsuc, String, ◌++◌, some, List, [], ◌∷◌,
  ◌≡◌, refl, sym, ap, ◌∙◌, inl, inr, arith, length, length-append, Option-cases, map,
}
use mathlib.Core.List.{append_assoc, append-nil}
use uniubi_ros.Bridge.Layout.{
  MotorLayoutEntry, Filling, filled, refused, past_end, expected_names, fill_limb, size_of,
  fill_limbs, fill_expected, configure_fallback_motor_layout,
}

abbrev pub name_of : MotorLayoutEntry → String
name_of e = e.name

abbrev pub total : List ℤ → ℕ
total [] = 0
total (n ∷ ns) = size_of n + total ns

names-snoc :
    (es : List MotorLayoutEntry) (e : MotorLayoutEntry)
    → map name_of (es ++ (e ∷ [])) ≡ map name_of es ++ (e.name ∷ [])
names-snoc [] e = refl
names-snoc (x ∷ xs) e = ap (λ l. x.name ∷ l) (names-snoc xs e)

-- The names are used in their order.
abbrev Uses : List MotorLayoutEntry → List String → ℕ → List MotorLayoutEntry → List String → Type 0
Uses parsed names count entries left =
    (map name_of entries ++ left ≡ map name_of parsed ++ names)
    × (length entries ≡ length parsed + count)

length-names : (es : List MotorLayoutEntry) → length (map name_of es) ≡ length es
length-names [] = refl
length-names (e ∷ es) = ap suc (length-names es)

Filling-cases :
    {A : Type 0} (r : Filling A) → ((x : A) × (r ≡ filled x)) ⊎ ((r ≡ refused) ⊎ (r ≡ past_end))
Filling-cases (filled x) = inl (x, refl)
Filling-cases refused = inr (inl refl)
Filling-cases past_end = inr (inr refl)

fill_limb-Uses :
    (limb joint count : ℕ) (names : List String) (parsed entries : List MotorLayoutEntry)
    (left : List String)
    → fill_limb limb joint count names parsed ≡ filled (entries, left)
    → Uses parsed names count entries left
unfolding fill_limb
fill_limb-Uses limb joint zero names parsed entries left h = ground arith
fill_limb-Uses limb joint (suc n) [] parsed entries left h = absurd (ground arith)
fill_limb-Uses limb joint (suc n) (name ∷ names) parsed entries left h =
    let entry : MotorLayoutEntry = record {
      key = record { limb_no = limb % 2 ^ 32; joint_no = joint % 2 ^ 32 };
      name = name;
    } in
    let (used, count) =
      fill_limb-Uses limb (suc joint) n names (parsed ++ (entry ∷ [])) entries left
        (ground arith) in
    (
      used
          ∙ ap (λ l. l ++ names) (names-snoc parsed entry)
          ∙ append_assoc (map name_of parsed) (name ∷ []) names,
      omega (arith, length-append parsed (entry ∷ [])),
    )

-- The loop of a limb reads past the end only where the limb has more joints than names are left.
fill_limb-past_end :
    (limb joint count : ℕ) (names : List String) (parsed : List MotorLayoutEntry)
    → fill_limb limb joint count names parsed ≡ past_end
    → length names < count
unfolding fill_limb
fill_limb-past_end limb joint zero names parsed h = absurd (ground arith)
fill_limb-past_end limb joint (suc n) [] parsed h = omega arith
fill_limb-past_end limb joint (suc n) (name ∷ names) parsed h =
    let entry : MotorLayoutEntry = record {
      key = record { limb_no = limb % 2 ^ 32; joint_no = joint % 2 ^ 32 };
      name = name;
    } in
    let more =
      fill_limb-past_end limb (suc joint) n names (parsed ++ (entry ∷ [])) (ground arith) in
    omega arith

fill_limbs-Uses :
    (limb : ℕ) (sizes : List ℤ) (names : List String) (parsed layout : List MotorLayoutEntry)
    → fill_limbs limb sizes names parsed ≡ filled layout
    → (left : List String) × Uses parsed names (total sizes) layout left
unfolding fill_limbs
fill_limbs-Uses limb [] names parsed layout h = (names, ground arith)
fill_limbs-Uses limb (size ∷ sizes) names parsed layout h =
    elim (Filling-cases (fill_limb limb 0 (size_of size) names parsed)) [
      | inl ((entries, next), e) ↦
          let (used, count) = fill_limb-Uses limb 0 (size_of size) names parsed entries next e in
          let (left, (used', count')) =
            fill_limbs-Uses (suc limb) sizes next entries layout (rw (e, fill_limbs) at h) in
          (left, (used' ∙ used, omega arith))
      | inr (inl e) ↦ absurd (ground arith)
      | inr (inr e) ↦ absurd (ground arith)
    ]

fill_limbs-past_end :
    (limb : ℕ) (sizes : List ℤ) (names : List String) (parsed : List MotorLayoutEntry)
    → fill_limbs limb sizes names parsed ≡ past_end
    → length names < total sizes
unfolding fill_limbs
fill_limbs-past_end limb [] names parsed h = absurd (ground arith)
fill_limbs-past_end limb (size ∷ sizes) names parsed h =
    elim (Filling-cases (fill_limb limb 0 (size_of size) names parsed)) [
      | inl ((entries, next), e) ↦
          let (used, count) = fill_limb-Uses limb 0 (size_of size) names parsed entries next e in
          let more = fill_limbs-past_end (suc limb) sizes next entries (rw (e, fill_limbs) at h) in
          omega (
            arith,
            more,
            count,
            ap length used,
            length-names entries,
            length-names parsed,
            length-append (map name_of entries) next,
            length-append (map name_of parsed) names,
          )
      | inr (inl e) ↦ absurd (ground arith)
      | inr (inr e) ↦ omega (arith, fill_limb-past_end limb 0 (size_of size) names parsed e)
    ]

expected_names_bound :
    (sizes : List ℤ) (sum expected : ℕ)
    → expected_names sizes sum ≡ some expected
    → (expected ≤ sum + total sizes) × (sum + total sizes < 2 ^ 64 → expected ≡ sum + total sizes)
unfolding expected_names
expected_names_bound [] sum expected h = ground arith
expected_names_bound (pos zero ∷ sizes) sum expected h = absurd cc
expected_names_bound (pos (suc n) ∷ sizes) sum expected h =
    let (most, exact) = expected_names_bound sizes ((sum + suc n) % 2 ^ 64) expected h in
    (omega arith, λ k. exact (omega arith) ∙ omega arith)
expected_names_bound (negsuc n ∷ sizes) sum expected h = absurd cc

no_more : (xs ys zs : List String) → xs ++ ys ≡ zs → length zs ≤ length xs → xs ≡ zs
no_more xs [] zs e h = sym (append-nil xs) ∙ e
no_more xs (y ∷ ys) zs e h = absurd (omega (arith, ap length e, length-append xs (y ∷ ys)))

-- A fallback layout gives every one of the configured joint names to one motor, in their order, and
-- the sizes of the limbs add up to the number of the names. The names are read past their end only
-- where the sizes add up to 2^64 or more.
pub configure_fallback_motor_layout-names :
    (sizes : List ℤ) (names : List String)
    → ((layout : List MotorLayoutEntry)
        → configure_fallback_motor_layout sizes names ≡ filled layout
        → (map name_of layout ≡ names) × (total sizes ≡ length names))
      × (configure_fallback_motor_layout sizes names ≡ past_end → 2 ^ 64 ≤ total sizes)
unfolding configure_fallback_motor_layout fill_expected
configure_fallback_motor_layout-names sizes names = elim (Option-cases (expected_names sizes 0)) [
  | inl e ↦ (λ layout h. absurd (ground arith), λ h. absurd (ground arith))
  | inr (expected, e) ↦
      let (bound, exact) = expected_names_bound sizes 0 expected e in
      (
        λ layout h.
            let (left, (used, count)) = fill_limbs-Uses 0 sizes names [] layout (ground arith) in
            let same : expected ≡ length names = ground arith in
            (
              no_more (map name_of layout) left names used (omega (arith, length-names layout)),
              omega (
                arith,
                length-names layout,
                ap length used,
                length-append (map name_of layout) left,
              ),
            ),
        λ h.
            let same : expected ≡ length names = ground arith in
            let more = fill_limbs-past_end 0 sizes names [] (ground arith) in ground (arith, exact),
      )
]
