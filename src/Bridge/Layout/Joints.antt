-- ===== src/Bridge/Layout/Joints.antt =====
-- The joint states that are published, against the layout and the motors.
use uniubi_ros.Prelude.{
  ℤ, Bool, true, false, none, some, List, [], ◌∷◌, ◌≡◌, refl, subst, inl, inr, ◌⊎◌, arith, is_nil,
  All, Option-cases,
}
use uniubi_ros.Bridge.Layout.{
  MotorKey, MotorLayoutEntry, MotorObserved, JointSample, same_key, first_motors, motor_count,
  observed, sample, joint_samples, publish_joint_states,
}

module _ {N : Type 0} where
  -- A motor that is the last one with the key.
  abbrev pub IsLast : MotorKey → MotorObserved N → List (MotorObserved N) → Type 0
  IsLast key x [] = Prim.⊥
  IsLast key x (m ∷ ms) =
      ((m ≡ x) × (same_key x.header key ≡ true) × All (λ y. same_key y.header key ≡ false) ms)
      ⊎ IsLast key x ms

  observed-none :
      (key : MotorKey) (ms : List (MotorObserved N))
      → observed key ms ≡ none
      → All (λ y. same_key y.header key ≡ false) ms
  unfolding observed
  observed-none key [] h = tt
  observed-none key (m ∷ ms) h = elim (Option-cases (observed key ms)) [
    | inl e ↦ (ground arith, observed-none key ms e)
    | inr (x, e) ↦ absurd (ground arith)
  ]

  observed-IsLast :
      (key : MotorKey) (ms : List (MotorObserved N)) (x : MotorObserved N)
      → observed key ms ≡ some x
      → IsLast key x ms
  unfolding observed
  observed-IsLast key [] x h = absurd cc
  observed-IsLast key (m ∷ ms) x h = elim (Option-cases (observed key ms)) [
    | inl e ↦ inl (ground arith, ground arith, observed-none key ms e)
    | inr (y, e) ↦ inr (observed-IsLast key ms x (ground arith))
  ]

  -- The samples follow the entries: an entry has none if no motor has its key, and otherwise
  -- the values of the last motor with the key, under the name of the entry.
  abbrev pub Follows :
      List (JointSample N) → List MotorLayoutEntry → List (MotorObserved N) → Type 0
  Follows samples [] ms = samples ≡ []
  Follows samples (e ∷ es) ms =
      (All (λ m. same_key m.header e.key ≡ false) ms × Follows samples es ms)
      ⊎ ((x : MotorObserved N) × (rest : List (JointSample N)) × (samples ≡ sample e.name x ∷ rest)
          × IsLast e.key x ms
          × Follows rest es ms)

  joint_samples-Follows :
      (es : List MotorLayoutEntry) (ms : List (MotorObserved N))
      → Follows (joint_samples es ms) es ms
  unfolding joint_samples
  joint_samples-Follows [] ms = refl
  joint_samples-Follows (e ∷ es) ms = elim (Option-cases (observed e.key ms)) [
    | inl n ↦ rw (n, joint_samples) (inl (observed-none e.key ms n, joint_samples-Follows es ms))
    | inr (x, n) ↦
        rw (n, joint_samples)
          (inr (
            x,
            joint_samples es ms,
            refl,
            observed-IsLast e.key ms x n,
            joint_samples-Follows es ms,
          ))
  ]

  -- A message of joint states is published only where they are enabled, is never empty, and follows
  -- the layout entry by entry: an entry of which no motor has the key is left out, and any other has
  -- the position, velocity and effort of the last motor with its key among the first `motor_num`.
  pub publish_joint_states-Follows :
      (enabled : Bool) (layout : List MotorLayoutEntry) (motor_num : ℤ)
      (motors : List (MotorObserved N)) (samples : List (JointSample N))
      → publish_joint_states enabled layout motor_num motors ≡ some samples
      → (enabled ≡ true)
        × (is_nil samples ≡ false)
        × Follows samples layout (first_motors (motor_count motor_num motors) motors)
  unfolding publish_joint_states
  publish_joint_states-Follows enabled layout motor_num motors samples h =
      let ms = first_motors (motor_count motor_num motors) motors in
      let same : joint_samples layout ms ≡ samples = ground arith in
      (
        ground arith,
        ground arith,
        subst (λ l. Follows l layout ms) same (joint_samples-Follows layout ms),
      )
