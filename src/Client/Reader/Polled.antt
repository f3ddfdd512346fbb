-- ===== src/Client/Reader/Polled.antt =====
-- What a tick of the reader hands on.
use uniubi_ros.Prelude.{
  ℕ, zero, suc, ◌-◌, ◌*◌, ◌^◌, ◌≤◌, ◌<◌, ℤ, pos, negsuc, Bool, true, false, ◌++◌, List, [], ◌∷◌,
  length, ◌≡◌, ◌↔◌, refl, ap, ◌∙◌, arith, ◌⊎◌, inl, inr, Bool-cases, if◌then◌else◌,
}
use uniubi_ros.Client.Reader.{
  Observation, sensor_observed, motion_observed, Reader, Taken, nothing, invalid, sample,
  copy_motor, copy_motors, copy_vector, copy_imu, sensor_valid, motion_valid, motors_valid,
  sensor_of, motion_of, motors_counted, poll, call_if, lend, return_loan,
}
use uniubi_ros.Client.Samples.{BrainMotionState, Motor, SensorObserved, MotionObserved}

abbrev first {ℓ} : {A : Type ℓ} → ℕ → List A → List A
first zero xs = []
first (suc n) [] = []
first (suc n) (x ∷ xs) = x ∷ first n xs

abbrev behind {ℓ} : {A : Type ℓ} → ℕ → List A → List A
behind zero xs = xs
behind (suc n) [] = []
behind (suc n) (x ∷ xs) = behind n xs

motors_valid_iff :
    (z : ℤ) (size : ℕ) → (motors_valid z size ≡ true) ↔ ((n : ℕ) × (z ≡ pos n) × (n ≤ size))
unfolding motors_valid
motors_valid_iff (pos k) size = (λ e. (k, refl, ground arith), λ h. ground arith)
motors_valid_iff (negsuc k) size = (λ e. absurd (ground arith), λ h. absurd (ground arith))

module _ {N : Type 0} where
  copy_motors_lem :
      (n : ℕ) (ins outs : List (Motor N))
      → n ≤ length ins
      → length ins ≤ length outs
      → copy_motors n ins outs ≡ first n ins ++ behind n outs
  unfolding copy_motors copy_motor
  copy_motors_lem zero ins outs few fits = refl
  copy_motors_lem (suc n) [] outs few fits = absurd (omega arith)
  copy_motors_lem (suc n) (m ∷ ms) [] few fits = absurd (omega arith)
  copy_motors_lem (suc n) (m ∷ ms) (o ∷ os) few fits =
      ap (λ rest. m ∷ rest) (copy_motors_lem n ms os (omega arith) (omega arith))

  -- The time of the sample in microseconds fits into 64 bits, and the sample and the reader ask for
  -- the call.
  abbrev pub SensorDue : BrainMotionState N → Reader N → Type 0
  SensorDue input r =
      (input.timestamp * 1000 < 2 ^ 64) × (input.has_sensor ≡ true) × (r.sensor_callback ≡ true)

  -- The same for the motors, whose number is in the bounds of the array.
  abbrev pub MotionDue : BrainMotionState N → Reader N → ℕ → Type 0
  MotionDue input r n =
      (input.timestamp * 1000 < 2 ^ 64)
      × (input.has_motion ≡ true)
      × (r.motion_callback ≡ true)
      × (input.motor_num ≡ pos n)
      × (n ≤ length input.motor)

  -- No call where none is due; else one call with the parts of the sample.
  abbrev pub SensorCalls : BrainMotionState N → Reader N → List (Observation N) → Type 0
  SensorCalls input r calls =
      ((calls ≡ []) × ¬ SensorDue input r)
      ⊎ (SensorDue input r
          × ((o : SensorObserved N) × (calls ≡ sensor_observed o ∷ [])
              × (o.timestamp ≡ input.timestamp * 1000)
              × (o.gps ≡ input.gps)
              × (o.uwb ≡ input.uwb)
              × (o.odom ≡ input.odom)))

  -- The array of the message has the counted motors of the sample in front, then what a new message
  -- has there.
  abbrev pub MotionCalls :
      List (Motor N) → BrainMotionState N → Reader N → List (Observation N) → Type 0
  MotionCalls blank input r calls =
      ((calls ≡ []) × ((n : ℕ) → ¬ MotionDue input r n))
      ⊎ ((n : ℕ) × MotionDue input r n
          × ((o : MotionObserved N) × (calls ≡ motion_observed o ∷ [])
              × (o.timestamp ≡ input.timestamp * 1000)
              × (o.motor_num ≡ pos n)
              × (o.imu ≡ input.imu)
              × (o.motor ≡ first n input.motor ++ behind n blank)))

  -- The array of the message is as long as that of the sample.
  abbrev pub HasRoom : List (Motor N) → Taken N → Type 0
  HasRoom blank nothing = Unit {0}
  HasRoom blank invalid = Unit {0}
  HasRoom blank (sample input) = length input.motor ≤ length blank

  -- A tick that takes no sample changes nothing; the callback on the sensors is called first.
  abbrev pub Polled : List (Motor N) → Taken N → Reader N → Reader N → Type 0
  Polled blank nothing r t = t ≡ r
  Polled blank invalid r t = t ≡ r
  Polled blank (sample input) r t =
      (sensors : List (Observation N)) × (motions : List (Observation N)) × SensorCalls input r
        sensors
      × MotionCalls blank input r motions
      × (t ≡ record r { calls = motions ++ sensors ++ r.calls })

  sensor_valid_iff :
      (input : BrainMotionState N) (r : Reader N)
      → (sensor_valid input r ≡ true) ↔ SensorDue input r
  unfolding sensor_valid
  sensor_valid_iff input r = (λ e. ground arith, λ e. ground arith)

  motion_valid_iff :
      (input : BrainMotionState N) (r : Reader N)
      → (motion_valid input r ≡ true) ↔ ((n : ℕ) × MotionDue input r n)
  unfolding motion_valid
  motion_valid_iff input r = (
    λ e.
        let (n, counted, few) =
          (motors_valid_iff input.motor_num (length input.motor)).0 (ground arith) in
        (n, ground arith),
    λ h.
        let (n, due) = h in
        ground (arith, (motors_valid_iff input.motor_num (length input.motor)).1 (n, due.3, due.4)),
  )

  sensor-SensorCalls :
      (input : BrainMotionState N) (r : Reader N)
      → SensorCalls input r
          (if sensor_valid input r then sensor_observed (sensor_of input) ∷ [] else [])
  unfolding sensor_of
  sensor-SensorCalls input r = elim (Bool-cases (sensor_valid input r)) [
    | inl e ↦ rw (e) (
        inr (
          (sensor_valid_iff input r).0 e,
          (_, refl, omega (arith, ((sensor_valid_iff input r).0 e).0), refl, refl, refl),
        ))
    | inr e ↦
        rw (e) (inl (refl, λ due. absurd (grind (arith, e, (sensor_valid_iff input r).1 due))))
  ]

  motion-MotionCalls :
      (blank : List (Motor N)) (input : BrainMotionState N) (r : Reader N)
      → length input.motor ≤ length blank
      → MotionCalls blank input r
          (if motion_valid input r then motion_observed (motion_of blank input) ∷ [] else [])
  unfolding motion_of copy_imu copy_vector
  motion-MotionCalls blank input r fits = elim (Bool-cases (motion_valid input r)) [
    | inl e ↦
        let (n, due) = (motion_valid_iff input r).0 e in
        rw (e) (
          inr (
            n,
            due,
            (
              _,
              refl,
              omega (arith, due.0),
              due.3,
              refl,
              ap (λ z. copy_motors (motors_counted z) input.motor blank) due.3
                  ∙ copy_motors_lem n input.motor blank due.4 fits,
            ),
          ))
    | inr e ↦
        rw (e)
          (inl (refl, λ n due. absurd (grind (arith, e, (motion_valid_iff input r).1 (n, due)))))
  ]

  return_loan-lend : (r : Reader N) → return_loan (lend r) ≡ r
  return_loan-lend r i = record r { loans = loan i }
    where
      loan : suc r.loans - 1 ≡ r.loans
      loan = omega arith

  calls_lem :
      (b c : Bool) (m o : Observation N) (r : Reader N)
      → call_if b m (call_if c o (return_loan (lend r)))
        ≡ record r { calls = (if b then m ∷ [] else []) ++ (if c then o ∷ [] else []) ++ r.calls }
  calls_lem true true m o r i = record (return_loan-lend r i) { calls = m ∷ o ∷ r.calls }
  calls_lem true false m o r i = record (return_loan-lend r i) { calls = m ∷ r.calls }
  calls_lem false true m o r i = record (return_loan-lend r i) { calls = o ∷ r.calls }
  calls_lem false false m o r i = return_loan-lend r i

  -- Where the array of motors of a message is as long as that of a sample, a tick of the reader's timer
  -- leaves no sample on loan, and calls the callback on the sensors, then that on the motion, just where
  -- the reader has the callback, the sample has that part, and its time in microseconds fits into 64
  -- bits; for the motion the number of motors must also be within the array. The timestamp handed on is
  -- then 1000 times that of the sample, without overflow, and the message has the counted motors of the
  -- sample in front of what a new message has there.
  pub poll-Polled :
      (blank : List (Motor N)) (taken : Taken N) (r : Reader N)
      → HasRoom blank taken
      → Polled blank taken r (poll blank taken r)
  unfolding poll
  poll-Polled blank nothing r fits = refl
  poll-Polled blank invalid r fits = return_loan-lend r
  poll-Polled blank (sample input) r fits = (
    _,
    _,
    sensor-SensorCalls input r,
    motion-MotionCalls blank input r fits,
    calls_lem (motion_valid input r) (sensor_valid input r) _ _ r,
  )
