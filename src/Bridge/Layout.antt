-- ===== src/Bridge/Layout.antt =====
-- uniubi_motion_bridge_node.cpp: the motor layout and the joint states.
pub mod Keys
pub mod Fallback
pub mod Joints
use uniubi_ros.Prelude.{
  ℕ, zero, suc, ◌+◌, ◌%◌, ◌^◌, ℤ, pos, negsuc, String, Bool, true, false, not, ◌&&◌, ◌||◌, ◌++◌,
  Option, none, some, List, [], ◌∷◌, ◌==◌, str_eq, length, is_nil, is_positive, if◌then◌else◌, min,
}
use uniubi_ros.Json.{Json, Parsed, value, malformed, fault}
use uniubi_ros.Client.{Exit, returned, threw}

pub record MotorKey : Type 0 where
  pub limb_no : ℕ
  pub joint_no : ℕ

pub record MotorLayoutEntry : Type 0 where
  pub key : MotorKey
  pub name : String

-- Neither key is smaller than the other.
abbrev pub same_key : MotorKey → MotorKey → Bool
same_key a b = a.limb_no == b.limb_no && a.joint_no == b.joint_no

-- `keys.count(key) != 0`: the map holds the keys of the entries so far.
abbrev pub has_key : MotorKey → List MotorLayoutEntry → Bool
has_key key [] = false
has_key key (e ∷ es) = same_key e.key key || has_key key es

unfoldable pub add_motor : Option MotorLayoutEntry → List MotorLayoutEntry → List MotorLayoutEntry
add_motor none parsed = parsed
add_motor (some e) parsed =
    if str_eq e.name "" || has_key e.key parsed then parsed else parsed ++ (e ∷ [])

module _ {V : Type 0} (json : Json V) where
  open json use {
    is_object, is_array, is_member, is_string, member, as_string, as_uint, elements, parse,
  }

  unfoldable pub read_uint_field : V → List String → Option ℕ
  read_uint_field object [] = none
  read_uint_field object (name ∷ names) =
      let rest = read_uint_field object names in
      if is_member object name
      then (elim (as_uint (member object name)) [ some n ↦ some n | none ↦ rest ])
      else rest

  unfoldable pub read_string_field : V → List String → String
  read_string_field object [] = ""
  read_string_field object (name ∷ names) =
      let rest = read_string_field object names in
      if is_member object name && is_string (member object name)
      then as_string (member object name)
      else rest

  abbrev pub make_entry : Option ℕ → Option ℕ → String → Option MotorLayoutEntry
  make_entry (some limb) (some joint) name =
      some (record { key = record { limb_no = limb; joint_no = joint }; name = name })
  make_entry _ _ name = none

  -- The entry that an element describes, if it is an object with a limb and a joint.
  unfoldable pub read_motor : V → Option MotorLayoutEntry
  unfolding read_uint_field read_string_field
  read_motor motor =
      if is_object motor
      then make_entry (read_uint_field motor ("limbNo" ∷ "limbsNo" ∷ "limb_no" ∷ "limbs_no" ∷ []))
          (read_uint_field motor ("jointNo" ∷ "joint_no" ∷ []))
          (read_string_field motor ("name" ∷ "joint" ∷ "jointName" ∷ "joint_name" ∷ []))
      else none

  -- The loop over the motors.
  unfoldable pub collect : List V → List MotorLayoutEntry → List MotorLayoutEntry
  collect [] parsed = parsed
  collect (motor ∷ motors) parsed = collect motors (add_motor (read_motor motor) parsed)

  unfoldable pub find_motors : V → Option V
  find_motors root =
      if is_array root
      then some root
      else if is_object root && is_array (member root "motors")
      then some (member root "motors")
      else if is_object root && is_array (member root "motor")
      then some (member root "motor")
      else none

  abbrev pub some_entries : List MotorLayoutEntry → Option (List MotorLayoutEntry)
  some_entries [] = none
  some_entries (e ∷ es) = some (e ∷ es)

  unfoldable pub layout_of : Option V → Option (List MotorLayoutEntry)
  layout_of none = none
  layout_of (some motors) = some_entries (collect (elements motors) [])

  -- `parse_motor_layout`: the new layout, `none` for the result `false`, or an exception.
  unfoldable pub read_layout : Parsed V → Exit (Option (List MotorLayoutEntry))
  read_layout (value root) = returned (layout_of (find_motors root))
  read_layout malformed = returned none
  read_layout fault = threw "JSON"

  unfoldable pub parse_motor_layout : String → Exit (Option (List MotorLayoutEntry))
  unfolding read_layout
  parse_motor_layout layout_json = read_layout (parse layout_json)

-- The sum of the sizes in `size_t`; `none` if one is not positive.
unfoldable pub expected_names : List ℤ → ℕ → Option ℕ
expected_names [] sum = some sum
expected_names (pos zero ∷ sizes) sum = none
expected_names (pos (suc n) ∷ sizes) sum = expected_names sizes ((sum + suc n) % 2 ^ 64)
expected_names (negsuc n ∷ sizes) sum = none

-- How the loops of the fallback end: with a result, with `return false`, or by reading
-- `fallback_joint_names_` past its end, which C++ does not define.
pub data Filling (A : Type 0) : Type 0 where
  filled : A → Filling A
  refused past_end : Filling A

-- The joints of one limb: the entries with those before, and the names that are left.
unfoldable pub fill_limb :
    ℕ → ℕ → ℕ → List String → List MotorLayoutEntry → Filling (List MotorLayoutEntry × List String)
fill_limb limb joint zero names parsed = filled (parsed, names)
fill_limb limb joint (suc n) [] parsed = past_end
fill_limb limb joint (suc n) (name ∷ names) parsed =
    let entry : MotorLayoutEntry = record {
      key = record { limb_no = limb % 2 ^ 32; joint_no = joint % 2 ^ 32 };
      name = name;
    } in
    let rest = fill_limb limb (suc joint) n names (parsed ++ (entry ∷ [])) in
    if str_eq name "" then refused else rest

abbrev pub size_of : ℤ → ℕ
size_of (pos n) = n
size_of (negsuc n) = 0

unfoldable pub fill_limbs :
    ℕ → List ℤ → List String → List MotorLayoutEntry → Filling (List MotorLayoutEntry)
fill_limbs limb [] names parsed = filled parsed
fill_limbs limb (size ∷ sizes) names parsed = elim (fill_limb limb 0 (size_of size) names parsed) [
  | refused ↦ refused
  | past_end ↦ past_end
  | filled (entries, left) ↦ fill_limbs (suc limb) sizes left entries
]

unfoldable pub fill_expected : Option ℕ → List ℤ → List String → Filling (List MotorLayoutEntry)
fill_expected none sizes names = refused
fill_expected (some expected) sizes names =
    if expected == 0 || not (expected == length names) then refused else fill_limbs 0 sizes names []

-- `configure_fallback_motor_layout`: the new layout, `refused` for the result `false`.
unfoldable pub configure_fallback_motor_layout :
    List ℤ → List String → Filling (List MotorLayoutEntry)
configure_fallback_motor_layout fallback_limb_sizes fallback_joint_names =
    fill_expected (expected_names fallback_limb_sizes 0) fallback_limb_sizes fallback_joint_names

-- Numbers of the messages are of a type `N` of floating-point numbers.
pub record MotorObserved (N : Type 0) : Type 0 where
  pub header : MotorKey
  pub position : N
  pub velocity : N
  pub torque : N

pub record JointSample (N : Type 0) : Type 0 where
  pub name : String
  pub position : N
  pub velocity : N
  pub effort : N

module _ {N : Type 0} where
  -- The first `count` motors; `count` is clamped to the number of motors.
  abbrev pub first_motors : ℕ → List (MotorObserved N) → List (MotorObserved N)
  first_motors zero ms = []
  first_motors (suc n) [] = []
  first_motors (suc n) (m ∷ ms) = m ∷ first_motors n ms

  abbrev pub motor_count : ℤ → List (MotorObserved N) → ℕ
  motor_count (pos n) ms = min n (length ms)
  motor_count (negsuc n) ms = 0

  -- `observed[key] = &motor` in a loop: the last motor with the key.
  unfoldable pub observed : MotorKey → List (MotorObserved N) → Option (MotorObserved N)
  observed key [] = none
  observed key (m ∷ ms) = elim (observed key ms) [
    | some x ↦ some x
    | none ↦ if same_key m.header key then some m else none
  ]

  abbrev pub sample : String → MotorObserved N → JointSample N
  sample name m = record {
    name = name;
    position = m.position;
    velocity = m.velocity;
    effort = m.torque;
  }

  -- The four lists of the message as one list.
  unfoldable pub joint_samples :
      List MotorLayoutEntry → List (MotorObserved N) → List (JointSample N)
  joint_samples [] ms = []
  joint_samples (e ∷ es) ms =
      let rest = joint_samples es ms in
      elim (observed e.key ms) [ none ↦ rest | some m ↦ sample e.name m ∷ rest ]

  -- `publish_joint_states`: the message, if one is published.
  unfoldable pub publish_joint_states :
      Bool → List MotorLayoutEntry → ℤ → List (MotorObserved N) → Option (List (JointSample N))
  publish_joint_states enabled layout motor_num motors =
      let samples = joint_samples layout (first_motors (motor_count motor_num motors) motors) in
      if not enabled || is_nil layout || is_nil samples then none else some samples
