-- ===== src/Bridge/Layout/Keys.antt =====
-- Which motors are in the layout.
use mathlib.Core.List.{append_assoc, map-append}
use uniubi_ros.Prelude.{
  String, true, false, ◌||◌, ◌++◌, Option, none, some, List, [], ◌∷◌, ◌≡◌, refl, inl, inr, arith,
  str_eq, is_nil, All, All-append, Bool-cases, subst, map, IsSublist, IsSublist-snoc,
  IsSublist-append,
}
use uniubi_ros.Json.{Json, Parsed, value, malformed, fault}
use uniubi_ros.Client.{Exit, returned}
use uniubi_ros.Bridge.Layout.{
  MotorKey, MotorLayoutEntry, same_key, has_key, add_motor, read_motor, collect, find_motors,
  some_entries, layout_of, read_layout, parse_motor_layout,
}

-- No two entries have one key.
abbrev pub IsUnique : List MotorLayoutEntry → Type 0
IsUnique [] = Unit
IsUnique (e ∷ es) = All (λ x. same_key e.key x.key ≡ false) es × IsUnique es

abbrev pub IsNamed : MotorLayoutEntry → Type 0
IsNamed e = str_eq e.name "" ≡ false

differ-snoc :
    (k : MotorKey) (es : List MotorLayoutEntry) (e : MotorLayoutEntry)
    → All (λ x. same_key k x.key ≡ false) es
    → same_key k e.key ≡ false
    → All (λ x. same_key k x.key ≡ false) (es ++ (e ∷ []))
differ-snoc k [] e h d = (d, tt)
differ-snoc k (x ∷ xs) e h d = (h.0, differ-snoc k xs e h.1 d)

IsUnique-snoc :
    (es : List MotorLayoutEntry) (e : MotorLayoutEntry)
    → IsUnique es
    → has_key e.key es ≡ false
    → IsUnique (es ++ (e ∷ []))
IsUnique-snoc [] e h d = (tt, tt)
IsUnique-snoc (x ∷ xs) e h d =
    (differ-snoc x.key xs e h.0 (ground arith), IsUnique-snoc xs e h.1 (ground arith))

key-snoc :
    (k : MotorKey) (es : List MotorLayoutEntry) (e : MotorLayoutEntry)
    → has_key k (es ++ (e ∷ [])) ≡ (has_key k es || same_key e.key k)
key-snoc k [] e = ground arith
key-snoc k (x ∷ xs) e = ground (arith, key-snoc k xs e)

pub record IsLayout (es : List MotorLayoutEntry) : Type 0 where
  pub unique : IsUnique es
  pub named : All IsNamed es

add_motor-IsLayout :
    (r : Option MotorLayoutEntry) (es : List MotorLayoutEntry)
    → IsLayout es
    → IsLayout (add_motor r es)
unfolding add_motor
add_motor-IsLayout none es h = h
add_motor-IsLayout (some e) es h = elim (Bool-cases (str_eq e.name "" || has_key e.key es)) [
  | inl d ↦ rw d h
  | inr d ↦ rw d (record {
    unique = IsUnique-snoc es e h.unique (ground arith);
    named = All-append IsNamed es (e ∷ []) h.named (ground arith, tt);
  })
]

-- A key stays, and a motor with a name has its key in the layout once it is read.
add_motor_keeps :
    (k : MotorKey) (r : Option MotorLayoutEntry) (es : List MotorLayoutEntry)
    → has_key k es ≡ true
    → has_key k (add_motor r es) ≡ true
unfolding add_motor
add_motor_keeps k none es h = h
add_motor_keeps k (some e) es h = ground (arith, key-snoc k es e)

add_motor_adds :
    (e : MotorLayoutEntry) (es : List MotorLayoutEntry)
    → IsNamed e
    → has_key e.key (add_motor (some e) es) ≡ true
unfolding add_motor
add_motor_adds e es h = ground (arith, key-snoc e.key es e)

module _ {V : Type 0} (json : Json V) where
  open json use {elements, parse}

  collect-IsLayout :
      (ms : List V) (es : List MotorLayoutEntry) → IsLayout es → IsLayout (collect json ms es)
  unfolding collect
  collect-IsLayout [] es h = h
  collect-IsLayout (m ∷ ms) es h =
      collect-IsLayout ms _ (add_motor-IsLayout (read_motor json m) es h)

  collect_keeps :
      (k : MotorKey) (ms : List V) (es : List MotorLayoutEntry)
      → has_key k es ≡ true
      → has_key k (collect json ms es) ≡ true
  unfolding collect
  collect_keeps k [] es h = h
  collect_keeps k (m ∷ ms) es h = collect_keeps k ms _ (add_motor_keeps k (read_motor json m) es h)

  -- The layout has the key of every motor that can be read and has a name.
  abbrev pub Covers : List V → List MotorLayoutEntry → Type 0
  Covers ms layout =
      All
        (λ m.
          ((e : MotorLayoutEntry)
            → read_motor json m ≡ some e
            → IsNamed e
            → has_key e.key layout ≡ true))
        ms

  collect-Covers : (ms : List V) (es : List MotorLayoutEntry) → Covers ms (collect json ms es)
  unfolding collect
  collect-Covers [] es = tt
  collect-Covers (m ∷ ms) es =
      (λ e r n. collect_keeps e.key ms _ (rw r (add_motor_adds e es n)), collect-Covers ms _)

  -- The entries are those of motors of the array, in its order.
  abbrev pub Reads : List V → List MotorLayoutEntry → Type 0
  Reads ms layout = IsSublist (map some layout) (map (read_motor json) ms)

  add_motor-IsSublist :
      (r : Option MotorLayoutEntry) (es : List MotorLayoutEntry)
      (before : List (Option MotorLayoutEntry))
      → IsSublist (map some es) before
      → IsSublist (map some (add_motor r es)) (before ++ (r ∷ []))
  unfolding add_motor
  add_motor-IsSublist none es before h = IsSublist-append (map some es) before (none ∷ []) h
  add_motor-IsSublist (some e) es before h =
      elim (Bool-cases (str_eq e.name "" || has_key e.key es)) [
        | inl d ↦ rw d (IsSublist-append (map some es) before (some e ∷ []) h)
        | inr d ↦
            rw (d, map-append some es (e ∷ [])) (IsSublist-snoc (map some es) before (some e) h)
      ]

  collect-Reads :
      (ms : List V) (es : List MotorLayoutEntry) (before : List (Option MotorLayoutEntry))
      → IsSublist (map some es) before
      → IsSublist (map some (collect json ms es)) (before ++ map (read_motor json) ms)
  unfolding collect
  collect-Reads [] es before h = IsSublist-append (map some es) before [] h
  collect-Reads (m ∷ ms) es before h =
      subst (IsSublist (map some (collect json (m ∷ ms) es)))
        (append_assoc before (read_motor json m ∷ []) (map (read_motor json) ms))
        (collect-Reads ms _ _ (add_motor-IsSublist (read_motor json m) es before h))

  some_entries_eq :
      (es layout : List MotorLayoutEntry)
      → some_entries json es ≡ some layout
      → (es ≡ layout) × (is_nil layout ≡ false)
  some_entries_eq [] layout h = absurd cc
  some_entries_eq (e ∷ es) layout h = ground arith

  layout_of-IsLayout :
      (r : Option V) (layout : List MotorLayoutEntry)
      → layout_of json r ≡ some layout
      → (motors : V) × (r ≡ some motors)
        × IsLayout layout
        × (is_nil layout ≡ false)
        × Covers (elements motors) layout
        × Reads (elements motors) layout
  unfolding layout_of
  layout_of-IsLayout none layout h = absurd cc
  layout_of-IsLayout (some motors) layout h =
      let ms = elements motors in
      let (same, some_entry) = some_entries_eq (collect json ms []) layout h in
      (
        motors,
        refl,
        subst IsLayout same (collect-IsLayout ms [] (record { unique = tt; named = tt })),
        some_entry,
        subst (Covers ms) same (collect-Covers ms []),
        subst (Reads ms) same (collect-Reads ms [] [] tt),
      )

  returned-eq :
      (a b : Option (List MotorLayoutEntry))
      → ◌≡◌ {A = Exit (Option (List MotorLayoutEntry))} (returned a) (returned b)
      → a ≡ b
  returned-eq a b e = cc

  read_layout-IsLayout :
      (p : Parsed V) (layout : List MotorLayoutEntry)
      → read_layout json p ≡ returned (some layout)
      → (root motors : V) × (p ≡ value root)
        × (find_motors json root ≡ some motors)
        × IsLayout layout
        × (is_nil layout ≡ false)
        × Covers (elements motors) layout
        × Reads (elements motors) layout
  unfolding read_layout
  read_layout-IsLayout (value root) layout h =
      let (motors, found, entries, some_entry, covers, reads) =
        layout_of-IsLayout (find_motors json root) layout (returned-eq _ _ h) in
      (root, motors, refl, found, entries, some_entry, covers, reads)
  read_layout-IsLayout malformed layout h = absurd cc
  read_layout-IsLayout fault layout h = absurd cc

  -- A layout that `parse_motor_layout` accepts is that of an array in the document: its entries are
  -- what is read of motors of the array, in their order, and of nothing else; there are one or more of
  -- them, each with a name and no two with one key, and every motor of the array that has a limb, a
  -- joint and a name has its key among them.
  pub parse_motor_layout-IsLayout :
      (layout_json : String) (layout : List MotorLayoutEntry)
      → parse_motor_layout json layout_json ≡ returned (some layout)
      → (root motors : V) × (parse layout_json ≡ value root)
        × (find_motors json root ≡ some motors)
        × IsLayout layout
        × (is_nil layout ≡ false)
        × Covers (elements motors) layout
        × Reads (elements motors) layout
  unfolding parse_motor_layout
  parse_motor_layout-IsLayout layout_json layout h =
      read_layout-IsLayout (parse layout_json) layout h
