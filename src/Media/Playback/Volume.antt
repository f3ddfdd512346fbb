-- ===== src/Media/Playback/Volume.antt =====
-- The volume that the parameters set.
use uniubi_ros.Prelude.{
  ℤ, Bool, true, false, not, ◌&&◌, Option, none, some, List, [], ◌∷◌, ◌≡◌, refl, inl, inr, arith,
  All, All-append, ◌||◌, ◌↔◌, is_some, Bool-cases, Option-cases, str_eq,
}
use uniubi_ros.Media.Playback.{
  AudioBridge, Parameter, ParameterValue, integer, other, Raw, is_volume, checked_volume,
  next_volume, requested_volume, apply_volume, on_parameters,
}

-- The volume lies between 0 and 100, and so does all that the stream was asked for.
pub record IsAudible (b : AudioBridge) : Type 0 where
  pub current : is_volume b.volume ≡ true
  pub asked : All (λ v. is_volume v ≡ true) b.volumes

-- Some parameter names the volume with a value that is not an integer of 0 to 100.
abbrev pub has_invalid : List Parameter → Bool
has_invalid [] = false
has_invalid (p ∷ ps) =
    (str_eq p.name "audio_volume" && not (is_some (checked_volume p.value))) || has_invalid ps

checked_volume-audible :
    (x : ParameterValue) (v : ℤ) → checked_volume x ≡ some v → is_volume v ≡ true
unfolding checked_volume
checked_volume-audible (integer w) v e = ground arith
checked_volume-audible other v e = cc

next_volume-audible :
    (p : Parameter) (volume v : ℤ)
    → is_volume volume ≡ true
    → next_volume p volume ≡ some v
    → is_volume v ≡ true
unfolding next_volume
next_volume-audible p volume v h e = ground (arith, checked_volume-audible p.value v)

requested_volume-audible :
    (ps : List Parameter) (volume v : ℤ)
    → is_volume volume ≡ true
    → requested_volume ps volume ≡ some v
    → is_volume v ≡ true
unfolding requested_volume
requested_volume-audible [] volume v h e = ground arith
requested_volume-audible (p ∷ ps) volume v h e = elim (Option-cases (next_volume p volume)) [
  | inl n ↦ ground arith
  | inr (w, n) ↦
      requested_volume-audible ps w v (next_volume-audible p volume w h n)
        (rw (n, requested_volume) at e)
]

requested_volume-invalid :
    (ps : List Parameter) (volume : ℤ)
    → (requested_volume ps volume ≡ none) ↔ (has_invalid ps ≡ true)
unfolding requested_volume next_volume
requested_volume-invalid [] volume = ground arith
requested_volume-invalid (p ∷ ps) volume = elim (Bool-cases (str_eq p.name "audio_volume")) [
  | inl n ↦ elim (Option-cases (checked_volume p.value)) [
    | inl c ↦ ground arith
    | inr (w, c) ↦ ground (arith, requested_volume-invalid ps w)
  ]
  | inr n ↦ ground (arith, requested_volume-invalid ps volume)
]

module _ (raw : Raw) where
  apply_volume-IsAudible :
      (r : Option ℤ) (b : AudioBridge)
      → ((v : ℤ) → r ≡ some v → is_volume v ≡ true)
      → IsAudible b
      → let (ok, t) = apply_volume raw r b in
        IsAudible t × (ok ≡ false → t.volume ≡ b.volume) × (r ≡ none → (ok ≡ false) × (t ≡ b))
  unfolding apply_volume
  apply_volume-IsAudible none b v h = ground arith
  apply_volume-IsAudible (some w) b v h =
      let k = All-append (λ x. is_volume x ≡ true) b.volumes (w ∷ []) h.asked (v w refl, tt) in
      ground (arith, v w refl, k)

  -- A change of the parameters keeps the volume within 0 to 100 and asks the stream for nothing
  -- else; when it is refused, the volume stays as it was; and a list in which some parameter names
  -- the volume with a value that is not an integer of 0 to 100 is refused as a whole and changes
  -- nothing, whatever else it holds.
  pub on_parameters-IsAudible :
      (ps : List Parameter) (b : AudioBridge)
      → IsAudible b
      → let (ok, t) = on_parameters raw ps b in
        IsAudible t
        × (ok ≡ false → t.volume ≡ b.volume)
        × (has_invalid ps ≡ true → (ok ≡ false) × (t ≡ b))
  unfolding on_parameters
  on_parameters-IsAudible ps b h =
      let (k, kept, refused) =
        apply_volume-IsAudible (requested_volume ps b.volume) b
          (λ v. requested_volume-audible ps b.volume v h.current) h in
      (k, kept, λ bad. refused ((requested_volume-invalid ps b.volume).1 bad))
