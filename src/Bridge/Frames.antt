-- ===== src/Bridge/Frames.antt =====
-- uniubi_motion_bridge/include/uniubi_motion_bridge/frame_id.hpp.
use uniubi_ros.Prelude.{
  true, ◌++◌, [], ◌∷◌, ◌≡◌, refl, sym, ap, ◌∙◌, inl, inr, arith, length, length-append, is_nil,
  Bool-cases, Bytes, slash, strip, keep_byte, if◌then◌else◌,
}

unfoldable pub prefixed_frame_id : Bytes → Bytes → Bytes
prefixed_frame_id prefix frame =
    let stripped = strip prefix in if is_nil stripped then frame else stripped ++ (slash ∷ frame)

nil_eq : (s : Bytes) → is_nil s ≡ true → s ≡ []
nil_eq [] h = refl
nil_eq (c ∷ cs) h = absurd (ground arith)

front : (a b s : Bytes) → a ++ s ≡ b ++ s → a ≡ b
front [] [] s e = refl
front [] (c ∷ b) s e = absurd (omega (arith, ap length e, length-append b s))
front (c ∷ a) [] s e = absurd (omega (arith, ap length e, length-append a s))
front (c ∷ a) (d ∷ b) s e = ground (arith, front a b s)

strip-slash : (s : Bytes) → strip (s ++ (slash ∷ [])) ≡ strip s
unfolding strip
strip-slash [] = refl
strip-slash (c ∷ cs) = ap (keep_byte c) (strip-slash cs)

-- Two prefixes that differ in more than slashes at their ends never give one frame the same name, so
-- that the frames of two robots do not collide; and a slash at the end of a prefix changes nothing.
pub prefixed_frame_id-inj :
    (p q frame : Bytes)
    → (prefixed_frame_id p frame ≡ prefixed_frame_id q frame → strip p ≡ strip q)
      × (prefixed_frame_id (p ++ (slash ∷ [])) frame ≡ prefixed_frame_id p frame)
unfolding prefixed_frame_id
prefixed_frame_id-inj p q frame = (inj, rw (strip-slash p) refl)
  where
    inj : prefixed_frame_id p frame ≡ prefixed_frame_id q frame → strip p ≡ strip q
    inj e = elim (Bool-cases (is_nil (strip p))) [
      | inl n ↦ elim (Bool-cases (is_nil (strip q))) [
        | inl m ↦ nil_eq (strip p) n ∙ sym (nil_eq (strip q) m)
        | inr m ↦
            absurd
              (omega (arith, ap length (rw (n, m) at e), length-append (strip q) (slash ∷ frame)))
      ]
      | inr n ↦ elim (Bool-cases (is_nil (strip q))) [
        | inl m ↦
            absurd
              (omega (arith, ap length (rw (n, m) at e), length-append (strip p) (slash ∷ frame)))
        | inr m ↦ front (strip p) (strip q) (slash ∷ frame) (rw (n, m) at e)
      ]
    ]
