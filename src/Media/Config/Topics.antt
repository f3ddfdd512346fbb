-- ===== src/Media/Config/Topics.antt =====
-- The image topics of an accepted configuration.
use uniubi_ros.Prelude.{
  ℕ, ℤ, true, false, ◌&&◌, ◌++◌, List, [], ◌∷◌, ◌≡◌, ◌≢◌, refl, sym, ap, ◌∙◌, inl, inr, arith, map,
  is_nil, length, length-append, Bytes, slash, strip, All, Bool-cases, ◌==◌,
}
use uniubi_ros.Client.{returned}
use uniubi_ros.Media.Config.{
  valid_name, name_bytes, image_topic, image_raw, all_names, parts, grow, drop_root,
  validate_config,
}
use uniubi_ros.Media.Config.Accepted.{IsDistinct, AreCameras, IsPrefix, validate_config_iff}

cancel_left : (p a b : Bytes) → p ++ a ≡ p ++ b → a ≡ b
cancel_left [] a b e = e
cancel_left (c ∷ p) a b e = cancel_left p a b (ground arith)

cancel_right : (a b s : Bytes) → a ++ s ≡ b ++ s → a ≡ b
cancel_right [] [] s e = refl
cancel_right [] (c ∷ b) s e = absurd (omega (arith, ap length e, length-append b s))
cancel_right (c ∷ a) [] s e = absurd (omega (arith, ap length e, length-append a s))
cancel_right (c ∷ a) (d ∷ b) s e = ground (arith, cancel_right a b s)

image_topic-inj : (prefix a b : Bytes) → image_topic prefix a ≡ image_topic prefix b → a ≡ b
unfolding image_topic
image_topic-inj prefix a b e =
    let tail = slash ∷ image_raw in
    let r = strip prefix in
    elim (Bool-cases (is_nil r)) [
      | inl n ↦ cancel_right a b tail (rw n at e)
      | inr n ↦ cancel_right a b tail (
          cancel_left (slash ∷ []) (a ++ tail) (b ++ tail)
            (cancel_left r (slash ∷ (a ++ tail)) (slash ∷ (b ++ tail)) (rw n at e)))
    ]

differ-map :
    (prefix x : Bytes) (names : List Bytes)
    → All (λ y. x ≢ y) names
    → All (λ t. image_topic prefix x ≢ t) (map (image_topic prefix) names)
differ-map prefix x [] h = tt
differ-map prefix x (n ∷ ns) h =
    (λ e. h.0 (image_topic-inj prefix x n e), differ-map prefix x ns h.1)

topics-IsDistinct :
    (prefix : Bytes) (names : List Bytes)
    → IsDistinct names
    → IsDistinct (map (image_topic prefix) names)
topics-IsDistinct prefix [] h = tt
topics-IsDistinct prefix (n ∷ ns) h = (differ-map prefix n ns h.0, topics-IsDistinct prefix ns h.1)

-- The parts of a text around a slash.
grow-append : (c : ℕ) (ps qs : List Bytes) → is_nil ps ≡ false → grow c ps ++ qs ≡ grow c (ps ++ qs)
grow-append c [] qs h = absurd (ground arith)
grow-append c (p ∷ ps) qs h = refl

some_part : (s : Bytes) → is_nil (parts s) ≡ false
some_part [] = refl
some_part (c ∷ cs) = elim (Bool-cases (c == slash)) [
  | inl e ↦ rw e refl
  | inr e ↦ rw e (grown c (parts cs))
]
  where
    grown : (c : ℕ) (ps : List Bytes) → is_nil (grow c ps) ≡ false
    grown c [] = refl
    grown c (p ∷ ps) = refl

parts-append : (a b : Bytes) → parts (a ++ (slash ∷ b)) ≡ parts a ++ parts b
parts-append [] b = refl
parts-append (c ∷ cs) b = elim (Bool-cases (c == slash)) [
  | inl e ↦ rw e (ap (λ l. [] ∷ l) (parts-append cs b))
  | inr e ↦
      rw e
        (ap (grow c) (parts-append cs b) ∙ sym (grow-append c (parts cs) (parts b) (some_part cs)))
]

all_names-append : (ps qs : List Bytes) → all_names (ps ++ qs) ≡ (all_names ps && all_names qs)
all_names-append [] qs = refl
all_names-append (p ∷ ps) qs = ground (arith, all_names-append ps qs)

-- A name has no slash.
name-parts : (s : Bytes) → name_bytes s ≡ true → parts s ≡ s ∷ []
name-parts [] h = refl
name-parts (c ∷ cs) h =
    let e : (c == slash) ≡ false = ground arith in rw (e, name-parts cs (ground arith)) refl

named : (s : Bytes) → valid_name s ≡ true → parts s ≡ s ∷ []
unfolding valid_name
named [] h = refl
named (c ∷ cs) h = name-parts (c ∷ cs) (ground arith)

drop_root-append : (s t : Bytes) → is_nil s ≡ false → drop_root (s ++ t) ≡ drop_root s ++ t
drop_root-append [] t h = absurd (ground arith)
drop_root-append (c ∷ cs) t h = elim (Bool-cases (c == slash)) [
  | inl e ↦ rw e refl
  | inr e ↦ rw e refl
]

name-root : (s t : Bytes) → valid_name s ≡ true → drop_root (s ++ t) ≡ s ++ t
unfolding valid_name
name-root [] t h = absurd (ground arith)
name-root (c ∷ cs) t h = ground arith

tail-names :
    (name : Bytes) → valid_name name ≡ true → all_names (parts (name ++ (slash ∷ image_raw))) ≡ true
unfolding valid_name
tail-names name v = rw (parts-append name image_raw, named name v) (ground arith)

image_topic-names :
    (prefix name : Bytes)
    → IsPrefix prefix
    → valid_name name ≡ true
    → all_names (parts (drop_root (image_topic prefix name))) ≡ true
unfolding image_topic
image_topic-names prefix name h v =
    let r = strip prefix in
    let tail = name ++ (slash ∷ image_raw) in
    elim (Bool-cases (is_nil r)) [
      | inl n ↦ rw (n, name-root name (slash ∷ image_raw) v) (tail-names name v)
      | inr n ↦
          rw
            (
              n,
              drop_root-append r (slash ∷ tail) n,
              parts-append (drop_root r) tail,
              all_names-append (parts (drop_root r)) (parts tail),
              h n,
              tail-names name v,
            )
            refl
    ]

camera_names :
    (prefix : Bytes) (urls names frames : List Bytes)
    → length urls ≡ length names
    → length urls ≡ length frames
    → IsPrefix prefix
    → AreCameras urls names frames
    → All (λ n. all_names (parts (drop_root (image_topic prefix n))) ≡ true) names
camera_names prefix [] [] frames e f h c = tt
camera_names prefix [] (n ∷ ns) frames e f h c = absurd (omega arith)
camera_names prefix (u ∷ us) [] frames e f h c = tt
camera_names prefix (u ∷ us) (n ∷ ns) [] e f h c = absurd (omega arith)
camera_names prefix (u ∷ us) (n ∷ ns) (x ∷ xs) e f h c =
    let (url, clean, valid, frame) = c.0 in
    (
      image_topic-names prefix n h valid,
      camera_names prefix us ns xs (omega arith) (omega arith) h c.1,
    )

-- The topics of a configuration that `validate_config` accepts are distinct, so that no two cameras
-- publish to one topic, and each is made of ROS names between single slashes, behind at most one
-- slash at its front.
pub validate_config-topics :
    (urls names frame_ids : List Bytes) (prefix : Bytes)
    (open_timeout_ms read_timeout_ms reconnect_delay_ms jpeg_quality : ℤ)
    → validate_config urls names frame_ids prefix open_timeout_ms read_timeout_ms reconnect_delay_ms
        jpeg_quality
      ≡ returned tt
    → IsDistinct (map (image_topic prefix) names)
      × All (λ n. all_names (parts (drop_root (image_topic prefix n))) ≡ true) names
validate_config-topics urls names frame_ids prefix open_timeout_ms read_timeout_ms
      reconnect_delay_ms jpeg_quality h =
    let c =
      (validate_config_iff urls names frame_ids prefix open_timeout_ms read_timeout_ms
          reconnect_delay_ms jpeg_quality).0
        h in
    (
      topics-IsDistinct prefix names c.distinct,
      camera_names prefix urls names frame_ids c.paired_names c.paired_frames c.rooted c.cameras,
    )
