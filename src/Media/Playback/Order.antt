-- ===== src/Media/Playback/Order.antt =====
-- The frames that reach the raw stream, against those that arrived.
use uniubi_ros.Prelude.{
  ℕ, suc, ◌≤◌, ℤ, true, not, ◌||◌, ◌++◌, Option, none, some, List, [], ◌∷◌, ◌≡◌, refl, subst, sym,
  arith, leb, length, length-append, All, All-append, IsSublist, IsSublist-snoc, IsSublist-append,
  IsSublist-front, Bool-cases, inl, inr, map, ap, ◌∙◌,
}
use mathlib.Core.List.{append-nil, append_assoc}
use uniubi_ros.Media.Playback.{
  AudioFrame, AudioBridge, AudioEvent, frame_arrived, timer_fired, reset_requested, parameters_set,
  Raw, SdkFrame, valid, push, pop, pop_front, clear, on_frame, on_timer, on_reset, write_frame,
  play, apply_volume, requested_volume, on_parameters, handle, handle_all, advance, sdk_frame,
}

-- The frames that arrived among the events.
abbrev pub arrived : List AudioEvent → List AudioFrame
arrived [] = []
arrived (frame_arrived f ∷ es) = f ∷ arrived es
arrived (timer_fired ∷ es) = arrived es
arrived (reset_requested ∷ es) = arrived es
arrived (parameters_set ps ∷ es) = arrived es

abbrev pub IsValid : AudioFrame → Type 0
IsValid f = valid f ≡ true

abbrev pub bytes_of : AudioFrame → List ℕ
bytes_of f = f.bytes

abbrev pub sdk_bytes : SdkFrame → List ℕ
sdk_bytes f = f.bytes

taken-snoc :
    (fs : List AudioFrame) (f : AudioFrame)
    → map bytes_of (fs ++ (f ∷ [])) ≡ map bytes_of fs ++ (f.bytes ∷ [])
taken-snoc [] f = refl
taken-snoc (g ∷ gs) f = ap (λ zs. g.bytes ∷ zs) (taken-snoc gs f)

writes-snoc :
    (fs : List SdkFrame) (f : SdkFrame)
    → map sdk_bytes (fs ++ (f ∷ [])) ≡ map sdk_bytes fs ++ (f.bytes ∷ [])
writes-snoc [] f = refl
writes-snoc (g ∷ gs) f = ap (λ zs. g.bytes ∷ zs) (writes-snoc gs f)

-- At most two frames wait, all of the one format; those that left and those that wait are
-- some of those that came before, each at most once and in their order.
pub record IsPlayed (came : List AudioFrame) (b : AudioBridge) : Type 0 where
  pub bounded : length b.queue.frames ≤ 2
  pub waiting : All IsValid b.queue.frames
  pub left : All IsValid b.taken
  pub ordered : IsSublist (b.taken ++ b.queue.frames) came
  pub written : map sdk_bytes b.writes ≡ map bytes_of b.taken

-- A queue that is cleared, and a frame that comes and is not taken.
cleared-IsPlayed :
    (came : List AudioFrame) (b : AudioBridge) (steps : ℕ)
    → IsPlayed came b
    → IsPlayed came (record b { queue = record { frames = [] }; steps = steps })
cleared-IsPlayed came b steps h = record {
  bounded = omega arith;
  waiting = tt;
  left = h.left;
  ordered =
      IsSublist-front (b.taken ++ []) b.queue.frames came
        (rw (append_assoc b.taken [] b.queue.frames) h.ordered);
  written = h.written;
}

push-IsPlayed :
    (came : List AudioFrame) (f : AudioFrame) (b : AudioBridge)
    → IsPlayed came b
    → IsPlayed (came ++ (f ∷ [])) (record (advance b) { queue = (push f b.queue).1 })
unfolding push
push-IsPlayed came f b h =
    let q = b.queue.frames in
    let v = not (valid f) in
    elim (Bool-cases (not (valid f) || leb 2 (length q))) [
      | inl e ↦ rw e (record {
        bounded = h.bounded;
        waiting = h.waiting;
        left = h.left;
        ordered = IsSublist-append (b.taken ++ q) came (f ∷ []) h.ordered;
        written = h.written;
      })
      | inr e ↦ rw e (record {
        bounded = rw (length-append q (f ∷ [])) (ground arith);
        waiting = All-append IsValid q (f ∷ []) h.waiting (ground arith, tt);
        left = h.left;
        ordered =
            rw (sym (append_assoc b.taken q (f ∷ [])))
              (IsSublist-snoc (b.taken ++ q) came f h.ordered);
        written = h.written;
      })
    ]

-- A frame that leaves the queue is written once, also where the write fails.
written-IsPlayed :
    (came : List AudioFrame) (f : AudioFrame) (fs : List AudioFrame) (w : SdkFrame)
    (b : AudioBridge)
    → b.queue.frames ≡ f ∷ fs
    → w.bytes ≡ f.bytes
    → IsPlayed came b
    → IsPlayed came (record b {
      queue = record { frames = fs };
      taken = b.taken ++ (f ∷ []);
      writes = b.writes ++ (w ∷ []);
      steps = suc b.steps;
    })
written-IsPlayed came f fs w b e same h = record {
  bounded = omega (arith, ap length e, h.bounded);
  waiting = (subst (All IsValid) e h.waiting).1;
  left = All-append IsValid b.taken (f ∷ []) h.left ((subst (All IsValid) e h.waiting).0, tt);
  ordered =
      rw (append_assoc b.taken (f ∷ []) fs)
        (subst (λ q. IsSublist (b.taken ++ q) came) e h.ordered);
  written =
      writes-snoc b.writes w
      ∙ ap (λ l. l ++ (w.bytes ∷ [])) h.written
      ∙ ap (λ l. map bytes_of b.taken ++ (l ∷ [])) same
      ∙ sym (taken-snoc b.taken f);
}

module _ (raw : Raw) where
  play-IsPlayed :
      (came fs : List AudioFrame) (b : AudioBridge)
      → b.queue.frames ≡ fs
      → IsPlayed came b
      → IsPlayed came (play raw (pop_front fs) (advance b))
  unfolding play pop_front write_frame sdk_frame clear
  play-IsPlayed came [] b e h = record {
    bounded = h.bounded;
    waiting = h.waiting;
    left = h.left;
    ordered = h.ordered;
    written = h.written;
  }
  play-IsPlayed came (f ∷ fs) b e h =
      let w = sdk_frame raw f (raw.now_us (suc b.steps)) in
      let k = written-IsPlayed came f fs w (advance b) e refl (record {
        bounded = h.bounded;
        waiting = h.waiting;
        left = h.left;
        ordered = h.ordered;
        written = h.written;
      }) in
      elim (Bool-cases (raw.write (suc b.steps) w)) [
        | inl ok ↦ rw ok k
        | inr failed ↦ rw failed (cleared-IsPlayed came _ (suc (suc b.steps)) k)
      ]

  volume-IsPlayed :
      (came : List AudioFrame) (v : Option ℤ) (b : AudioBridge)
      → IsPlayed came b
      → IsPlayed came (apply_volume raw v b).1
  unfolding apply_volume
  volume-IsPlayed came none b h = h
  volume-IsPlayed came (some v) b h = ground arith

  timer-IsPlayed :
      (came : List AudioFrame) (b : AudioBridge) → IsPlayed came b → IsPlayed came (on_timer raw b)
  unfolding on_timer pop clear
  timer-IsPlayed came b h = elim (Bool-cases (raw.ready b.steps)) [
    | inl e ↦ rw e (play-IsPlayed came b.queue.frames b refl h)
    | inr e ↦ rw e (cleared-IsPlayed came b (suc b.steps) h)
  ]

  came-more :
      (came : List AudioFrame) (f : AudioFrame) (b : AudioBridge) (steps : ℕ)
      → IsPlayed came b
      → IsPlayed (came ++ (f ∷ [])) (record b { steps = steps })
  came-more came f b steps h = record {
    bounded = h.bounded;
    waiting = h.waiting;
    left = h.left;
    ordered = IsSublist-append (b.taken ++ b.queue.frames) came (f ∷ []) h.ordered;
    written = h.written;
  }

  handle-IsPlayed :
      (e : AudioEvent) (came : List AudioFrame) (b : AudioBridge)
      → IsPlayed came b
      → IsPlayed (came ++ arrived (e ∷ [])) (handle raw e b)
  unfolding handle on_frame on_reset on_parameters clear
  handle-IsPlayed (frame_arrived f) came b h = elim (Bool-cases (raw.ready b.steps)) [
    | inl e ↦ rw e (push-IsPlayed came f b h)
    | inr e ↦ rw e (came-more came f b (suc b.steps) h)
  ]
  handle-IsPlayed timer_fired came b h = rw (append-nil came) (timer-IsPlayed came b h)
  handle-IsPlayed reset_requested came b h =
      rw (append-nil came) (cleared-IsPlayed came b (suc b.steps) h)
  handle-IsPlayed (parameters_set ps) came b h =
      rw (append-nil came) (volume-IsPlayed came (requested_volume ps b.volume) b h)

  arrived-cons :
      (e : AudioEvent) (es : List AudioEvent) → arrived (e ∷ es) ≡ arrived (e ∷ []) ++ arrived es
  arrived-cons (frame_arrived f) es = refl
  arrived-cons timer_fired es = refl
  arrived-cons reset_requested es = refl
  arrived-cons (parameters_set ps) es = refl

  -- Whatever arrives in whatever order, and however the raw stream answers: at most two frames
  -- wait; every frame that waits or has left has the one format; the frames that were written,
  -- followed by those that wait, are a subsequence of those that arrived before and since, so that
  -- none is written twice, out of order, or again after a reset or a failed write; and the samples
  -- given to the stream are those of the frames that left the queue.
  pub handle_all-IsPlayed :
      (es : List AudioEvent) (came : List AudioFrame) (b : AudioBridge)
      → IsPlayed came b
      → IsPlayed (came ++ arrived es) (handle_all raw es b)
  unfolding handle_all
  handle_all-IsPlayed [] came b h = rw (append-nil came) h
  handle_all-IsPlayed (e ∷ es) came b h =
      rw (arrived-cons e es, sym (append_assoc came (arrived (e ∷ [])) (arrived es)))
        (handle_all-IsPlayed es (came ++ arrived (e ∷ [])) (handle raw e b)
          (handle-IsPlayed e came b h))
