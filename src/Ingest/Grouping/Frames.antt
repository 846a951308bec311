-- ===== src/Ingest/Grouping/Frames.antt =====
-- The frame that names the culprit of an event.
use bug_han.Prelude.{
  ℕ, zero, suc, ◌≡◌, refl, true, false, Option, none, some, List, [], ◌∷◌, ◌++◌, length, take, sym,
  ap, subst, append_assoc, append-nil, get_elem?, All, All-append, Bool-cases, inl, inr,
  if◌then◌else◌,
}
use bug_han.Ingest.Grouping.{Frame, is_eligible, choose_frame}

abbrev pub IsSkipped : Frame → Type 0
IsSkipped f = is_eligible f ≡ false

-- the top frame that is eligible: those above it are skipped; none where all are skipped
pub record IsTop (frames : List Frame) (f : Frame) : Type 0 where
  pub below : List Frame
  pub above : List Frame
  pub place : frames ≡ below ++ (f ∷ above)
  pub eligible : is_eligible f ≡ true
  pub skipped : All IsSkipped above

abbrev pub TopOf : List Frame → Option Frame → Type 0
TopOf frames none = All IsSkipped frames
TopOf frames (some f) = IsTop frames f

one_more : Option Frame → List Frame
one_more none = []
one_more (some f) = f ∷ []

take-get_elem? :
    (frames : List Frame) (i : ℕ)
    → take (suc i) frames ≡ take i frames ++ one_more (get_elem? frames i)
unfolding one_more
take-get_elem? [] zero = refl
take-get_elem? [] (suc i) = refl
take-get_elem? (f ∷ frames) zero = refl
take-get_elem? (f ∷ frames) (suc i) = ap (λ r. f ∷ r) (take-get_elem? frames i)

take-length : (frames : List Frame) → take (length frames) frames ≡ frames
take-length [] = refl
take-length (f ∷ frames) = ap (λ r. f ∷ r) (take-length frames)

TopOf-skipped :
    (below : List Frame) (f : Frame) (o : Option Frame)
    → IsSkipped f
    → TopOf below o
    → TopOf (below ++ f ∷ []) o
TopOf-skipped below f none s h = All-append IsSkipped below (f ∷ []) h (s, tt)
TopOf-skipped below f (some g) s h = record {
  below = h.below;
  above = h.above ++ f ∷ [];
  place = rw (h.place) (append_assoc h.below (g ∷ h.above) (f ∷ []));
  eligible = h.eligible;
  skipped = All-append IsSkipped h.above (f ∷ []) h.skipped (s, tt);
}

-- one step of the loop, from the frames below
TopOf-step :
    (below : List Frame) (next o : Option Frame)
    → TopOf below o
    → TopOf
        (below ++ one_more next)
        (elim next [ none ↦ o | some f ↦ if is_eligible f then some f else o ])
unfolding one_more
TopOf-step below none o h = subst (λ z. TopOf z o) (sym (append-nil below)) h
TopOf-step below (some f) o h = elim (Bool-cases (is_eligible f)) [
  | inl e ↦ rw e (record { below = below; above = []; place = refl; eligible = e; skipped = tt })
  | inr e ↦ rw e (TopOf-skipped below f o e h)
]

choose_frame-TopOf : (frames : List Frame) (n : ℕ) → TopOf (take n frames) (choose_frame frames n)
unfolding choose_frame
choose_frame-TopOf frames zero = tt
choose_frame-TopOf frames (suc i) =
    subst (λ z. TopOf z (choose_frame frames (suc i))) (sym (take-get_elem? frames i))
      (TopOf-step (take i frames) (get_elem? frames i) (choose_frame frames i)
        (choose_frame-TopOf frames i))

-- Of the frames of a stack trace, root first, normalizedCulprit's loop chooses the last one that is in
-- the application and neither anonymous nor of webpack: all frames above it are skipped; it chooses
-- none only where every frame is skipped.
pub choose_frame_lem : (frames : List Frame) → TopOf frames (choose_frame frames (length frames))
choose_frame_lem frames =
    subst (λ z. TopOf z (choose_frame frames (length frames))) (take-length frames)
      (choose_frame-TopOf frames (length frames))
