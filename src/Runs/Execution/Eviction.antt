-- ===== src/Runs/Execution/Eviction.antt =====
-- What the loop that evicts frames leaves.
use replay_forge.Base.{
  Bool-cases, [], arith, inl, inr, length, ltb, nat_eq, ok, option_eq, pair_eq, refl, string_eq,
  suc, sym, ℕ, ◌++◌, ◌+◌, ◌-◌, ◌<◌, ◌||◌, ◌∙◌, ◌∷◌, ◌≡◌, ◌≤◌,
}
use replay_forge.Dict.{Dict, insert}
use replay_forge.Runs.Execution.{Frame, Kept, evict}

-- The bytes of all retained frames.
unfoldable pub total_bytes : Dict ℕ Frame → ℕ
total_bytes [] = 0
total_bytes ((k, frame) ∷ frames) = length frame.content + total_bytes frames

-- The frames are numbered from `n + 1` on without gaps, each under its own number.
unfoldable pub IsNumbered : ℕ → Dict ℕ Frame → Type 0
IsNumbered n [] = Unit {0}
IsNumbered n ((k, frame) ∷ frames) = (k ≡ suc n) × (frame.number ≡ k) × IsNumbered (suc n) frames

-- Frames that fit, with their count of bytes and of the frames that went before them.
pub record Fits (maximum bytes : ℕ) (k : Kept) : Type 0 where
  pub few : length k.frames ≤ maximum
  pub small : k.count ≤ bytes
  pub counted : k.count ≡ total_bytes k.frames
  pub numbered : IsNumbered k.evicted k.frames

pub evict-Fits :
    (maximum bytes : ℕ) (frames : Dict ℕ Frame) (count evicted : ℕ)
    → count ≡ total_bytes frames
    → IsNumbered evicted frames
    → (k : Kept) × (evict maximum bytes frames count evicted ≡ ok k)
      × Fits maximum bytes k
      × (k.evicted + length k.frames ≡ evicted + length frames)
unfolding evict total_bytes IsNumbered
evict-Fits maximum bytes [] count evicted counted numbered = (
  record { frames = []; count = count; evicted = evicted },
  ground (arith, counted),
  record { few = omega arith; small = omega (arith, counted); counted = counted; numbered = tt },
  refl,
)
evict-Fits maximum bytes ((j, frame) ∷ frames) count evicted counted numbered =
    let (k, done, fits, same) =
      evict-Fits maximum bytes frames (count - length frame.content) (suc evicted)
        (omega (arith, counted)) numbered.2 in
    elim (Bool-cases (ltb maximum (suc (length frames)) || ltb bytes count)) [
      | inl over ↦ (k, rw over done, fits, omega (arith, same))
      | inr fine ↦ (
        record { frames = (j, frame) ∷ frames; count = count; evicted = evicted },
        rw fine refl,
        record {
          few = ground (arith, fine);
          small = ground (arith, fine);
          counted = counted;
          numbered = numbered;
        },
        refl,
      )
    ]

pub insert_last :
    (n : ℕ) (frames : Dict ℕ Frame) (k : ℕ) (frame : Frame)
    → IsNumbered n frames
    → n + length frames < k
    → insert frames k frame ≡ frames ++ (k, frame) ∷ []
unfolding insert IsNumbered
insert_last n [] k frame numbered above = refl
insert_last n ((j, old) ∷ frames) k frame numbered above =
    let later = insert_last (suc n) frames k frame numbered.2 (omega (arith, above)) in
    ground (arith, numbered.0, above, later)

pub total_bytes-append :
    (frames : Dict ℕ Frame) (k : ℕ) (frame : Frame)
    → total_bytes (frames ++ (k, frame) ∷ []) ≡ total_bytes frames + length frame.content
unfolding total_bytes
total_bytes-append [] k frame = omega arith
total_bytes-append ((j, old) ∷ frames) k frame = omega (arith, total_bytes-append frames k frame)

pub IsNumbered-append :
    (n : ℕ) (frames : Dict ℕ Frame) (k : ℕ) (frame : Frame)
    → IsNumbered n frames
    → k ≡ suc (n + length frames)
    → frame.number ≡ k
    → IsNumbered n (frames ++ (k, frame) ∷ [])
unfolding IsNumbered
IsNumbered-append n [] k frame numbered next own = (omega (arith, next), own, tt)
IsNumbered-append n ((j, old) ∷ frames) k frame numbered next own = (
  numbered.0,
  numbered.1,
  IsNumbered-append (suc n) frames k frame numbered.2 (omega (arith, next)) own,
)

pub evict-newest :
    (maximum bytes : ℕ) (frames : Dict ℕ Frame) (j : ℕ) (frame : Frame) (count evicted : ℕ)
    {k : Kept}
    → 1 ≤ maximum
    → length frame.content ≤ bytes
    → count ≡ total_bytes (frames ++ (j, frame) ∷ [])
    → evict maximum bytes (frames ++ (j, frame) ∷ []) count evicted ≡ ok k
    → (older : Dict ℕ Frame) × (k.frames ≡ older ++ (j, frame) ∷ [])
unfolding evict total_bytes
evict-newest maximum bytes [] j frame count evicted some_room fits counted done =
    ([], ground (arith, counted, done, fits, some_room))
evict-newest maximum bytes ((i, old) ∷ frames) j frame count evicted some_room fits counted done =
    elim (Bool-cases (ltb maximum (suc (length (frames ++ (j, frame) ∷ []))) || ltb bytes count)) [
      | inl over ↦
          evict-newest maximum bytes frames j frame (count - length old.content) (suc evicted)
            some_room fits (omega (arith, counted)) (sym (rw over refl) ∙ done)
      | inr fine ↦ ((i, old) ∷ frames, ground (arith, fine, done))
    ]
