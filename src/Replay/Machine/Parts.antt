-- ===== src/Replay/Machine/Parts.antt =====
-- The parts of the engine's computations, and what they do to the journal and to the uses.
use replay_forge.Base.{
  Bool, Error, List, Option, Result, String, ap, arith, bool_eq, err, false, if◌then◌else◌, nat_eq,
  none, not, ok, option_eq, pair_eq, refl, some, string_eq, subst, sym, true, ℕ, ◌&&◌, ◌+◌, ◌∷◌,
  ◌≡◌, ◌≤◌,
}
use replay_forge.Action.{Action}
use replay_forge.Dict.{insert}
use replay_forge.Interventions.Store.{Store}
use replay_forge.Interventions.LeaseRules.{Leases}
use replay_forge.Capabilities.Artifact.{CapabilityArtifact}
use replay_forge.Capabilities.Json.{Json}
use replay_forge.Replay.Machine.{
  Event, Reply, Run, State, SurfaceError, broken, call, fail, get_outputs, in_leases, in_store,
  in_world, lift, raise, reading, record_event, refused, replied, return, set_field, set_output,
  set_pause_point, try, with_leases, with_store, ◌>>=◌,
}
use replay_forge.Replay.Machine.Grades.{Ends, Grade, Tame, bind-Tame, plain, try-Tame}
use replay_forge.Replay.Engine.{uses_of}
use replay_forge.Replay.Journal.{
  Progress, is_permitted, is_sound, is_start, progress, starts, starts-other, uses_left,
}

module _ {W : Type 0} (artifact : CapabilityArtifact) where
  abbrev pub Good : {A : Type 0} → Grade A → Run W A → Type 0
  Good = Tame (progress artifact)

  -- What leaves the journal and the uses as they are.
  pub unchanged :
      (s t : State W) → t.log ≡ s.log → t.recovery_uses ≡ s.recovery_uses → Progress artifact 0 s t
  unchanged s t same_log same_uses = record {
    spends =
        subst
          (λ u. 0 + uses_left artifact.recoveries u ≤ uses_left artifact.recoveries s.recovery_uses)
          (sym same_uses) (omega arith);
    keeps_sound = λ h. subst (λ l. is_sound artifact l ≡ true) (sym same_log) h;
    counts = λ id. omega (arith, ap (starts id) same_log, ap (λ u. uses_of u id) same_uses);
    limits = λ id. omega (arith, ap (λ u. uses_of u id) same_uses);
  }

  pub return-Good :
      {A : Type 0} (g : Grade A) (a : A) → g.meets a → g.price a ≡ 0 → Good g (return a)
  return-Good g a good free = record {
    at = λ s. (good, subst (λ n. Progress artifact n s s) (sym free) (unchanged s s refl refl));
  }

  pub fail-Good : {A : Type 0} (g : Grade A) (e : SurfaceError) → Good g (fail e)
  fail-Good g e = record { at = λ s. unchanged s s refl refl }

  pub raise-Good : {A : Type 0} (g : Grade A) (e : Error) → Good g (raise e)
  raise-Good g e = record { at = λ s. unchanged s s refl refl }

  -- A part of which nothing is claimed, and what follows it.
  pub seq :
      {A B : Type 0} {g : Grade B} {m : Run W A} {next : A → Run W B}
      → Good plain m
      → ((a : A) → Good g (next a))
      → Good g (m >>= next)
  seq {g = g} {m = m} {next = next} first go =
      bind-Tame (progress artifact) plain g m next first (λ a u. go a)

  reply-Ends :
      {A : Type 0} (s : State W) (x : Reply A × W) → Ends (progress artifact) plain s (in_world x s)
  reply-Ends s (replied a, w) = (tt, unchanged s (record s { world = w }) refl refl)
  reply-Ends s (refused e, w) = unchanged s (record s { world = w }) refl refl
  reply-Ends s (broken e, w) = unchanged s (record s { world = w }) refl refl

  pub call-Good : {A : Type 0} (m : W → Reply A × W) → Good plain (call m)
  unfolding call
  call-Good m = record { at = λ s. reply-Ends s (m s.world) }

  lift-Good :
      {A : Type 0} (g : Grade A) (r : Result A)
      → ((a : A) → g.meets a × (g.price a ≡ 0))
      → Good g (lift r)
  unfolding lift
  lift-Good g (ok a) good = return-Good g a (good a).0 (good a).1
  lift-Good g (err e) good = raise-Good g e

  leases-Ends :
      {A : Type 0} (s : State W) (x : Result A × Leases)
      → Ends (progress artifact) plain s (in_leases x s)
  leases-Ends s (ok a, leases) =
      (tt, unchanged s (record s { store = record s.store { leases = leases } }) refl refl)
  leases-Ends s (err e, leases) =
      unchanged s (record s { store = record s.store { leases = leases } }) refl refl

  pub with_leases-Good : {A : Type 0} (m : Action Leases A) → Good plain (with_leases m)
  unfolding with_leases
  with_leases-Good m = record { at = λ s. leases-Ends s (m s.store.leases) }

  store-Ends :
      {A : Type 0} (s : State W) (x : Result A × Store)
      → Ends (progress artifact) plain s (in_store x s)
  store-Ends s (ok a, store) = (tt, unchanged s (record s { store = store }) refl refl)
  store-Ends s (err e, store) = unchanged s (record s { store = store }) refl refl

  pub with_store-Good : {A : Type 0} (m : Action Store A) → Good plain (with_store m)
  unfolding with_store
  with_store-Good m = record { at = λ s. store-Ends s (m s.store) }

  -- An entry, but the start of a recovery, where it is permitted.
  pub entry :
      (e : Event) (s : State W)
      → not (is_start e) && is_permitted artifact e s.log ≡ true
      → Progress artifact 0 s (record s { log = e ∷ s.log })
  unfolding is_sound
  entry e s permitted = record {
    spends = omega arith;
    keeps_sound = λ h. ground (arith, permitted, h);
    counts = λ id. omega (arith, starts-other id e s.log (ground (arith, permitted)));
    limits = λ id. omega arith;
  }

  -- An entry that is permitted on top of every journal.
  pub record-Good :
      (e : Event)
      → ((log : List Event) → not (is_start e) && is_permitted artifact e log ≡ true)
      → Good plain (record_event e)
  unfolding record_event
  record-Good e permitted = record { at = λ s. (tt, entry e s (permitted s.log)) }

  pub reading-Good : Good plain reading
  unfolding reading
  reading-Good = record {
    at = λ s. (tt, unchanged s (record s { readings = s.readings + 1 }) refl refl);
  }

  pub get_outputs-Good : Good plain get_outputs
  unfolding get_outputs
  get_outputs-Good = record { at = λ s. (tt, unchanged s s refl refl) }

  pub set_output-Good : (name : String) (value : Json) → Good plain (set_output name value)
  unfolding set_output
  set_output-Good name value = record {
    at = λ s. (tt, unchanged s (record s { outputs = set_field s.outputs name value }) refl refl);
  }

  pub set_pause_point-Good :
      (id : String) (retry : Bool) (attempt : ℕ) → Good plain (set_pause_point id retry attempt)
  unfolding set_pause_point
  set_pause_point-Good id retry attempt = record {
    at = λ s. (
      tt,
      unchanged s (record s { pause_points = insert s.pause_points id (retry, attempt) }) refl refl,
    );
  }

  pub if-Good :
      {A : Type 0} {g : Grade A} {m k : Run W A} (b : Bool)
      → Good g m
      → Good g k
      → Good g (if b then m else k)
  if-Good true first second = first
  if-Good false first second = second

  pub if_known-Good :
      {A : Type 0} {g : Grade A} {m k : Run W A} (b : Bool)
      → (b ≡ true → Good g m)
      → Good g k
      → Good g (if b then m else k)
  if_known-Good true first second = first refl
  if_known-Good false first second = second

  pub option-Good :
      {A B : Type 0} {g : Grade B} {m : Run W B} {f : A → Run W B} (o : Option A)
      → Good g m
      → ((a : A) → Good g (f a))
      → Good g (elim o [ none ↦ m | some a ↦ f a ])
  option-Good none first second = first
  option-Good (some a) first second = second a

  -- A part with a claim on its value, and what follows it.
  pub seq_with :
      {A B : Type 0} {f : Grade A} {g : Grade B} {m : Run W A} {next : A → Run W B}
      → Good f m
      → ((a : A) → f.meets a → Good g (next a))
      → Good g (m >>= next)
  seq_with {f = f} {g = g} {m = m} {next = next} = bind-Tame (progress artifact) f g m next

  pub try-Good :
      {A : Type 0} {g : Grade A} {m : Run W A} {h : SurfaceError → Run W A}
      → Good g m
      → ((e : SurfaceError) → Good g (h e))
      → Good g (try m h)
  try-Good {g = g} {m = m} {h = h} = try-Tame (progress artifact) g m h

  pub done : {A : Type 0} (a : A) → Good plain (return a)
  done a = return-Good plain a tt refl

  pub lifted : {A : Type 0} (r : Result A) → Good plain (lift r)
  lifted r = lift-Good plain r (λ a. (tt, refl))
