-- ===== src/Agro/Autopilot/Fits.antt =====
-- The invariant of the autopilot.
use https_gitflic_ru_project.Base.{
  ℕ, suc, ◌<◌, String, Bool, true, false, not, leb, Option, none, some, ◌≡◌, ◌≢◌, arith,
}
use https_gitflic_ru_project.Py.Text.{is_some}
use https_gitflic_ru_project.Py.Value.{Value, text, Fields, truthy, get}
use https_gitflic_ru_project.Py.Act.{ok}
use https_gitflic_ru_project.Agro.Autopilot.{FlightState, pre_flight, completed, Autopilot}
use https_gitflic_ru_project.Agro.Autopilot.Steering.{steps_length, index_or_first}

-- A flight that is not COMPLETED, that is prepared with a mission only, and whose index is that of
-- a step of the mission.
pub record Fits (mission : Option Fields) (state : FlightState) (index : Option ℕ) : Type 0 where
  pub unfinished : state ≢ completed
  pub prepared : state ≡ pre_flight → is_some mission ≡ true
  pub indexed :
      (m : Fields) (i n : ℕ)
      → mission ≡ some m
      → index ≡ some i
      → steps_length (get m "steps") ≡ ok n
      → i < n

abbrev pub IsWellFormed : Autopilot → Type 0
IsWellFormed s = Fits s.mission s.state s.current_step_index

-- The states that need nothing.
abbrev pub is_calm : FlightState → Bool
is_calm completed = false
is_calm pre_flight = false
is_calm _ = true

pub calm_lem :
    (m : Option Fields) (f g : FlightState) (i : Option ℕ)
    → is_calm g ≡ true
    → Fits m f i
    → Fits m g i
calm_lem m f g i e q = record {
  unfinished = λ h. ground arith;
  prepared = λ h. ground arith;
  indexed = q.indexed;
}

pub without_mission : (f : FlightState) → is_calm f ≡ true → Fits none f none
without_mission f e = record {
  unfinished = λ h. ground arith;
  prepared = λ h. ground arith;
  indexed = λ m i n a b l. cc;
}

-- Steps that are there have a length that is not 0.
pub truthy-length : (v : Value) (n : ℕ) → truthy v ≡ true → steps_length v ≡ ok n → 0 < n
unfolding steps_length
truthy-length (text (String.◌∷◌ x s)) n t e = ground arith
truthy-length v n t e = ground arith

pub next_Fits :
    (m : Fields) (i n : ℕ) (o : Option Fields) (f : FlightState) (k : Option ℕ)
    → o ≡ some m
    → steps_length (get m "steps") ≡ ok n
    → Fits o f k
    → leb (suc (suc i)) n ≡ true
    → Fits o f (some (suc i))
next_Fits m i n o f k e l q b = record {
  unfinished = q.unfinished;
  prepared = q.prepared;
  indexed = λ m' j n' e' ix l'. grind arith;
}

pub first_Fits :
    (m : Fields) (o : Option Fields) (f : FlightState) (k : Option ℕ)
    → o ≡ some m
    → not (truthy (get m "steps")) ≡ false
    → Fits o f k
    → Fits o f (some (index_or_first k))
first_Fits m o f (some i) e b q = q
first_Fits m o f none e b q = record {
  unfinished = q.unfinished;
  prepared = q.prepared;
  indexed = λ m' j n e' ix l.
      let mine : m ≡ m' = cc in
      let here : 0 ≡ j = cc in
      let some_steps : 0 < n = truthy-length (get m "steps") n (ground arith) (rw mine l) in
      ground arith;
}
