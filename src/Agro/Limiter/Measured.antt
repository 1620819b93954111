-- ===== src/Agro/Limiter/Measured.antt =====
-- What the limiter measures: the distance and the difference in altitude of its last position and
-- the last step of its mission, described by what the values are, not by how they are looked up.
use https_gitflic_ru_project.Base.{
  ◌≡◌, ◌∙◌, ap, subst, refl, inl, inr, true, Option, none, some, Bool-cases,
}
use https_gitflic_ru_project.Py.Float.{Float, of_nat}
use https_gitflic_ru_project.Py.Maths.{Maths}
use https_gitflic_ru_project.Py.Value.{
  Value, null, bool, int, float, text, dict, list, Items, nil, cons, Fields, Runtime, get, or_else,
  truthy, type_error, value_error, attribute_error, key_error, index_error, overflow_error,
}
use https_gitflic_ru_project.Py.Act.{Result, ok, raised}
use https_gitflic_ru_project.Py.Read.{to_float}
use https_gitflic_ru_project.Py.Read.Outcome.{then_check-ok, ok_injective}
use https_gitflic_ru_project.Agro.Limiter.State.{Limiter}
use https_gitflic_ru_project.Agro.Limiter.Judge.{
  Position, position_in, readable, positions, distance_of, alt_deviation, last_item, last_of,
  watched,
}

-- The last item of a list.
abbrev pub IsLast : Items → Value → Type 0
IsLast nil w = ⊥
IsLast (cons v nil) w = v ≡ w
IsLast (cons v (cons u vs)) w = IsLast (cons u vs) w

module _ (rt : Runtime) (maths : Maths) where
  -- A dict that has this position.
  pub record IsAt (v : Value) (p : Position) : Type 0 where
    pub place : Fields
    pub stands : v ≡ dict place
    pub lat_reads : to_float rt (get place "lat") ≡ ok p.lat
    pub lon_reads : to_float rt (get place "lon") ≡ ok p.lon
    pub alt_reads : to_float rt (get place "alt_m") ≡ ok p.alt

  -- The root of the squares of the differences in degrees, times 111000 metres.
  pub record IsDistance (p q : Position) (d : Float) : Type 0 where
    pub lats : Float
    pub lons : Float
    pub root : Float
    pub lats_squared : maths.power (maths.minus p.lat q.lat) (of_nat 2) ≡ ok lats
    pub lons_squared : maths.power (maths.minus p.lon q.lon) (of_nat 2) ≡ ok lons
    pub rooted : maths.power (maths.plus lats lons) (maths.literal "0.5") ≡ ok root
    pub in_metres : maths.times root (of_nat 111000) ≡ d

  -- The limiter has a mission with steps and a position, neither empty, and `d` and `a` are the
  -- distance and the difference in altitude from there to the last step.
  pub record Measures (s : Limiter) (d a : Float) : Type 0 where
    pub mission : Fields
    pub has_mission : s.mission ≡ some mission
    pub mission_filled : truthy (dict mission) ≡ true
    pub nav : Fields
    pub has_nav : s.last_nav ≡ some nav
    pub nav_filled : truthy (dict nav) ≡ true
    pub steps : Items
    pub has_steps : get mission "steps" ≡ list steps
    pub target : Value
    pub ends_there : IsLast steps target
    pub here : Position
    pub there : Position
    pub is_here : IsAt (dict nav) here
    pub is_there : IsAt target there
    pub apart : IsDistance here there d
    pub above : maths.absolute (maths.minus here.alt there.alt) ≡ a

  -- The same by the functions of the code.
  pub record Computed (s : Limiter) (d a : Float) : Type 0 where
    pub mission : Fields
    pub nav : Fields
    pub watches : watched s.mission s.last_nav ≡ some (mission, nav)
    pub filled : truthy (or_else (get mission "steps") (list nil)) ≡ true
    pub target : Value
    pub ends_there : last_of (or_else (get mission "steps") (list nil)) ≡ ok target
    pub here : Position
    pub there : Position
    pub found : readable (positions rt maths nav target) ≡ ok (some (here, there))
    pub apart : distance_of rt maths here there ≡ ok d
    pub above : alt_deviation rt maths here there ≡ a

  IsAt-position_in : (v : Value) (p : Position) → IsAt v p → position_in rt maths v ≡ ok p
  IsAt-position_in v p h = rw (h.stands, h.lat_reads, h.lon_reads, h.alt_reads) refl

  position_in-IsAt : (v : Value) (p : Position) → position_in rt maths v ≡ ok p → IsAt v p
  position_in-IsAt (dict d) p h =
      let x = then_check-ok (to_float rt (get d "lat")) _ p h in
      let y = then_check-ok (to_float rt (get d "lon")) _ p x.2 in
      let z = then_check-ok (to_float rt (get d "alt_m")) _ p y.2 in
      let e = ok_injective z.2 in
      record {
        place = d;
        stands = refl;
        lat_reads = x.1 ∙ ap ok (ap (λ (q : Position). q.lat) e);
        lon_reads = y.1 ∙ ap ok (ap (λ (q : Position). q.lon) e);
        alt_reads = z.1 ∙ ap ok (ap (λ (q : Position). q.alt) e);
      }
  position_in-IsAt null p h = cc
  position_in-IsAt (bool b) p h = cc
  position_in-IsAt (int n) p h = cc
  position_in-IsAt (float x) p h = cc
  position_in-IsAt (text t) p h = cc
  position_in-IsAt (list vs) p h = cc

  IsDistance-distance_of :
      (p q : Position) (d : Float) → IsDistance p q d → distance_of rt maths p q ≡ ok d
  unfolding distance_of
  IsDistance-distance_of p q d h = rw (h.lats_squared, h.lons_squared, h.rooted, h.in_metres) refl

  distance_of-IsDistance :
      (p q : Position) (d : Float) → distance_of rt maths p q ≡ ok d → IsDistance p q d
  unfolding distance_of
  distance_of-IsDistance p q d h =
      let x = then_check-ok (maths.power (maths.minus p.lat q.lat) (of_nat 2)) _ d h in
      let y = then_check-ok (maths.power (maths.minus p.lon q.lon) (of_nat 2)) _ d x.2 in
      let z = then_check-ok (maths.power (maths.plus x.0 y.0) (maths.literal "0.5")) _ d y.2 in
      record {
        lats = x.0;
        lons = y.0;
        root = z.0;
        lats_squared = x.1;
        lons_squared = y.1;
        rooted = z.1;
        in_metres = ok_injective z.2;
      }

  positions-IsAt :
      (nav : Fields) (target : Value) (p q : Position)
      → positions rt maths nav target ≡ ok (p, q)
      → IsAt (dict nav) p × IsAt target q
  unfolding positions
  positions-IsAt nav target p q h =
      let x = then_check-ok (position_in rt maths (dict nav)) _ (p, q) h in
      let y = then_check-ok (position_in rt maths target) _ (p, q) x.2 in
      let e = ok_injective y.2 in
      (
        position_in-IsAt (dict nav) p (x.1 ∙ ap ok (ap (λ (r : Position × Position). r.0) e)),
        position_in-IsAt target q (y.1 ∙ ap ok (ap (λ (r : Position × Position). r.1) e)),
      )

readable_lem : {A : Type 0} (r : Result A) (a : A) → readable r ≡ ok (some a) → r ≡ ok a
readable_lem (ok b) a h = cc
readable_lem (raised type_error) a h = cc
readable_lem (raised value_error) a h = cc
readable_lem (raised attribute_error) a h = cc
readable_lem (raised key_error) a h = cc
readable_lem (raised index_error) a h = cc
readable_lem (raised overflow_error) a h = cc

-- The last item of a list that is not empty, as it is and as the code finds it.
IsLast-last_item : (v : Value) (vs : Items) (w : Value) → IsLast (cons v vs) w → last_item v vs ≡ w
IsLast-last_item v nil w h = h
IsLast-last_item v (cons u vs) w h = IsLast-last_item u vs w h

last_item-IsLast : (v : Value) (vs : Items) (w : Value) → last_item v vs ≡ w → IsLast (cons v vs) w
last_item-IsLast v nil w h = h
last_item-IsLast v (cons u vs) w h = last_item-IsLast u vs w h

IsLast-last_of :
    (steps : Items) (w : Value)
    → IsLast steps w
    → (truthy (list steps) ≡ true) × (last_of (list steps) ≡ ok w)
unfolding last_of
IsLast-last_of nil w h = absurd h
IsLast-last_of (cons v vs) w h = (refl, ap ok (IsLast-last_item v vs w h))

-- What stands for the steps, if its last item is a dict.
last_of-IsLast :
    (v : Value) (d : Fields)
    → last_of v ≡ ok (dict d)
    → (steps : Items) × (v ≡ list steps) × IsLast steps (dict d)
unfolding last_of
last_of-IsLast (list (cons v vs)) d h =
    (cons v vs, refl, last_item-IsLast v vs (dict d) (ok_injective h))
last_of-IsLast (list nil) d h = cc
last_of-IsLast (text t) d h = cc
last_of-IsLast (dict e) d h = cc
last_of-IsLast null d h = cc
last_of-IsLast (bool b) d h = cc
last_of-IsLast (int n) d h = cc
last_of-IsLast (float x) d h = cc

or_else_lem :
    (v : Value) (steps : Items) (w : Value)
    → or_else v (list nil) ≡ list steps
    → IsLast steps w
    → v ≡ list steps
or_else_lem v nil w e h = absurd h
or_else_lem v (cons u us) w e h = elim (Bool-cases (truthy v)) [
  | inl t ↦ rw t at e
  | inr f ↦ cc (rw f at e)
]

watched_lem :
    (m n : Option Fields) (mission nav : Fields)
    → watched m n ≡ some (mission, nav)
    → (m ≡ some mission)
      × (truthy (dict mission) ≡ true)
      × (n ≡ some nav)
      × (truthy (dict nav) ≡ true)
watched_lem none n mission nav h = cc
watched_lem (some a) none mission nav h = cc
watched_lem (some a) (some b) mission nav h = elim (Bool-cases (truthy (dict a))) [
  | inr f ↦ cc (rw f at h)
  | inl t ↦ elim (Bool-cases (truthy (dict b))) [
    | inr f ↦ cc (rw (t, f) at h)
    | inl u ↦
        let e : ◌≡◌ {A = Option (Fields × Fields)} (some (a, b)) (some (mission, nav)) =
          rw (t, u) at h in
        (cc, cc, cc, cc)
  ]
]

module _ (rt : Runtime) (maths : Maths) (s : Limiter) (d a : Float) where
  pub Measures-Computed : Measures rt maths s d a → Computed rt maths s d a
  unfolding positions alt_deviation
  Measures-Computed m =
      let last = IsLast-last_of m.steps m.target m.ends_there in
      record {
        mission = m.mission;
        nav = m.nav;
        watches = rw (m.has_mission, m.has_nav, m.mission_filled, m.nav_filled);
        filled = rw (m.has_steps, last.0) last.0;
        target = m.target;
        ends_there = rw (m.has_steps, last.0) last.1;
        here = m.here;
        there = m.there;
        found =
            rw
              (
                IsAt-position_in rt maths (dict m.nav) m.here m.is_here,
                IsAt-position_in rt maths m.target m.there m.is_there,
              )
              refl;
        apart = IsDistance-distance_of rt maths m.here m.there d m.apart;
        above = m.above;
      }

  pub Computed-Measures : Computed rt maths s d a → Measures rt maths s d a
  unfolding alt_deviation
  Computed-Measures c =
      let at =
        positions-IsAt rt maths c.nav c.target c.here c.there
          (readable_lem (positions rt maths c.nav c.target) (c.here, c.there) c.found) in
      let w = watched_lem s.mission s.last_nav c.mission c.nav c.watches in
      let place = at.1.place in
      let last =
        last_of-IsLast (or_else (get c.mission "steps") (list nil)) place
          (c.ends_there ∙ ap ok at.1.stands) in
      record {
        mission = c.mission;
        has_mission = w.0;
        mission_filled = w.1;
        nav = c.nav;
        has_nav = w.2;
        nav_filled = w.3;
        steps = last.0;
        has_steps = or_else_lem (get c.mission "steps") last.0 (dict place) last.1 last.2;
        target = dict place;
        ends_there = last.2;
        here = c.here;
        there = c.there;
        is_here = at.0;
        is_there = subst (λ (v : Value). IsAt rt maths v c.there) at.1.stands at.1;
        apart = distance_of-IsDistance rt maths c.here c.there d c.apart;
        above = c.above;
      }
