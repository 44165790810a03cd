-- ===== src/Counter/Exclusion.antt =====
-- goodcnt.c under every schedule.
use s_system_programmin.Common.{
  ℕ, ◌+◌, ◌*◌, ◌%◌, ◌^◌, ◌≤◌, ◌<◌, ◌≡◌, refl, ap, subst, Bool, true, false, Bool-cases, inl, inr,
  Option, none, some, List, [], ◌∷◌, ltb, ◌==◌, arith,
}
use s_system_programmin.Counter.{
  Place, test, held, loaded, stored, finished, Thread, Shared, System, good_step, start, turn, run,
  after_first, after_second,
}

-- Whether a thread is between `P` and `V`, and whether it has stored in this round.
abbrev pub inside : Place → ℕ
inside test = 0
inside held = 1
inside (loaded _) = 1
inside stored = 1
inside finished = 0

abbrev made : Place → ℕ
made test = 0
made held = 0
made (loaded _) = 0
made stored = 1
made finished = 0

-- What a thread that is there knows: inside the loop a round is left, and a loaded value is the
-- counter's.
abbrev Knows : (niters cnt i : ℕ) → Place → Type 0
Knows niters cnt i test = i ≤ niters
Knows niters cnt i held = i < niters
Knows niters cnt i (loaded v) = (i < niters) × (v ≡ cnt)
Knows niters cnt i stored = i < niters
Knows niters cnt i finished = i ≡ niters

record Counts (niters : ℕ) (s : Shared) (i : ℕ) (p : Place) (j : ℕ) (q : Place) : Type 0 where
  pub counted : s.cnt ≡ (i + made p + (j + made q)) % 2 ^ 32
  pub exclusive : s.mutex + inside p + inside q ≡ 1
  pub mine : Knows niters s.cnt i p
  pub other : Knows niters s.cnt j q

Knows-outside :
    (niters c c' j : ℕ) (q : Place) → inside q ≡ 0 → Knows niters c j q → Knows niters c' j q
Knows-outside niters c c' j test e k = k
Knows-outside niters c c' j held e k = k
Knows-outside niters c c' j (loaded v) e k = absurd (omega arith)
Knows-outside niters c c' j stored e k = k
Knows-outside niters c c' j finished e k = k

Counts-swap :
    {n : ℕ} {s : Shared} {i : ℕ} {p : Place} {j : ℕ} {q : Place}
    → Counts n s i p j q
    → Counts n s j q i p
Counts-swap c = record {
  counted = omega (arith, c.counted);
  exclusive = omega (arith, c.exclusive);
  mine = c.other;
  other = c.mine;
}

After :
    (n : ℕ) (s : Shared) (i : ℕ) (p : Place) (j : ℕ) (q : Place) → Option (Shared × Thread) → Type 0
After n s i p j q none = Counts n s i p j q
After n s i p j q (some (t, k)) = Counts n t k.i k.place j q

good_step-Counts :
    (n : ℕ) (s : Shared) (i : ℕ) (p : Place) (j : ℕ) (q : Place)
    → Counts n s i p j q
    → After n s i p j q (good_step n s i p)
unfolding After good_step
good_step-Counts n s i test j q c = elim (Bool-cases (ltb i n)) [
  | inl e ↦ elim (Bool-cases (s.mutex == 0)) [
    | inl e' ↦ rw (e, e') c
    | inr e' ↦
        rw (e, e')
          (record {
            counted = c.counted;
            exclusive = ground (arith, c.exclusive);
            mine = ground arith;
            other = c.other;
          })
  ]
  | inr e ↦ rw e (record {
    counted = c.counted;
    exclusive = c.exclusive;
    mine = ground (arith, c.mine);
    other = c.other;
  })
]
good_step-Counts n s i held j q c = record {
  counted = c.counted;
  exclusive = c.exclusive;
  mine = (c.mine, refl);
  other = c.other;
}
good_step-Counts n s i (loaded v) j q c = record {
  counted = omega (arith, c.counted, c.mine.1);
  exclusive = c.exclusive;
  mine = c.mine.0;
  other = Knows-outside n s.cnt ((v + 1) % 2 ^ 32) j q (omega (arith, c.exclusive)) c.other;
}
good_step-Counts n s i stored j q c = record {
  counted = omega (arith, c.counted);
  exclusive = omega (arith, c.exclusive);
  mine = omega (arith, c.mine);
  other = c.other;
}
good_step-Counts n s i finished j q c = c

Counted : ℕ → System → Type 0
Counted n s = Counts n s.shared s.first.i s.first.place s.second.i s.second.place

first-Counted :
    (n : ℕ) (s : System) (o : Option (Shared × Thread))
    → After n s.shared s.first.i s.first.place s.second.i s.second.place o
    → Counted n (after_first s o)
unfolding After Counted
first-Counted n s none c = c
first-Counted n s (some (t, k)) c = c

second-Counted :
    (n : ℕ) (s : System) (o : Option (Shared × Thread))
    → After n s.shared s.second.i s.second.place s.first.i s.first.place o
    → Counted n (after_second s o)
unfolding After Counted
second-Counted n s none c = Counts-swap c
second-Counted n s (some (t, k)) c = Counts-swap c

turn-Counted : (n : ℕ) (b : Bool) (s : System) → Counted n s → Counted n (turn (good_step n) b s)
unfolding Counted
turn-Counted n true s c =
    first-Counted n s (good_step n s.shared s.first.i s.first.place)
      (good_step-Counts n s.shared s.first.i s.first.place s.second.i s.second.place c)
turn-Counted n false s c =
    second-Counted n s (good_step n s.shared s.second.i s.second.place) (
      good_step-Counts n s.shared s.second.i s.second.place s.first.i s.first.place (Counts-swap c))

run-Counted :
    (n : ℕ) (bs : List Bool) (s : System) → Counted n s → Counted n (run (good_step n) bs s)
run-Counted n [] s c = c
run-Counted n (b ∷ bs) s c = run-Counted n bs (turn (good_step n) b s) (turn-Counted n b s c)

start-Counted : (n : ℕ) → Counted n start
unfolding Counted start
start-Counted n = record {
  counted = refl;
  exclusive = refl;
  mine = omega arith;
  other = omega arith;
}

reached : (n : ℕ) (bs : List Bool) → Counted n (run (good_step n) bs start)
reached n bs = run-Counted n bs start (start-Counted n)

-- Under every schedule of goodcnt.c, at most one of the two threads is between `P` and `V`.
pub run-exclusive :
    (n : ℕ) (bs : List Bool)
    → inside (run (good_step n) bs start).first.place
        + inside (run (good_step n) bs start).second.place
      ≤ 1
unfolding Counted
run-exclusive n bs = omega (arith, (reached n bs).exclusive)

exact_end :
    (n : ℕ) (s : Shared) (i : ℕ) (p : Place) (j : ℕ) (q : Place)
    → Counts n s i p j q
    → p ≡ finished
    → q ≡ finished
    → 2 * n < 2 ^ 31
    → s.cnt ≡ 2 * n
exact_end n s i p j q c e e' b =
    let mine = subst (Knows n s.cnt i) e c.mine in
    let other = subst (Knows n s.cnt j) e' c.other in
    omega (arith, c.counted, mine, other, ap made e, ap made e', b)

-- Whatever the schedule of goodcnt.c, once both threads have returned, the counter is twice the
-- number of iterations, if this is below 2 ^ 31, so that an int can hold it.
pub run-exact :
    (n : ℕ) (bs : List Bool)
    → (run (good_step n) bs start).first.place ≡ finished
    → (run (good_step n) bs start).second.place ≡ finished
    → 2 * n < 2 ^ 31
    → (run (good_step n) bs start).shared.cnt ≡ 2 * n
unfolding Counted
run-exact n bs e e' b =
    let s = run (good_step n) bs start in
    exact_end n s.shared s.first.i s.first.place s.second.i s.second.place (reached n bs) e e' b

stuck_end :
    (n : ℕ) (s : Shared) (i : ℕ) (p : Place) (j : ℕ) (q : Place)
    → Counts n s i p j q
    → good_step n s i p ≡ none
    → good_step n s j q ≡ none
    → p ≡ finished
unfolding good_step
stuck_end n s i finished j q c e e' = refl
stuck_end n s i test j test c e e' = absurd (ground (arith, c.exclusive))
stuck_end n s i test j finished c e e' = absurd (ground (arith, c.exclusive))
stuck_end n s i test j held c e e' = cc
stuck_end n s i test j (loaded v) c e e' = cc
stuck_end n s i test j stored c e e' = cc
stuck_end n s i held j q c e e' = cc
stuck_end n s i (loaded v) j q c e e' = cc
stuck_end n s i stored j q c e e' = cc

-- goodcnt.c never deadlocks: whatever the schedule, if neither thread can make a step, both have
-- returned.
pub run-moves :
    (n : ℕ) (bs : List Bool)
    → good_step n
        (run (good_step n) bs start).shared
        (run (good_step n) bs start).first.i
        (run (good_step n) bs start).first.place
      ≡ none
    → good_step n
        (run (good_step n) bs start).shared
        (run (good_step n) bs start).second.i
        (run (good_step n) bs start).second.place
      ≡ none
    → ((run (good_step n) bs start).first.place ≡ finished)
      × ((run (good_step n) bs start).second.place ≡ finished)
unfolding Counted
run-moves n bs e e' =
    let s = run (good_step n) bs start in
    (
      stuck_end n s.shared s.first.i s.first.place s.second.i s.second.place (reached n bs) e e',
      stuck_end n s.shared s.second.i s.second.place s.first.i s.first.place
          (Counts-swap (reached n bs)) e' e,
    )
