-- ===== src/Admission/Passage.antt =====
-- A single request from its arrival to its release.
use signalmesh.Base.{ℕ, ◌+◌, ◌-◌, ◌≡◌, refl, ◌∙◌, true, false, not, ◌&&◌, List, [], ◌∷◌, arith}
use signalmesh.Base.Int.{pos, negsuc, add_ℤ, ltb_ℤ, leb_ℤ}
use signalmesh.Admission.{
  Class, Manager, Input, Place, same, is_critical, is_alive, free, put, take, advance, advance_at,
  run,
}

same_refl : (c : Class) → same c c ≡ true
same_refl Class.critical = refl
same_refl Class.normal = refl
same_refl Class.background = refl

step_alone :
    (i : Input) (m m' : Manager) (p p' : Place) (q : advance i m p ≡ (m', p'))
    (ss : List (ℕ × Input))
    → run m (p ∷ []) ((0, i) ∷ ss) ≡ run m' (p' ∷ []) ss
unfolding run advance_at
step_alone i m m' p p' q ss = rw q refl

module _ (i : Input) (m : Manager) (c : Class) where
  enters :
      (ltb_ℤ (pos 0) m.global_max && not (is_critical c) && leb_ℤ m.global_max m.total_active)
        ≡ false
      → advance i m (Place.entering c) ≡ (m, Place.checking c)
  unfolding advance
  enters shed = rw shed refl

  checks : is_alive i.ctx ≡ true → advance i m (Place.checking c) ≡ (m, Place.trying c)
  unfolding advance
  checks alive = rw alive refl

  tries :
      free (m.classes c) ≡ true → advance i m (Place.trying c) ≡ (take m c, Place.slotted false c)
  unfolding advance
  tries slot = rw slot refl

-- The states after `admitted.Add(1)`, `totalActive.Add(1)`, `<-state.sem` and `totalActive.Add(-1)`.
module _ (m : Manager) (c : Class) where
  abbrev after_note : Manager
  after_note =
      let s = (take m c).classes c in put (take m c) c (record s { admitted = s.admitted + 1 })

  abbrev after_count : Manager
  after_count = record after_note { total_active = add_ℤ after_note.total_active (pos 1) }

  abbrev after_slot : Manager
  after_slot = let s = after_count.classes c in put after_count c (record s { sem = s.sem - 1 })

  abbrev after_release : Manager
  after_release = record after_slot { total_active = add_ℤ after_slot.total_active (negsuc 0) }

module _ (i : Input) (m : Manager) (c : Class) where
  notes : advance i (take m c) (Place.slotted false c) ≡ (after_note m c, Place.admitted false c)
  unfolding advance
  notes = refl

  counts : advance i (after_note m c) (Place.admitted false c) ≡ (after_count m c, Place.holding c)
  unfolding advance
  counts = refl

  releases : advance i (after_count m c) (Place.holding c) ≡ (after_slot m c, Place.releasing)
  unfolding advance
  releases = ground (arith, same_refl c)

  leaves : advance i (after_slot m c) Place.releasing ≡ (after_release m c, Place.finished)
  unfolding advance
  leaves = refl

run_nil : (m : Manager) (ps : List Place) → run m ps [] ≡ (m, ps)
unfolding run
run_nil m ps = refl

-- Seven steps of a single request.
abbrev pub seven : Input → List (ℕ × Input)
seven i = (0, i) ∷ (0, i) ∷ (0, i) ∷ (0, i) ∷ (0, i) ∷ (0, i) ∷ (0, i) ∷ []

-- A request that finds a free slot and is not shed is through after seven steps by itself: admitted,
-- counted once, and released with the slots, the waiters and the active requests as before.
pub admits_and_releases :
    (i : Input) (m : Manager) (c d : Class) (a : ℕ)
    → is_alive i.ctx ≡ true
    → free (m.classes c) ≡ true
    → (ltb_ℤ (pos 0) m.global_max && not (is_critical c) && leb_ℤ m.global_max m.total_active)
      ≡ false
    → m.total_active ≡ pos a
    → let (m', ps') = run m (Place.entering c ∷ []) (seven i) in
      (ps' ≡ Place.finished ∷ [])
      × (m'.total_active ≡ m.total_active)
      × ((m'.classes d).sem ≡ (m.classes d).sem)
      × ((m'.classes d).waiters ≡ (m.classes d).waiters)
      × ((m'.classes c).admitted ≡ (m.classes c).admitted + 1)
admits_and_releases i m c d a alive slot shed t = rw (through) (
  refl,
  ground (arith, same_refl c),
  ground (arith, same_refl c),
  ground (arith, same_refl c),
  ground (arith, same_refl c),
)
  where
    through : run m (Place.entering c ∷ []) (seven i) ≡ (after_release m c, Place.finished ∷ [])
    through =
        step_alone i _ _ _ _ (enters i m c shed) _
        ∙ step_alone i _ _ _ _ (checks i m c alive) _
        ∙ step_alone i _ _ _ _ (tries i m c slot) _
        ∙ step_alone i _ _ _ _ (notes i m c) _
        ∙ step_alone i _ _ _ _ (counts i m c) _
        ∙ step_alone i _ _ _ _ (releases i m c) _
        ∙ step_alone i _ _ _ _ (leaves i m c) []
        ∙ run_nil _ _
