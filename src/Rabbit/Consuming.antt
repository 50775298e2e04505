-- ===== src/Rabbit/Consuming.antt =====
-- A registration consumes exactly while it is registered and connected, in every interleaving.
use stratae.Prelude.{
  ℕ, suc, Bool, true, false, Option, none, some, List, [], ◌∷◌, ◌≡◌, refl, not, inl, inr,
  Bool-cases, ◌==◌, ◌⊎◌,
}
use stratae.Rabbit.Registrations.{
  unborn, kept, removed, Status, Start, declaring, consuming, World, Move, register, remove,
  advance, connect, connected, fails, lost, cancelled, new_world, cleared, move, run,
}

abbrev world : Status → Option ℕ → Bool → Bool → List Start → List ℕ → List ℕ → ℕ → World
world s t c o starts cancels live next = record {
  status = s;
  tag = t;
  channel = c;
  opening = o;
  starts = starts;
  cancels = cancels;
  live = live;
  next = next;
}

-- The shapes of a world: disconnected; not registered, or removed with all done; a start in flight;
-- consuming; and removed with its start, or its cancel, in flight.
data IsSound : World → Type 0 where
  apart : (n : ℕ) → IsSound (world unborn none false false [] [] [] n)
  down : (t : Option ℕ) (n : ℕ) → IsSound (world kept t false false [] [] [] n)
  down_removed : (t : Option ℕ) (n : ℕ) → IsSound (world removed t false false [] [] [] n)
  vacant : (c : Bool) (n : ℕ) → IsSound (world unborn none c (not c) [] [] [] n)
  finished : (t : Option ℕ) (c : Bool) (n : ℕ) → IsSound (world removed t c (not c) [] [] [] n)
  starting : (s : Start) (n : ℕ) → IsSound (world kept none true false (s ∷ []) [] [] n)
  resuming : (s : Start) (t : Option ℕ) (n : ℕ) → IsSound (world kept t false true (s ∷ []) [] [] n)
  serving : (u : ℕ) (c : Bool) (n : ℕ) → IsSound (world kept (some u) c (not c) [] [] (u ∷ []) n)
  doomed :
      (s : Start) (t : Option ℕ) (n : ℕ) → IsSound (world removed t true false (s ∷ []) [] [] n)
  leaving :
      (u : ℕ) (t : Option ℕ) (n : ℕ) → IsSound (world removed t true false [] (u ∷ []) (u ∷ []) n)

-- The handler is not registered or removed while the connection is being opened.
abbrev pub IsCalm : Move → World → Type 0
IsCalm register w = w.opening ≡ false
IsCalm remove w = w.opening ≡ false
IsCalm _ w = Unit {0}

abbrev pub AreCalm : List Move → World → Type 0
AreCalm [] w = Unit {0}
AreCalm (m ∷ ms) w = IsCalm m w × AreCalm ms (move m w)

cancelled-IsSound : (t : ℕ) (w : World) → IsSound w → IsSound (move (cancelled t) w)
unfolding move
cancelled-IsSound t _ (apart n) = apart n
cancelled-IsSound t _ (down u n) = down u n
cancelled-IsSound t _ (down_removed u n) = down_removed u n
cancelled-IsSound t _ (vacant c n) = vacant c n
cancelled-IsSound t _ (finished u c n) = finished u c n
cancelled-IsSound t _ (starting s n) = starting s n
cancelled-IsSound t _ (resuming s u n) = resuming s u n
cancelled-IsSound t _ (serving u c n) = serving u c n
cancelled-IsSound t _ (doomed s u n) = doomed s u n
cancelled-IsSound t _ (leaving u v n) = elim (Bool-cases (t == u)) [
  | inl i ↦ rw i (rw i (finished (cleared t v) true n))
  | inr i ↦ rw i (leaving u v n)
]

register-IsSound : (w : World) → w.opening ≡ false → IsSound w → IsSound (move register w)
unfolding move
register-IsSound _ c (apart n) = down none n
register-IsSound _ c (down u n) = down u n
register-IsSound _ c (down_removed u n) = down_removed u n
register-IsSound _ c (vacant true n) = starting declaring n
register-IsSound _ c (vacant false n) = cc
register-IsSound _ c (finished u b n) = finished u b n
register-IsSound _ c (starting s n) = starting s n
register-IsSound _ c (resuming s u n) = resuming s u n
register-IsSound _ c (serving u b n) = serving u b n
register-IsSound _ c (doomed s u n) = doomed s u n
register-IsSound _ c (leaving u v n) = leaving u v n

remove-IsSound : (w : World) → w.opening ≡ false → IsSound w → IsSound (move remove w)
unfolding move
remove-IsSound _ c (apart n) = apart n
remove-IsSound _ c (down none n) = down_removed none n
remove-IsSound _ c (down (some u) n) = down_removed (some u) n
remove-IsSound _ c (down_removed u n) = down_removed u n
remove-IsSound _ c (vacant b n) = vacant b n
remove-IsSound _ c (finished u b n) = finished u b n
remove-IsSound _ c (starting s n) = doomed s none n
remove-IsSound _ c (resuming s u n) = cc
remove-IsSound _ c (serving u true n) = leaving u (some u) n
remove-IsSound _ c (serving u false n) = cc
remove-IsSound _ c (doomed s u n) = doomed s u n
remove-IsSound _ c (leaving u v n) = leaving u v n

advance-IsSound : (w : World) → IsSound w → IsSound (move advance w)
unfolding move
advance-IsSound _ (starting declaring n) = starting consuming n
advance-IsSound _ (starting consuming n) = serving n true (suc n)
advance-IsSound _ (resuming declaring u n) = resuming consuming u n
advance-IsSound _ (resuming consuming u n) = serving n false (suc n)
advance-IsSound _ (doomed declaring u n) = doomed consuming u n
advance-IsSound _ (doomed consuming u n) = leaving n none (suc n)
advance-IsSound _ (apart n) = apart n
advance-IsSound _ (down u n) = down u n
advance-IsSound _ (down_removed u n) = down_removed u n
advance-IsSound _ (vacant b n) = vacant b n
advance-IsSound _ (finished u b n) = finished u b n
advance-IsSound _ (serving u b n) = serving u b n
advance-IsSound _ (leaving u v n) = leaving u v n

connect-IsSound : (w : World) → IsSound w → IsSound (move connect w)
unfolding move
connect-IsSound _ (apart n) = vacant false n
connect-IsSound _ (down u n) = resuming declaring u n
connect-IsSound _ (down_removed u n) = finished u false n
connect-IsSound _ (vacant true n) = vacant true n
connect-IsSound _ (vacant false n) = vacant false n
connect-IsSound _ (finished u true n) = finished u true n
connect-IsSound _ (finished u false n) = finished u false n
connect-IsSound _ (starting s n) = starting s n
connect-IsSound _ (resuming s u n) = resuming s u n
connect-IsSound _ (serving u true n) = serving u true n
connect-IsSound _ (serving u false n) = serving u false n
connect-IsSound _ (doomed s u n) = doomed s u n
connect-IsSound _ (leaving u v n) = leaving u v n

connected-IsSound : (w : World) → IsSound w → IsSound (move connected w)
unfolding move
connected-IsSound _ (apart n) = apart n
connected-IsSound _ (down u n) = down u n
connected-IsSound _ (down_removed u n) = down_removed u n
connected-IsSound _ (vacant true n) = vacant true n
connected-IsSound _ (vacant false n) = vacant true n
connected-IsSound _ (finished u true n) = finished u true n
connected-IsSound _ (finished u false n) = finished u true n
connected-IsSound _ (starting s n) = starting s n
connected-IsSound _ (resuming s u n) = resuming s u n
connected-IsSound _ (serving u true n) = serving u true n
connected-IsSound _ (serving u false n) = serving u true n
connected-IsSound _ (doomed s u n) = doomed s u n
connected-IsSound _ (leaving u v n) = leaving u v n

fails-IsSound : (forget : Bool) (w : World) → IsSound w → IsSound (move (fails forget) w)
unfolding move
fails-IsSound f _ (apart n) = apart n
fails-IsSound f _ (down u n) = down u n
fails-IsSound f _ (down_removed u n) = down_removed u n
fails-IsSound f _ (vacant true n) = vacant true n
fails-IsSound true _ (vacant false n) = apart n
fails-IsSound false _ (vacant false n) = apart n
fails-IsSound f _ (finished u true n) = finished u true n
fails-IsSound true _ (finished u false n) = down_removed u n
fails-IsSound false _ (finished u false n) = down_removed u n
fails-IsSound f _ (starting s n) = starting s n
fails-IsSound true _ (resuming s u n) = down none n
fails-IsSound false _ (resuming s u n) = down u n
fails-IsSound f _ (serving u true n) = serving u true n
fails-IsSound true _ (serving u false n) = down none n
fails-IsSound false _ (serving u false n) = down (some u) n
fails-IsSound f _ (doomed s u n) = doomed s u n
fails-IsSound f _ (leaving u v n) = leaving u v n

lost-IsSound : (w : World) → IsSound w → IsSound (move lost w)
unfolding move
lost-IsSound _ (apart n) = apart n
lost-IsSound _ (down u n) = down u n
lost-IsSound _ (down_removed u n) = down_removed u n
lost-IsSound _ (vacant true n) = apart n
lost-IsSound _ (vacant false n) = vacant false n
lost-IsSound _ (finished u true n) = down_removed u n
lost-IsSound _ (finished u false n) = finished u false n
lost-IsSound _ (starting s n) = down none n
lost-IsSound _ (resuming s u n) = resuming s u n
lost-IsSound _ (serving u true n) = down none n
lost-IsSound _ (serving u false n) = serving u false n
lost-IsSound _ (doomed s u n) = down_removed u n
lost-IsSound _ (leaving u v n) = down_removed v n

move-IsSound : (m : Move) (w : World) → IsCalm m w → IsSound w → IsSound (move m w)
move-IsSound register w c s = register-IsSound w c s
move-IsSound remove w c s = remove-IsSound w c s
move-IsSound advance w c s = advance-IsSound w s
move-IsSound connect w c s = connect-IsSound w s
move-IsSound connected w c s = connected-IsSound w s
move-IsSound lost w c s = lost-IsSound w s
move-IsSound (fails forget) w c s = fails-IsSound forget w s
move-IsSound (cancelled t) w c s = cancelled-IsSound t w s

run-IsSound : (ms : List Move) (w : World) → AreCalm ms w → IsSound w → IsSound (run ms w)
unfolding run
run-IsSound [] w c s = s
run-IsSound (m ∷ ms) w c s = run-IsSound ms (move m w) c.1 (move-IsSound m w c.0 s)

-- Without a channel, with its one start in flight and no consumer yet, or with one consumer, whose
-- tag is kept.
abbrev pub IsServed : World → Type 0
IsServed w =
    (w.channel ≡ false)
    ⊎ ((s : Start) × (w.starts ≡ s ∷ []) × (w.live ≡ []))
    ⊎ ((u : ℕ) × (w.starts ≡ []) × (w.live ≡ u ∷ []) × (w.tag ≡ some u) × (w.cancels ≡ []))

-- The live consumers of a registration by its status.
abbrev pub FitsStatus : Status → World → Type 0
FitsStatus unborn w = w.live ≡ []
FitsStatus kept w = IsServed w
FitsStatus removed w = w.live ≡ w.cancels

IsSound-FitsStatus : (w : World) → IsSound w → FitsStatus w.status w
IsSound-FitsStatus _ (apart n) = refl
IsSound-FitsStatus _ (down u n) = inl refl
IsSound-FitsStatus _ (down_removed u n) = refl
IsSound-FitsStatus _ (vacant c n) = refl
IsSound-FitsStatus _ (finished u c n) = refl
IsSound-FitsStatus _ (starting s n) = inr (inl (s, refl, refl))
IsSound-FitsStatus _ (resuming s u n) = inl refl
IsSound-FitsStatus _ (serving u c n) = inr (inr (u, refl, refl, refl, refl))
IsSound-FitsStatus _ (doomed s u n) = refl
IsSound-FitsStatus _ (leaving u v n) = refl

-- In every interleaving of a registration's start and removal with the connection's opening, loss
-- and reopening, where it is not registered or removed while the connection is being opened: a
-- handler that is registered and connected has one start in flight or one live consumer, whose tag
-- it keeps; of one that is removed, the live consumers are those whose cancel is in flight.
pub run-FitsStatus :
    (ms : List Move)
    → AreCalm ms new_world
    → FitsStatus (run ms new_world).status (run ms new_world)
run-FitsStatus ms c = IsSound-FitsStatus (run ms new_world) (run-IsSound ms new_world c (apart 0))
