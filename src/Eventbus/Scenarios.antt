-- ===== src/Eventbus/Scenarios.antt =====
-- A bus of capacity 1 with one publisher and one reader, and the theorems at its states.
use flameping.Prelude.{ℕ, ◌≡◌, refl, ◌≢◌, none, true, false, List, [], ◌∷◌, ◌++◌}
use flameping.Prelude.Int.{pos, ◌+ℤ◌}
use flameping.Eventbus.{
  Bus, new, Point, checking, holding, publishing, counting, waiting, draining, spent, proceed,
  publish, see_closed, releasing, discounting, success, received, act, close, System, Step, Run,
}
use flameping.Eventbus.Invariant.{IsSound, Run-IsSound}
use flameping.Eventbus.Order.{Run_lossless, closed_is_drained}
use flameping.Eventbus.Progress.{committed_never_blocks}

abbrev fresh : Bus ℕ
fresh = record { capacity = 1; slots = 0; queue = []; closed = false; depth = pos 0 }

abbrev full : Bus ℕ
full = record fresh { slots = 1 }

abbrev quiet : System ℕ
quiet = record { bus = fresh; points = [] }

abbrev started : System ℕ
started = record { bus = fresh; points = Point.reserving ∷ [] }

abbrev admitted : System ℕ
admitted = record { bus = full; points = checking ∷ [] }

abbrev granted : System ℕ
granted = record { bus = full; points = holding ∷ [] }

abbrev offered : System ℕ
offered = record { bus = full; points = publishing 7 ∷ [] }

abbrev queued : System ℕ
queued = record { bus = record full { queue = 7 ∷ [] }; points = counting ∷ [] }

abbrev counted : System ℕ
counted = record {
  bus = record full { queue = 7 ∷ []; depth = pos 1 };
  points = spent success ∷ [];
}

abbrev read : System ℕ
read = record {
  bus = record full { queue = 7 ∷ []; depth = pos 1 };
  points = spent success ∷ waiting ∷ [];
}

abbrev got : System ℕ
got = record { bus = record full { depth = pos 1 }; points = spent success ∷ discounting 7 ∷ [] }

abbrev discounted : System ℕ
discounted = record { bus = full; points = spent success ∷ releasing 7 ∷ [] }

abbrev released : System ℕ
released = record { bus = fresh; points = spent success ∷ spent (received 7) ∷ [] }

abbrev ended : System ℕ
ended = record {
  bus = record fresh { closed = true };
  points = spent success ∷ spent (received 7) ∷ [];
}

abbrev asked : System ℕ
asked = record {
  bus = record fresh { closed = true };
  points = spent success ∷ spent (received 7) ∷ waiting ∷ [];
}

abbrev emptied : System ℕ
emptied = record {
  bus = record fresh { closed = true };
  points = spent success ∷ spent (received 7) ∷ draining ∷ [];
}

module _ {s t : System ℕ} {ins outs ins' outs' : List ℕ} where
  abbrev then : Run 1 s ins outs → Step s t ins' outs' → Run 1 t (ins ++ ins') (outs ++ outs')
  then run step = Run.turn s t ins ins' outs outs' (ins ++ ins') (outs ++ outs') run step refl refl

quiet-Run : Run 1 quiet [] []
unfolding new
quiet-Run = Run.start quiet [] [] refl refl refl refl

started-Run : Run 1 started [] []
started-Run = then quiet-Run (Step.reserve refl refl refl)

admitted-Run : Run 1 admitted [] []
unfolding act ◌+ℤ◌
admitted-Run =
    then started-Run
      (Step.move 0 proceed Point.reserving checking admitted.bus refl refl refl refl refl)

granted-Run : Run 1 granted [] []
unfolding act ◌+ℤ◌
granted-Run =
    then admitted-Run (Step.move 0 proceed checking holding granted.bus refl refl refl refl refl)

offered-Run : Run 1 offered [] []
unfolding act ◌+ℤ◌
offered-Run =
    then granted-Run
      (Step.move 0 (publish 7) holding (publishing 7) offered.bus refl refl refl refl refl)

queued-Run : Run 1 queued (7 ∷ []) []
unfolding act ◌+ℤ◌
queued-Run =
    then offered-Run
      (Step.move 0 proceed (publishing 7) counting queued.bus refl refl refl refl refl)

counted-Run : Run 1 counted (7 ∷ []) []
unfolding act ◌+ℤ◌
counted-Run =
    then queued-Run
      (Step.move 0 proceed counting (spent success) counted.bus refl refl refl refl refl)

read-Run : Run 1 read (7 ∷ []) []
read-Run = then counted-Run (Step.next refl refl refl)

got-Run : Run 1 got (7 ∷ []) (7 ∷ [])
unfolding act ◌+ℤ◌
got-Run =
    then read-Run (Step.move 1 proceed waiting (discounting 7) got.bus refl refl refl refl refl)

discounted-Run : Run 1 discounted (7 ∷ []) (7 ∷ [])
unfolding act ◌+ℤ◌
discounted-Run =
    then got-Run
      (Step.move 1 proceed (discounting 7) (releasing 7) discounted.bus refl refl refl refl refl)

released-Run : Run 1 released (7 ∷ []) (7 ∷ [])
unfolding act ◌+ℤ◌
released-Run =
    then discounted-Run
      (Step.move 1 proceed (releasing 7) (spent (received 7)) released.bus refl refl refl refl refl)

ended-Run : Run 1 ended (7 ∷ []) (7 ∷ [])
unfolding close
ended-Run = then released-Run (Step.shut refl refl refl)

asked-Run : Run 1 asked (7 ∷ []) (7 ∷ [])
asked-Run = then ended-Run (Step.next refl refl refl)

emptied-Run : Run 1 emptied (7 ∷ []) (7 ∷ [])
unfolding act ◌+ℤ◌
emptied-Run =
    then asked-Run (Step.move 2 see_closed waiting draining emptied.bus refl refl refl refl refl)

Run-IsSound_example : IsSound queued
Run-IsSound_example = Run-IsSound 1 queued (7 ∷ []) [] queued-Run

Run_lossless_example : ◌≡◌ {A = List ℕ} (7 ∷ []) ([] ++ 7 ∷ [])
Run_lossless_example = Run_lossless 1 queued (7 ∷ []) [] queued-Run

committed_never_blocks_example : act proceed full (publishing 7) ≢ none
committed_never_blocks_example =
    committed_never_blocks 1 offered [] [] 0 (publishing 7) offered-Run refl tt

closed_is_drained_example : (ended.bus.closed ≡ true) × ◌≡◌ {A = List ℕ} (7 ∷ []) (7 ∷ [])
unfolding act
closed_is_drained_example =
    closed_is_drained 1 emptied (7 ∷ []) (7 ∷ []) ended.bus 2 emptied-Run refl refl
