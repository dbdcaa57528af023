-- ===== src/Trace/Coverage.antt =====
-- internal/trace/runner.go: which probes a completed trace has sent.
use flameping.Prelude.{
  ℕ, zero, suc, ◌+◌, ◌-◌, ◌%◌, ◌^◌, ◌≤◌, ◌<◌, ◌≡◌, refl, sym, ap, ◌∙◌, min, List, [], ◌∷◌, ◌++◌,
  ◌&&◌, leb, ◌==◌, some, get_elem?, set, map, append-nil, append_assoc, arith, if_cases,
  option_cases, list_cases,
}
use flameping.Trace.{Limits, Response, TraceProbe}
use flameping.Trace.Probes.{
  Flow, Env, Heard, response, broken, Turn, over, refused, leaves, Tracing, Outcome, going,
  timed_out, failed, has_payload, send_at, send_probe, send_hop, send_hops, answer, take_in,
  quoted_match, lookup, listen, windows, begun, trace_loop,
}

-- What holds of the state of an outcome with no error and no timeout.
abbrev pub After : (Tracing → Type 0) → Outcome → Type 0
After P (going s) = P s
After P (timed_out s) = Unit
After P failed = Unit

pub After-then :
    (P Q : Tracing → Type 0) (o : Outcome) (f : Tracing → Outcome)
    → After P o
    → ((s : Tracing) → P s → After Q (f s))
    → After Q (elim o [ going s ↦ f s | timed_out s ↦ timed_out s | failed ↦ failed ])
After-then P Q (going s) f h next = next s h
After-then P Q (timed_out s) f h next = tt
After-then P Q failed f h next = tt

After-map :
    {P Q : Tracing → Type 0} → ((s : Tracing) → P s → Q s) → (o : Outcome) → After P o → After Q o
After-map f (going s) h = f s h
After-map f (timed_out s) h = tt
After-map f failed h = tt

-- The TTL and the index of a probe.
abbrev pub place : TraceProbe → ℕ × ℕ
place p = (p.ttl, p.index)

-- The probes of one hop from an index on, and of hops from a TTL on.
unfoldable pub row : ℕ → ℕ → ℕ → List (ℕ × ℕ)
row ttl index zero = []
row ttl index (suc n) = (ttl, index) ∷ row ttl (index + 1) n

unfoldable pub rows : ℕ → ℕ → ℕ → List (ℕ × ℕ)
rows per_hop ttl zero = []
rows per_hop ttl (suc n) = row ttl 0 per_hop ++ rows per_hop (ttl + 1) n

rows-append :
    (per_hop ttl m n : ℕ)
    → rows per_hop ttl (m + n) ≡ rows per_hop ttl m ++ rows per_hop (ttl + m) n
unfolding rows
rows-append per_hop ttl zero n =
    let nothing : 0 + n ≡ n = omega arith in
    let here : ttl + 0 ≡ ttl = omega arith in rw (nothing, here) refl
rows-append per_hop ttl (suc m) n =
    let one_more : suc m + n ≡ suc (m + n) = omega arith in
    let later : ttl + suc m ≡ ttl + 1 + m = omega arith in
    rw (one_more, later, rows-append per_hop (ttl + 1) m n)
      (sym (
        append_assoc (row ttl 0 per_hop) (rows per_hop (ttl + 1) m) (rows per_hop (ttl + 1 + m) n)))

map-append : (xs ys : List TraceProbe) → map place (xs ++ ys) ≡ map place xs ++ map place ys
map-append [] ys = refl
map-append (x ∷ xs) ys = ap (λ l. place x ∷ l) (map-append xs ys)

map-set :
    (ps : List TraceProbe) (i : ℕ) (p q : TraceProbe)
    → get_elem? ps i ≡ some p
    → place q ≡ place p
    → map place (set ps i q) ≡ map place ps
map-set [] i p q h same = refl
map-set (x ∷ ps) zero p q h same = ground (arith, h, same)
map-set (x ∷ ps) (suc i) p q h same = ap (λ l. place x ∷ l) (map-set ps i p q h same)

module _ (flow : Flow) (env : Env) where
  -- The places of the probes, and whether a hop was reached.
  abbrev Sent : List (ℕ × ℕ) → ℕ → Tracing → Type 0
  Sent places reached s = (map place s.probes ≡ places) × (s.reached_hop ≡ reached)

  send_at-Sent :
      (turn : Turn) (ttl index reached : ℕ) (places : List (ℕ × ℕ)) (s : Tracing)
      → Sent places reached s
      → After (Sent (places ++ (ttl, index) ∷ []) reached) (send_at flow turn ttl index s)
  unfolding send_at
  send_at-Sent over ttl index reached places s h = tt
  send_at-Sent refused ttl index reached places s h = tt
  send_at-Sent (leaves at) ttl index reached places s (h, same) =
      if_cases (After (Sent (places ++ (ttl, index) ∷ []) reached))
        (has_payload flow ((s.sequence + 1) % 2 ^ 16)) _ _
        (λ paid. (map-append s.probes _ ∙ ap (λ l. l ++ (ttl, index) ∷ []) h, same)) (λ unpaid. tt)

  send_hop-Sent :
      (left ttl index reached : ℕ) (places : List (ℕ × ℕ)) (s : Tracing)
      → Sent places reached s
      → After (Sent (places ++ row ttl index left) reached) (send_hop flow env ttl index left s)
  unfolding send_hop row
  send_hop-Sent zero ttl index reached places s (h, same) = (h ∙ sym (append-nil places), same)
  send_hop-Sent (suc left) ttl index reached places s h =
      rw (sym (append_assoc places ((ttl, index) ∷ []) (row ttl (index + 1) left))) (
        After-then _ _ (send_probe flow env ttl index s) _
          (send_at-Sent (env.turn s.sequence) ttl index reached places s h)
          (λ s' h'. send_hop-Sent left ttl (index + 1) reached (places ++ (ttl, index) ∷ []) s' h'))

  send_hops-Sent :
      (left per_hop ttl reached : ℕ) (places : List (ℕ × ℕ)) (s : Tracing)
      → Sent places reached s
      → After
          (Sent (places ++ rows per_hop ttl left) reached)
          (send_hops flow env per_hop ttl left s)
  unfolding send_hops rows
  send_hops-Sent zero per_hop ttl reached places s (h, same) = (h ∙ sym (append-nil places), same)
  send_hops-Sent (suc left) per_hop ttl reached places s h =
      rw (sym (append_assoc places (row ttl 0 per_hop) (rows per_hop (ttl + 1) left))) (
        After-then _ _ (send_hop flow env ttl 0 per_hop s) _
          (send_hop-Sent per_hop ttl 0 reached places s h)
          (λ s' h'.
            send_hops-Sent left per_hop (ttl + 1) reached (places ++ row ttl 0 per_hop) s' h'))

  take_in-places :
      (at : ℕ) (r : Response) (s : Tracing)
      → map place (take_in flow at r s).probes ≡ map place s.probes
  unfolding take_in answer
  take_in-places at r s =
      if_cases (λ (x : Tracing). map place x.probes ≡ map place s.probes)
        (r.source_port == flow.source_port) _ _
        (λ ours.
          option_cases (λ (x : Tracing). map place x.probes ≡ map place s.probes)
            (lookup (quoted_match flow r) s.outstanding) _ _ (λ unknown. refl)
            (λ i e.
              option_cases (λ (x : Tracing). map place x.probes ≡ map place s.probes)
                (get_elem? s.probes i) _ _ (λ missing. refl)
                (λ p k. map-set s.probes i p _ k refl)))
        (λ foreign. refl)

  listen-places :
      (places : List (ℕ × ℕ)) (hs : List Heard) (s : Tracing)
      → map place s.probes ≡ places
      → After (λ x. map place x.probes ≡ places) (listen flow hs s)
  unfolding listen
  listen-places places [] s h = h
  listen-places places (broken ∷ hs) s h =
      list_cases (After (λ x. map place x.probes ≡ places)) s.outstanding _ _ h (λ o os. tt)
  listen-places places (response at r ∷ hs) s h =
      list_cases (After (λ x. map place x.probes ≡ places)) s.outstanding _ _ h
        (λ o os. listen-places places hs (take_in flow at r s) (take_in-places at r s ∙ h))

module _ (flow : Flow) (limits : Limits) (env : Env) where
  -- All probes up to a hop were sent, and up to the last one unless a hop was reached.
  abbrev pub Covers : Tracing → Type 0
  Covers s =
      (h : ℕ) × ((map place s.probes ≡ rows limits.probes_per_hop 1 h)
        × (h ≤ limits.max_hops)
        × (s.reached_hop ≡ 0 → h ≡ limits.max_hops))

  windows-Covers :
      (fuel first h : ℕ) (s : Tracing)
      → 0 < limits.pipeline_hops
      → map place s.probes ≡ rows limits.probes_per_hop 1 h
      → h ≡ min (first - 1) limits.max_hops
      → 0 < first
      → limits.max_hops < first + fuel
      → After Covers (windows flow limits env fuel first s)
  unfolding windows
  windows-Covers zero first h s pace places here later enough =
      (h, (places, omega (arith, here), λ unreached. omega (arith, here, enough)))
  windows-Covers (suc fuel) first h s pace places here later enough =
      if_cases (After Covers) (leb first limits.max_hops && s.reached_hop == 0) _ _
        (λ more.
          let hops = min limits.pipeline_hops (limits.max_hops + 1 - first) in
          let next : 1 + h ≡ first = ground (arith, more, here, later) in
          After-then (λ s'. map place s'.probes ≡ rows limits.probes_per_hop 1 (h + hops)) Covers
            (send_hops flow env limits.probes_per_hop first hops (record s { outstanding = [] })) _
            (rw (rows-append limits.probes_per_hop 1 h hops, next)
              (After-map
                {P = Sent flow env
                  (rows limits.probes_per_hop 1 h ++ rows limits.probes_per_hop first hops)
                  s.reached_hop}
                (λ s' h'. h'.0) _
                (send_hops-Sent flow env hops limits.probes_per_hop first s.reached_hop
                  (rows limits.probes_per_hop 1 h) (record s { outstanding = [] }) (places, refl))))
            (λ s' sent'.
              After-then (λ x. map place x.probes ≡ rows limits.probes_per_hop 1 (h + hops)) Covers
                (listen flow (env.heard first) s') _
                (listen-places flow env (rows limits.probes_per_hop 1 (h + hops)) (env.heard first)
                  s' sent')
                (λ s'' heard'.
                  windows-Covers fuel (first + limits.pipeline_hops) (h + hops) s'' pace heard'
                    (ground (arith, more, here, later, pace)) (omega (arith, later))
                    (omega (arith, pace, enough)))))
        (λ enough'. (
          h,
          (
            places,
            omega (arith, here),
            λ unreached. ground (arith, here, later, enough', unreached),
          ),
        ))

  -- Where a window has at least one hop, the loop over the windows ends before its fuel, and a trace that
  -- was neither cut off nor failed has sent exactly the probes of the hops from the first one on, each
  -- hop's in the order of their indices: of all hops, unless one was reached.
  pub trace_loop-Covers : 0 < limits.pipeline_hops → After Covers (trace_loop flow limits env)
  unfolding trace_loop rows
  trace_loop-Covers pace =
      windows-Covers limits.max_hops 1 0 (begun flow) pace refl (omega arith) (omega arith)
        (omega arith)
