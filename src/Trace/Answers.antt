-- ===== src/Trace/Answers.antt =====
-- internal/trace/runner.go: to which probe a response is attributed, and which hop counts as reached.
use flameping.Prelude.{
  ℕ, zero, suc, ◌+◌, ◌%◌, ◌^◌, ◌≡◌, ◌≢◌, refl, sym, List, [], ◌∷◌, ◌++◌, ◌&&◌, ◌||◌, ltb, leb, ◌==◌,
  if◌then◌else◌, none, some, length, get_elem?, set, arith, if_cases, option_cases, list_cases,
  subst, Bool-cases, inl, inr, get_elem?-set, get_elem?-snoc, get_elem?-length,
}
use flameping.Trace.{Limits, Response, Reply, TraceProbe}
use flameping.Trace.Probes.{
  Flow, Env, Heard, response, broken, Turn, over, refused, leaves, Tracing, Outcome, going,
  timed_out, failed, put, lookup, delete, match_of, quoted_match, has_payload, send_at, send_probe,
  send_hop, send_hops, answer, take_in, listen, windows, begun, trace_loop, TraceResult, report,
  trace_once,
}

lookup-put :
    (m key i : ℕ) (o : List (ℕ × ℕ))
    → lookup m (put key i o) ≡ (if m == key then some i else lookup m o)
unfolding lookup put
lookup-put m key i [] = refl
lookup-put m key i ((k, j) ∷ o) = ground (arith, lookup-put m key i o)

lookup-delete :
    (m key : ℕ) (o : List (ℕ × ℕ))
    → lookup m (delete key o) ≡ (if m == key then none else lookup m o)
unfolding lookup delete
lookup-delete m key [] = ground arith
lookup-delete m key ((k, j) ∷ o) = ground (arith, lookup-delete m key o)

-- What holds of the state of an outcome with no error.
abbrev Always : (Tracing → Type 0) → Outcome → Type 0
Always P (going s) = P s
Always P (timed_out s) = P s
Always P failed = Unit

Always-then :
    (P Q : Tracing → Type 0) (o : Outcome) (f : Tracing → Outcome)
    → Always P o
    → ((s : Tracing) → P s → Q s)
    → ((s : Tracing) → P s → Always Q (f s))
    → Always Q (elim o [ going s ↦ f s | timed_out s ↦ timed_out s | failed ↦ failed ])
Always-then P Q (going s) f h stop next = next s h
Always-then P Q (timed_out s) f h stop next = stop s h
Always-then P Q failed f h stop next = tt

-- What holds of a trace while it runs, for the responses that were heard.
module _ (flow : Flow) (Told : ℕ → Response → Type 0) where
  -- A response of this flow that quotes the probe with a token.
  abbrev pub Answers : ℕ → Reply → Type 0
  Answers token reply =
      (r : Response) × (Told reply.reply_at r
        × (r.source_port ≡ flow.source_port)
        × (quoted_match flow r ≡ match_of flow token)
        × (reply.responder ≡ r.source))

  abbrev pub Genuine : List TraceProbe → Type 0
  Genuine ps =
      (i : ℕ) (p : TraceProbe) (reply : Reply)
      → get_elem? ps i ≡ some p
      → p.reply ≡ some reply
      → Answers p.token reply

  -- Every outstanding entry is of a probe that has no answer yet.
  abbrev Points : List TraceProbe → List (ℕ × ℕ) → Type 0
  Points ps o =
      (m i : ℕ)
      → lookup m o ≡ some i
      → (p : TraceProbe) × ((get_elem? ps i ≡ some p)
          × (p.reply ≡ none)
          × (match_of flow p.token ≡ m))

  -- A hop that counts as reached is one of whose probes the target answered.
  abbrev pub Reaches : List TraceProbe → ℕ → Type 0
  Reaches ps hop =
      hop ≢ 0
      → (i : ℕ) × (p : TraceProbe) × (reply : Reply) × ((get_elem? ps i ≡ some p)
          × (p.reply ≡ some reply)
          × (p.ttl ≡ hop)
          × (flow.plain reply.responder ≡ flow.plain flow.endpoint))

  abbrev Sane : Tracing → Type 0
  Sane s = Genuine s.probes × Points s.probes s.outstanding × Reaches s.probes s.reached_hop

  Points-nil : (ps : List TraceProbe) → Points ps []
  unfolding lookup
  Points-nil ps m i h = cc

  kept :
      (ps : List TraceProbe) (i : ℕ) (p q : TraceProbe)
      → get_elem? ps i ≡ some p
      → get_elem? (ps ++ q ∷ []) i ≡ some p
  kept ps i p q h = ground (arith, get_elem?-snoc ps i q, get_elem?-length ps i p h, h)

  Genuine-sent :
      (ps : List TraceProbe) (q : TraceProbe) → q.reply ≡ none → Genuine ps → Genuine (ps ++ q ∷ [])
  Genuine-sent ps q new h i p reply at answered = elim (Bool-cases (length ps == i)) [
    | inl last ↦ ground (arith, get_elem?-snoc ps i q, last, at, answered, new)
    | inr early ↦ h i p reply (ground (arith, get_elem?-snoc ps i q, early, at)) answered
  ]

  Points-sent :
      (ps : List TraceProbe) (q : TraceProbe) (o : List (ℕ × ℕ))
      → q.reply ≡ none
      → Points ps o
      → Points (ps ++ q ∷ []) (put (match_of flow q.token) (length ps) o)
  Points-sent ps q o new h m i at = elim (Bool-cases (m == match_of flow q.token)) [
    | inl mine ↦ (
      q,
      (
        ground (
          arith,
          get_elem?-snoc ps i q,
          lookup-put m (match_of flow q.token) (length ps) o,
          at,
          mine,
        ),
        new,
        ground (arith, mine),
      ),
    )
    | inr other ↦
        let (p, (there, unanswered, its)) =
          h m i (ground (arith, lookup-put m (match_of flow q.token) (length ps) o, at, other)) in
        (p, (kept ps i p q there, unanswered, its))
  ]

  Reaches-sent :
      (ps : List TraceProbe) (q : TraceProbe) (hop : ℕ)
      → Reaches ps hop
      → Reaches (ps ++ q ∷ []) hop
  Reaches-sent ps q hop h some_hop =
      let (i, p, reply, (there, answered, its, by)) = h some_hop in
      (i, p, reply, (kept ps i p q there, answered, its, by))

  module _ (ps : List TraceProbe) (i : ℕ) (p : TraceProbe) (reply : Reply)
      (here : get_elem? ps i ≡ some p) where
    abbrev q : TraceProbe
    q = record p { reply = some reply }

    Genuine-answered : Genuine ps → Answers p.token reply → Genuine (set ps i q)
    Genuine-answered h a j p' reply' at answered = elim (Bool-cases (i == j)) [
      | inl mine ↦
          let its : some q ≡ some p' = ground (arith, get_elem?-set ps i j p q here, mine, at) in
          let same : reply ≡ reply' = ground (arith, its, answered) in
          let token : p.token ≡ p'.token = ground (arith, its) in
          subst (λ t. Answers t reply') token (subst (λ x. Answers p.token x) same a)
      | inr other ↦
          h j p' reply' (ground (arith, get_elem?-set ps i j p q here, other, at)) answered
    ]

    Points-answered :
        (o : List (ℕ × ℕ))
        → lookup (match_of flow p.token) o ≡ some i
        → Points ps o
        → Points (set ps i q) (delete (match_of flow p.token) o)
    Points-answered o found h m j at = elim (Bool-cases (m == match_of flow p.token)) [
      | inl mine ↦ ground (arith, lookup-delete m (match_of flow p.token) o, at, mine)
      | inr other ↦
          let (p', (there, unanswered, its)) =
            h m j (ground (arith, lookup-delete m (match_of flow p.token) o, at, other)) in
          elim (Bool-cases (i == j)) [
            | inl same ↦ ground (arith, other, its, there, here, same)
            | inr apart ↦
                (p', (ground (arith, get_elem?-set ps i j p q here, apart, there), unanswered, its))
          ]
    ]

    Reaches-answered : (hop : ℕ) → p.reply ≡ none → Reaches ps hop → Reaches (set ps i q) hop
    Reaches-answered hop new h some_hop =
        let (j, p', reply', (there, answered, its, by)) = h some_hop in
        (
          j,
          p',
          reply',
          (
            ground (arith, get_elem?-set ps i j p q here, there, answered, new, here),
            answered,
            its,
            by,
          ),
        )

  answer-Sane :
      (at : ℕ) (r : Response) (i : ℕ) (p : TraceProbe) (s : Tracing)
      → Told at r
      → r.source_port ≡ flow.source_port
      → lookup (quoted_match flow r) s.outstanding ≡ some i
      → get_elem? s.probes i ≡ some p
      → Sane s
      → Sane (answer flow at r i p s)
  unfolding answer
  answer-Sane at r i p s told port found here (genuine, points, reaches) =
      let reply : Reply = record {
        reply_at = at;
        responder = r.source;
        icmp_type = r.icmp_type;
        icmp_code = r.icmp_code;
      } in
      let (p', (there, new, its)) = points (quoted_match flow r) i found in
      let unanswered : p.reply ≡ none = ground (arith, here, there, new) in
      let quotes : match_of flow p.token ≡ quoted_match flow r = ground (arith, here, there, its) in
      (
        Genuine-answered s.probes i p reply here genuine (r, (told, port, sym quotes, refl)),
        subst (λ m. Points (set s.probes i (q s.probes i p reply here)) (delete m s.outstanding))
            quotes
            (Points-answered s.probes i p reply here s.outstanding
              (subst (λ m. lookup m s.outstanding ≡ some i) (sym quotes) found) points),
        if_cases (Reaches (set s.probes i (q s.probes i p reply here)))
            ((r.reached && flow.plain r.source == flow.plain flow.endpoint)
              && (s.reached_hop == 0 || ltb p.ttl s.reached_hop))
            p.ttl s.reached_hop
            (λ closer some_hop. (
              i,
              q s.probes i p reply here,
              reply,
              (
                ground (arith, get_elem?-set s.probes i i p (q s.probes i p reply here) here),
                refl,
                refl,
                ground (arith, closer),
              ),
            ))
            (λ farther. Reaches-answered s.probes i p reply here s.reached_hop unanswered reaches),
      )

  take_in-Sane :
      (at : ℕ) (r : Response) (s : Tracing) → Told at r → Sane s → Sane (take_in flow at r s)
  unfolding take_in
  take_in-Sane at r s told h =
      if_cases Sane (r.source_port == flow.source_port) _ _
        (λ ours.
          option_cases Sane (lookup (quoted_match flow r) s.outstanding) _ _ (λ unknown. h)
            (λ i found.
              option_cases Sane (get_elem? s.probes i) _ _ (λ missing. h)
                (λ p here. answer-Sane at r i p s told (ground (arith, ours)) found here h)))
        (λ foreign. h)

  listen-Sane :
      (hs : List Heard) (s : Tracing)
      → ((i at : ℕ) (r : Response) → get_elem? hs i ≡ some (response at r) → Told at r)
      → Sane s
      → Always Sane (listen flow hs s)
  unfolding listen
  listen-Sane [] s told h = h
  listen-Sane (broken ∷ hs) s told h = list_cases (Always Sane) s.outstanding _ _ h (λ o os. tt)
  listen-Sane (response at r ∷ hs) s told h = list_cases (Always Sane) s.outstanding _ _ h (λ o os.
      listen-Sane hs (take_in flow at r s) (λ i. told (suc i))
        (take_in-Sane at r s (told 0 at r refl) h))

  send_at-Sane :
      (turn : Turn) (ttl index : ℕ) (s : Tracing)
      → Sane s
      → Always Sane (send_at flow turn ttl index s)
  unfolding send_at
  send_at-Sane over ttl index s h = h
  send_at-Sane refused ttl index s h = tt
  send_at-Sane (leaves at) ttl index s (genuine, points, reaches) =
      let token = (s.sequence + 1) % 2 ^ 16 in
      let p : TraceProbe = record {
        ttl = ttl;
        index = index;
        token = token;
        sent_at = at;
        reply = none;
      } in
      if_cases (Always Sane) (has_payload flow token) _ _
        (λ paid. (
          Genuine-sent s.probes p refl genuine,
          Points-sent s.probes p s.outstanding refl points,
          Reaches-sent s.probes p s.reached_hop reaches,
        ))
        (λ unpaid. tt)

  send_hop-Sane :
      (env : Env) (ttl index left : ℕ) (s : Tracing)
      → Sane s
      → Always Sane (send_hop flow env ttl index left s)
  unfolding send_hop
  send_hop-Sane env ttl index zero s h = h
  send_hop-Sane env ttl index (suc left) s h =
      Always-then Sane Sane (send_probe flow env ttl index s) _
        (send_at-Sane (env.turn s.sequence) ttl index s h) (λ s' h'. h')
        (λ s' h'. send_hop-Sane env ttl (index + 1) left s' h')

  send_hops-Sane :
      (env : Env) (per_hop ttl left : ℕ) (s : Tracing)
      → Sane s
      → Always Sane (send_hops flow env per_hop ttl left s)
  unfolding send_hops
  send_hops-Sane env per_hop ttl zero s h = h
  send_hops-Sane env per_hop ttl (suc left) s h =
      Always-then Sane Sane (send_hop flow env ttl 0 per_hop s) _
        (send_hop-Sane env ttl 0 per_hop s h) (λ s' h'. h')
        (λ s' h'. send_hops-Sane env per_hop (ttl + 1) left s' h')

  windows-Sane :
      (limits : Limits) (env : Env) (fuel first : ℕ) (s : Tracing)
      → ((start i at : ℕ) (r : Response)
          → get_elem? (env.heard start) i ≡ some (response at r)
          → Told at r)
      → Sane s
      → Always Sane (windows flow limits env fuel first s)
  unfolding windows
  windows-Sane limits env zero first s told h = h
  windows-Sane limits env (suc fuel) first s told (genuine, points, reaches) =
      if_cases (Always Sane) (leb first limits.max_hops && s.reached_hop == 0) _ _
        (λ more.
          Always-then Sane Sane (send_hops flow env limits.probes_per_hop first _ _) _
            (send_hops-Sane env limits.probes_per_hop first _ _
              (genuine, Points-nil s.probes, reaches))
            (λ s' h'. h')
            (λ s' h'.
              Always-then Sane Sane (listen flow (env.heard first) s') _
                (listen-Sane (env.heard first) s' (told first) h') (λ s'' h''. h'')
                (λ s'' h''.
                  windows-Sane limits env fuel (first + limits.pipeline_hops) s'' told h'')))
        (λ enough. (genuine, points, reaches))

  report-Sane :
      (o : Outcome) (result : TraceResult)
      → Always Sane o
      → report o ≡ some result
      → Genuine result.probes × Reaches result.probes result.reached_hop
  report-Sane (going s) result (genuine, points, reaches) h =
      let probes : s.probes ≡ result.probes = ground (arith, h) in
      let hop : s.reached_hop ≡ result.reached_hop = ground (arith, h) in
      (
        subst Genuine probes genuine,
        subst (Reaches result.probes) hop (subst (λ ps. Reaches ps s.reached_hop) probes reaches),
      )
  report-Sane (timed_out s) result (genuine, points, reaches) h =
      (subst Genuine (ground (arith, h)) genuine, λ some_hop. ground (arith, h, some_hop))
  report-Sane failed result sane h = cc

-- The responses that are heard in some window.
abbrev pub Told : Env → ℕ → Response → Type 0
Told env at r = (start : ℕ) × (i : ℕ) × (get_elem? (env.heard start) i ≡ some (response at r))

-- What a trace reports, completed or not, in any environment: every probe with an answer was answered
-- by a response that was heard, came to this flow's port and quotes this probe, at the time and from the
-- responder written down; and a hop reported as reached is the TTL of a probe that the target answered.
pub trace_once-Genuine :
    (flow : Flow) (limits : Limits) (env : Env) (result : TraceResult)
    → trace_once flow limits env ≡ some result
    → Genuine flow (Told env) result.probes
      × Reaches flow (Told env) result.probes result.reached_hop
unfolding trace_once trace_loop
trace_once-Genuine flow limits env result h =
    report-Sane flow (Told env) (trace_loop flow limits env) result
      (windows-Sane flow (Told env) limits env limits.max_hops 1 (begun flow)
        (λ start i at r heard. (start, i, heard))
        (
          (λ i p reply at answered. cc),
          Points-nil flow (Told env) [],
          (λ some_hop. ground (arith, some_hop)),
        ))
      h
