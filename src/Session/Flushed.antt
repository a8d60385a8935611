-- ===== src/Session/Flushed.antt =====
-- src/worker.rs: what the writer has sent and released when it returns.
use prometheus_ws_proxy_clie.Base.{
  Result, ok, err, inl, inr, ◌⊎◌, ℕ, ◌+◌, ◌≡◌, refl, ap, List, [], ◌∷◌, ◌++◌, arith, total,
  total-append,
}
use prometheus_ws_proxy_clie.Error.{BoxError}
use prometheus_ws_proxy_clie.Timing.{Duration}
use prometheus_ws_proxy_clie.Memory.{MemoryBudget, drop}
use prometheus_ws_proxy_clie.Memory.Acquire.{IsSound, Holds, released, drop-released}
use prometheus_ws_proxy_clie.Delivery.Encode.{EncodedResponse}
use prometheus_ws_proxy_clie.Session.{Message, text, ping_frame, pong_frame, binary, frame, close}
use prometheus_ws_proxy_clie.Session.Accounts.{drop_queue-released, queued_bytes}
use prometheus_ws_proxy_clie.Session.Writer.{
  or_stops, Sink, Arrival, Written, Writing, goes, stops, frame_of, write_control, write_bulk,
  select, drain, run_writer,
}
use prometheus_ws_proxy_clie.Session.{drop_queue}

-- The bytes that arrivals bring.
abbrev pub arrived : List Arrival → ℕ
arrived = total λ a. queued_bytes a.1

abbrev pub IsClose : Message → Type 0
IsClose (close _) = Unit
IsClose _ = ⊥

abbrev pub AnyClose : List Message → Type 0
AnyClose [] = ⊥
AnyClose (m ∷ ms) = IsClose m ⊎ AnyClose ms

abbrev pub AnyArrives : List Arrival → Type 0
AnyArrives [] = ⊥
AnyArrives ((ms, _) ∷ arrivals) = AnyClose ms ⊎ AnyArrives arrivals

abbrev pub IsErr : Result BoxError (Unit {0}) → Type 0
IsErr (ok _) = ⊥
IsErr (err _) = Unit

-- What may end the writer before its senders are gone: an error, or a close frame that is queued or
-- arrives.
abbrev pub IsCut : Result BoxError (Unit {0}) → List Message → List Arrival → Type 0
IsCut result control arrivals = IsErr result ⊎ AnyClose control ⊎ AnyArrives arrivals

-- Of `arrivals`, some have been received, and all of them if nothing has cut the writer off; what they
-- brought is released, with `queued` bytes more.
abbrev pub Releases : List Message → ℕ → List Arrival → MemoryBudget → Written → Type 0
Releases control queued arrivals b (result, sent, b') =
    (received : List Arrival) × (late : List Arrival) × (received ++ late ≡ arrivals)
    × ((late ≡ []) ⊎ IsCut result control arrivals)
    × IsSound b'
    × (b'.used + queued + arrived received ≡ b.used)

-- What a turn leaves in the queues.
abbrev rest_control : List Message → List Message
rest_control [] = []
rest_control (m ∷ control) = control

abbrev rest_bulk : List Message → List EncodedResponse → List EncodedResponse
rest_bulk (m ∷ control) bulk = bulk
rest_bulk [] (x ∷ bulk) = bulk
rest_bulk [] [] = []

AnyClose-append : (xs ys : List Message) → AnyClose (xs ++ ys) → AnyClose xs ⊎ AnyClose ys
AnyClose-append [] ys c = inr c
AnyClose-append (x ∷ xs) ys (inl here) = inl (inl here)
AnyClose-append (x ∷ xs) ys (inr later) = elim (AnyClose-append xs ys later) [
  | inl c ↦ inl (inr c)
  | inr c ↦ inr c
]

AnyClose-rest : (control : List Message) → AnyClose (rest_control control) → AnyClose control
AnyClose-rest [] c = c
AnyClose-rest (m ∷ control) c = inr c

-- A turn that ends the writer has failed, or its message was a close frame.
abbrev StopsFor : Type 0 → Writing → Type 0
StopsFor P goes = Unit
StopsFor P (stops result _) = IsErr result ⊎ P

or_stops-StopsFor :
    (P : Type 0) (result : Result BoxError (Unit {0})) → StopsFor P (or_stops result)
or_stops-StopsFor P (ok _) = tt
or_stops-StopsFor P (err _) = inl tt

IsCut-later :
    (result : Result BoxError (Unit {0})) (control ms : List Message) (xs : List EncodedResponse)
    (late arrivals : List Arrival)
    → (late ≡ []) ⊎ IsCut result (control ++ ms) arrivals
    → (late ≡ []) ⊎ IsCut result control ((ms, xs) ∷ arrivals)
IsCut-later result control ms xs late arrivals (inl all) = inl all
IsCut-later result control ms xs late arrivals (inr (inl e)) = inr (inl e)
IsCut-later result control ms xs late arrivals (inr (inr (inr c))) = inr (inr (inr (inr c)))
IsCut-later result control ms xs late arrivals (inr (inr (inl c))) =
    elim (AnyClose-append control ms c) [
      | inl here ↦ inr (inr (inl here))
      | inr comes ↦ inr (inr (inr (inl comes)))
    ]

IsCut-rest :
    (result : Result BoxError (Unit {0})) (control : List Message) (late arrivals : List Arrival)
    → (late ≡ []) ⊎ IsCut result (rest_control control) arrivals
    → (late ≡ []) ⊎ IsCut result control arrivals
IsCut-rest result control late arrivals (inl all) = inl all
IsCut-rest result control late arrivals (inr (inl e)) = inr (inl e)
IsCut-rest result control late arrivals (inr (inr (inl c))) =
    inr (inr (inl (AnyClose-rest control c)))
IsCut-rest result control late arrivals (inr (inr (inr c))) = inr (inr (inr c))

module _ (sink : Sink) (transfer : ℕ → Duration) (send_timeout : Duration) where
  write_control-StopsFor :
      (sent : List Message) (m : Message)
      → StopsFor (IsClose m) (write_control sink transfer send_timeout sent m)
  unfolding write_control
  write_control-StopsFor sent (close f) = inr tt
  write_control-StopsFor sent (text m) = or_stops-StopsFor _ _
  write_control-StopsFor sent (ping_frame m) = or_stops-StopsFor _ _
  write_control-StopsFor sent (pong_frame m) = or_stops-StopsFor _ _
  write_control-StopsFor sent (binary m) = or_stops-StopsFor _ _
  write_control-StopsFor sent (frame m) = or_stops-StopsFor _ _

  write_bulk-StopsFor :
      (sent : List Message) (x : EncodedResponse)
      → StopsFor ⊥ (write_bulk sink transfer send_timeout sent x)
  unfolding write_bulk
  write_bulk-StopsFor sent x = or_stops-StopsFor _ _

  -- What follows a turn releases the rest.
  select-Releases :
      (sent control : List Message) (bulk : List EncodedResponse) (b : MemoryBudget)
      (arrivals : List Arrival)
      (next : List Message → List Message → List EncodedResponse → MemoryBudget → Written)
      → Holds (queued_bytes bulk + arrived arrivals) b
      → ((s : List Message) (b' : MemoryBudget)
          → Holds (queued_bytes (rest_bulk control bulk) + arrived arrivals) b'
          → Releases
              (rest_control control)
              (queued_bytes (rest_bulk control bulk))
              arrivals
              b'
              (next s (rest_control control) (rest_bulk control bulk) b'))
      → Releases control
          (queued_bytes bulk)
          arrivals
          b
          (select sink transfer send_timeout sent control bulk b next)
  unfolding select
  select-Releases sent (m ∷ control) bulk b arrivals next h k =
      go (write_control sink transfer send_timeout sent m) (write_control-StopsFor sent m)
    where
      go :
          (w : Writing)
          → StopsFor (IsClose m) w
          → Releases (m ∷ control) (queued_bytes bulk) arrivals b (elim w [
            | stops result last ↦ (result, sent ++ last, drop_queue bulk b)
            | goes ↦ next (sent ++ (m ∷ [])) control bulk b
          ])
      go goes u =
          let (received, late, whole, cut, sound, all) = k (sent ++ (m ∷ [])) b h in
          (received, late, whole, IsCut-rest _ (m ∷ control) late arrivals cut, sound, all)
      go (stops result last) u =
          let (sound, all) = drop_queue-released bulk b (ground arith) in
          (
            [],
            arrivals,
            refl,
            elim u [ inl e ↦ inr (inl e) | inr c ↦ inr (inr (inl (inl c))) ],
            sound,
            omega (arith, all),
          )
  select-Releases sent [] (x ∷ bulk) b arrivals next h k =
      go (write_bulk sink transfer send_timeout sent x) (write_bulk-StopsFor sent x)
    where
      freed : drop x.reservation b ≡ released x.reservation.bytes b
      freed = drop-released x.reservation b (ground arith)

      go :
          (w : Writing)
          → StopsFor ⊥ w
          → Releases [] (queued_bytes (x ∷ bulk)) arrivals b (elim w [
            | stops result last ↦ (result, sent ++ last, drop_queue bulk (drop x.reservation b))
            | goes ↦ next (sent ++ (frame_of x ∷ [])) [] bulk (drop x.reservation b)
          ])
      go goes u =
          let (received, late, whole, cut, sound, all) =
            k (sent ++ (frame_of x ∷ [])) (drop x.reservation b) (ground (arith, freed)) in
          (received, late, whole, cut, sound, ground (arith, all, freed))
      go (stops result last) u =
          let (sound, all) =
            drop_queue-released bulk (drop x.reservation b) (ground (arith, freed)) in
          (
            [],
            arrivals,
            refl,
            elim u [ inl e ↦ inr (inl e) | inr c ↦ absurd c ],
            sound,
            ground (arith, all, freed),
          )
  select-Releases sent [] [] b arrivals next h k = k sent b h

  drain-Releases :
      (sent control : List Message) (bulk : List EncodedResponse) (b : MemoryBudget)
      → Holds (queued_bytes bulk) b
      → Releases control
          (queued_bytes bulk)
          []
          b
          (drain sink transfer send_timeout sent control bulk b)
  unfolding drain
  drain-Releases sent (m ∷ control) bulk b h =
      select-Releases sent (m ∷ control) bulk b []
        (λ s _ _ b'. drain sink transfer send_timeout s control bulk b') (omega (arith, h))
        λ s b' h'. drain-Releases s control bulk b' (omega (arith, h'))
  drain-Releases sent [] (x ∷ bulk) b h =
      select-Releases sent [] (x ∷ bulk) b []
        (λ s _ _ b'. drain sink transfer send_timeout s [] bulk b') (omega (arith, h))
        λ s b' h'. drain-Releases s [] bulk b' (omega (arith, h'))
  drain-Releases sent [] [] b h = ([], [], refl, inl refl, h.0, ground arith)

  -- Over any arrivals, after which its senders are gone, the writer returns, and has then released
  -- every response that was in the bulk queue and every one of the arrivals that it has received:
  -- the usage has gone down by exactly their bytes. It has received all arrivals, unless it has
  -- ended with an error or a close frame was in the control queue or among them.
  pub run_writer-Releases :
      (arrivals : List Arrival) (sent control : List Message) (bulk : List EncodedResponse)
      (b : MemoryBudget)
      → Holds (queued_bytes bulk + arrived arrivals) b
      → Releases control
          (queued_bytes bulk)
          arrivals
          b
          (run_writer sink transfer send_timeout arrivals sent control bulk b)
  unfolding run_writer
  run_writer-Releases [] sent control bulk b h =
      drain-Releases sent control bulk b (omega (arith, h))
  run_writer-Releases ((ms, xs) ∷ arrivals) sent control bulk b h =
      let both = total-append (λ (y : EncodedResponse). y.reservation.bytes) bulk xs in
      let (received, late, whole, cut, sound, all) =
        select-Releases sent (control ++ ms) (bulk ++ xs) b arrivals
          (run_writer sink transfer send_timeout arrivals) (omega (arith, h, both))
          (λ s b' h'. run_writer-Releases arrivals s _ _ b' h') in
      (
        (ms, xs) ∷ received,
        late,
        ap (λ rest. (ms, xs) ∷ rest) whole,
        IsCut-later _ control ms xs late arrivals cut,
        sound,
        omega (arith, all, both),
      )
