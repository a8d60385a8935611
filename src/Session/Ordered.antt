-- ===== src/Session/Ordered.antt =====
-- src/worker.rs: the order in which the writer sends what is queued.
use prometheus_ws_proxy_clie.Base.{
  ℕ, ◌≡◌, refl, sym, ◌∙◌, ap, Option, some, ok, List, [], ◌∷◌, ◌++◌, All, len,
}
use mathlib.Core.List.{append_assoc, append-nil}
use prometheus_ws_proxy_clie.Timing.{Duration, bulk_send_timeout}
use prometheus_ws_proxy_clie.Memory.{MemoryBudget, drop}
use prometheus_ws_proxy_clie.Delivery.Encode.{EncodedResponse}
use prometheus_ws_proxy_clie.Session.{
  Message, text, ping_frame, pong_frame, binary, frame, close, CloseFrame,
}
use prometheus_ws_proxy_clie.Session.Writer.{
  Sink, Written, goes, frame_of, send_ws, write_control, write_bulk, select, drain,
}
use prometheus_ws_proxy_clie.Session.{drop_queue}

module _ (sink : Sink) (transfer : ℕ → Duration) (send_timeout : Duration) where
  -- The message is not a close frame.
  abbrev pub IsOpen : Message → Type 0
  IsOpen (close _) = ⊥
  IsOpen _ = Unit

  write_control-open :
      ((s : List Message) (m : Message) (d : Duration) → sink s m d ≡ some (ok tt))
      → (sent : List Message) (m : Message) → IsOpen m
      → write_control sink transfer send_timeout sent m ≡ goes
  unfolding write_control send_ws
  write_control-open works sent (text m) o = rw (works sent (text m) send_timeout, send_ws) refl
  write_control-open works sent (ping_frame m) o =
      rw (works sent (ping_frame m) send_timeout, send_ws) refl
  write_control-open works sent (pong_frame m) o =
      rw (works sent (pong_frame m) send_timeout, send_ws) refl
  write_control-open works sent (binary m) o = rw (works sent (binary m) send_timeout, send_ws) refl
  write_control-open works sent (frame m) o = rw (works sent (frame m) send_timeout, send_ws) refl
  write_control-open works sent (close f) o = absurd o

  abbrev pub frames : List EncodedResponse → List Message
  frames [] = []
  frames (x ∷ bulk) = frame_of x ∷ frames bulk

  write_bulk_works :
      ((s : List Message) (m : Message) (d : Duration) → sink s m d ≡ some (ok tt))
      → (sent : List Message) (x : EncodedResponse)
      → write_bulk sink transfer send_timeout sent x ≡ goes
  unfolding write_bulk send_ws
  write_bulk_works works sent x =
      rw (works sent (frame_of x) (bulk_send_timeout transfer send_timeout (len x.json)), send_ws)
        refl

  select_control :
      ((s : List Message) (m : Message) (d : Duration) → sink s m d ≡ some (ok tt))
      → (sent : List Message) (m : Message) → IsOpen m
      → (control : List Message) (bulk : List EncodedResponse) (b : MemoryBudget)
        (next : List Message → List Message → List EncodedResponse → MemoryBudget → Written)
      → select sink transfer send_timeout sent (m ∷ control) bulk b next
        ≡ next (sent ++ (m ∷ [])) control bulk b
  unfolding select
  select_control works sent m o control bulk b next =
      rw (write_control-open works sent m o, select) refl

  select_bulk :
      ((s : List Message) (m : Message) (d : Duration) → sink s m d ≡ some (ok tt))
      → (sent : List Message) (x : EncodedResponse) (bulk : List EncodedResponse) (b : MemoryBudget)
        (next : List Message → List Message → List EncodedResponse → MemoryBudget → Written)
      → select sink transfer send_timeout sent [] (x ∷ bulk) b next
        ≡ next (sent ++ (frame_of x ∷ [])) [] bulk (drop x.reservation b)
  unfolding select
  select_bulk works sent x bulk b next = rw (write_bulk_works works sent x, select) refl

  -- If the sink takes every message in time and no close frame is queued, then the writer, once its
  -- senders are gone, sends every control message in order and then every response in order, ends
  -- without an error, and has dropped the reservations of the responses.
  pub drain_ordered :
      ((s : List Message) (m : Message) (d : Duration) → sink s m d ≡ some (ok tt))
      → (sent control : List Message) (bulk : List EncodedResponse) (b : MemoryBudget)
      → All IsOpen control
      → drain sink transfer send_timeout sent control bulk b
        ≡ (ok tt, sent ++ (control ++ frames bulk), drop_queue bulk b)
  unfolding drain select drop_queue
  drain_ordered works sent (m ∷ control) bulk b (o, rest) =
      (select_control works sent m o control bulk b
        λ s _ _ b'. drain sink transfer send_timeout s control bulk b')
      ∙ (drain_ordered works (sent ++ (m ∷ [])) control bulk b rest
          ∙ ap (λ l. (ok tt, l, drop_queue bulk b))
              (append_assoc sent (m ∷ []) (control ++ frames bulk)))
  drain_ordered works sent [] (x ∷ bulk) b o =
      (select_bulk works sent x bulk b λ s _ _ b'. drain sink transfer send_timeout s [] bulk b')
      ∙ (drain_ordered works (sent ++ (frame_of x ∷ [])) [] bulk (drop x.reservation b) tt
          ∙ ap (λ l. (ok tt, l, drop_queue bulk (drop x.reservation b)))
              (append_assoc sent (frame_of x ∷ []) (frames bulk)))
  drain_ordered works sent [] [] b o = ap (λ l. (ok tt, l, b)) (sym (append-nil sent))

  -- If the sink takes every message in time and a close frame is queued, then the writer, once its
  -- senders are gone, sends the control messages before it in order, then the close frame, and then
  -- nothing more: it ends without an error, and has dropped the reservations of all responses.
  pub drain-close :
      ((s : List Message) (m : Message) (d : Duration) → sink s m d ≡ some (ok tt))
      → (sent control later : List Message) (f : Option CloseFrame) (bulk : List EncodedResponse)
        (b : MemoryBudget)
      → All IsOpen control
      → drain sink transfer send_timeout sent (control ++ (close f ∷ later)) bulk b
        ≡ (ok tt, sent ++ (control ++ (close f ∷ [])), drop_queue bulk b)
  unfolding drain select write_control send_ws
  drain-close works sent [] later f bulk b o = rw (works sent (close f) send_timeout, send_ws) refl
  drain-close works sent (m ∷ control) later f bulk b (o, rest) =
      (select_control works sent m o (control ++ (close f ∷ later)) bulk b
        λ s _ _ b'. drain sink transfer send_timeout s (control ++ (close f ∷ later)) bulk b')
      ∙ (drain-close works (sent ++ (m ∷ [])) control later f bulk b rest
          ∙ ap (λ l. (ok tt, l, drop_queue bulk b))
              (append_assoc sent (m ∷ []) (control ++ (close f ∷ []))))
