-- ===== src/Webhook/Worker/Batches.antt =====
-- What becomes of the events of a webhook (`run` and `flush` of src/webhook/mod.rs).
use mathlib.Core.List.{append_assoc, append-nil}
use rushsocket.Base.{
  Str, Bool, true, false, Option, none, ℕ, List, [], ◌∷◌, ◌++◌, ◌≡◌, ◌≢◌, refl, sym, ap, ◌∙◌,
  Option-cases, inl, inr, if◌then◌else◌,
}
use rushsocket.Externals.{Externals}
use rushsocket.Webhook.{WebhookEvent}
use rushsocket.Webhook.Worker.{
  WebhookWorker, Post, Signal, event, interval, closed, try_from, flush, flush_batch, run,
}

-- The events in the requests, in order.
abbrev pub sent : List Post → List WebhookEvent
sent [] = []
sent (p ∷ posts) = p.events ++ sent posts

-- The events that arrive before the queue is closed.
abbrev pub arrived : List Signal → List WebhookEvent
arrived [] = []
arrived (event e ∷ signals) = e ∷ arrived signals
arrived (interval time_ms answers ∷ signals) = arrived signals
arrived (closed time_ms answers ∷ signals) = []

sent-append : (ps qs : List Post) → sent (ps ++ qs) ≡ sent ps ++ sent qs
sent-append [] qs = refl
sent-append (p ∷ ps) qs = rw (sent-append ps qs) (sym (append_assoc p.events (sent ps) (sent qs)))

module _ (ext : Externals) (serialize : ℕ → List WebhookEvent → Option Str)
    (worker : WebhookWorker) where
  -- Payloads can be serialized.
  abbrev pub Serializes : Type 0
  Serializes = (time_ms : ℕ) (events : List WebhookEvent) → serialize time_ms events ≢ none

  sent-flush_batch :
      (time_ms : ℕ) (answers : ℕ → Bool) (batch : List WebhookEvent) (posts : List Post)
      → Serializes
      → sent (flush_batch ext serialize worker time_ms answers batch posts) ≡ sent posts ++ batch
  unfolding flush_batch flush
  sent-flush_batch time_ms answers [] posts ok = sym (append-nil (sent posts))
  sent-flush_batch time_ms answers (e ∷ batch) posts ok =
      elim (Option-cases (serialize time_ms (e ∷ batch))) [
        | inl none_of ↦ absurd (ok time_ms (e ∷ batch) none_of)
        | inr (body, f) ↦
            rw (f, flush_batch, flush)
              (sent-append posts _ ∙ ap (λ l. sent posts ++ l) (append-nil (e ∷ batch)))
      ]

  -- If payloads can be serialized: whatever the server answers and whenever the intervals end, the
  -- events in the requests, and behind them those that still wait, are the events that arrived, each
  -- once and in the order of their arrival.
  pub run-sent :
      (signals : List Signal) (batch : List WebhookEvent) (posts : List Post)
      → Serializes
      → (let r = run ext serialize worker signals batch posts in sent r.1 ++ r.0)
        ≡ sent posts ++ (batch ++ arrived signals)
  unfolding run
  run-sent [] batch posts ok = ap (λ l. sent posts ++ l) (sym (append-nil batch))
  run-sent (event e ∷ signals) batch posts ok =
      run-sent signals (batch ++ e ∷ []) posts ok
      ∙ ap (λ l. sent posts ++ l) (append_assoc batch (e ∷ []) (arrived signals))
  run-sent (interval time_ms answers ∷ signals) batch posts ok =
      run-sent signals [] (flush_batch ext serialize worker time_ms answers batch posts) ok
      ∙ ap (λ l. l ++ arrived signals) (sent-flush_batch time_ms answers batch posts ok)
      ∙ append_assoc (sent posts) batch (arrived signals)
  run-sent (closed time_ms answers ∷ signals) batch posts ok =
      append-nil (sent (flush_batch ext serialize worker time_ms answers batch posts))
      ∙ sent-flush_batch time_ms answers batch posts ok
      ∙ ap (λ l. sent posts ++ l) (sym (append-nil batch))

-- There are at most three attempts, with 2 and 4 seconds between them, and none after a success.
three_attempts :
    (answers : ℕ → Bool)
    → try_from 3 0 0 answers ≡ (
        if answers 0
        then (1, true, 0)
        else if answers 1
        then (2, true, 2)
        else if answers 2
        then (3, true, 6)
        else (3, false, 6))
unfolding try_from
three_attempts answers = refl
