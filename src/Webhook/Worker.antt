-- ===== src/Webhook/Worker.antt =====
-- The worker of an app's webhook (`WebhookWorker` of src/webhook/mod.rs). What the queue, the interval
-- and the receiving server do is a list of signals. `serialize` is serde_json on a payload and its time.
pub mod Batches
use rushsocket.Base.{
  Str, Bool, true, false, Option, none, some, ℕ, zero, suc, ◌+◌, ◌^◌, List, [], ◌∷◌, ◌++◌, is_empty,
  ltb, if◌then◌else◌,
}
use rushsocket.Externals.{Externals}
use rushsocket.Webhook.{WebhookEvent}

pub record WebhookWorker : Type 0 where
  pub url : Str
  pub key : Str
  pub secret : Str

-- A request that was made, with the events in its body, how often it was made, whether it was
-- answered with success at last, and the seconds that were waited between the attempts.
pub record Post : Type 0 where
  pub url : Str
  pub key : Str
  pub signature : Str
  pub body : Str
  pub events : List WebhookEvent
  pub attempts : ℕ
  pub delivered : Bool
  pub waited : ℕ

-- An event of the queue; the end of the interval, or of the queue, with the time and the server's
-- answers to the attempts.
pub data Signal : Type 0 where
  event : WebhookEvent → Signal
  interval closed : ℕ → (ℕ → Bool) → Signal

-- The loop over the attempts, with how many are left: the attempts made, the success and the wait.
unfoldable pub try_from : ℕ → ℕ → ℕ → (ℕ → Bool) → ℕ × Bool × ℕ
try_from zero attempt waited answers = (attempt, false, waited)
try_from (suc left) attempt waited answers =
    let now = if ltb 0 attempt then waited + 2 ^ attempt else waited in
    let rest = try_from left (attempt + 1) now answers in
    if answers attempt then (attempt + 1, true, now) else rest

module _ (ext : Externals) (serialize : ℕ → List WebhookEvent → Option Str)
    (worker : WebhookWorker) where
  unfoldable pub flush : ℕ → (ℕ → Bool) → List WebhookEvent → List Post → List Post
  flush time_ms answers events posts = elim (serialize time_ms events) [
    | none ↦ posts
    | some body ↦
        let r = try_from 3 0 0 answers in
        posts
        ++ record {
          url = worker.url;
          key = worker.key;
          signature = ext.hex_hmac worker.secret body;
          body = body;
          events = events;
          attempts = r.0;
          delivered = r.1;
          waited = r.2;
        }
          ∷ []
  ]

  unfoldable pub flush_batch : ℕ → (ℕ → Bool) → List WebhookEvent → List Post → List Post
  flush_batch time_ms answers batch posts =
      if is_empty batch then posts else flush time_ms answers batch posts

  -- The batch that is not sent yet, and the requests that were made.
  unfoldable pub run : List Signal → List WebhookEvent → List Post → List WebhookEvent × List Post
  run [] batch posts = (batch, posts)
  run (event e ∷ signals) batch posts = run signals (batch ++ e ∷ []) posts
  run (interval time_ms answers ∷ signals) batch posts =
      run signals [] (flush_batch time_ms answers batch posts)
  run (closed time_ms answers ∷ signals) batch posts = ([], flush_batch time_ms answers batch posts)
