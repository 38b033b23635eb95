-- ===== src/Provider/Reliable/Fallbacks.antt =====
-- When the fallbacks are asked, and what their answers change.
use embedded_agent.Base.{◌≡◌, ◌≢◌, inl, inr, List, [], ◌∷◌, ◌++◌, arith, true}
use embedded_agent.Core.Error.{Error, err, is_ok, Result-cases}
use embedded_agent.Provider.Interface.{Provider, Request}
use embedded_agent.Provider.ErrorClassifier.{ErrorClass, classify_error}
use embedded_agent.Provider.Reliable.{Config, try_with_retries, try_fallbacks, chat}

module _ {J S : Type 0} (req : Request J) where
  try_fallbacks-error :
      (fs : List (Provider J S)) (e : Error) (s : S) (e' : Error)
      → (try_fallbacks fs (err e) req s).0 ≡ err e'
      → e' ≡ e
  unfolding try_fallbacks
  try_fallbacks-error [] e s e' h = cc
  try_fallbacks-error (f ∷ fs) e s e' h =
      ground (arith, try_fallbacks-error fs e (f.chat req s).1 e')

  try_fallbacks-answers :
      (before after : List (Provider J S)) (f : Provider J S) (e : Error) (s : S)
      → ((t : S) → is_ok (f.chat req t).0 ≡ true)
      → is_ok (try_fallbacks (before ++ f ∷ after) (err e) req s).0 ≡ true
  unfolding try_fallbacks
  try_fallbacks-answers [] after f e s h = ground (arith, h s)
  try_fallbacks-answers (g ∷ before) after f e s h =
      ground (arith, try_fallbacks-answers before after f e (g.chat req s).1 h)

module _ {J S : Type 0} (c : Config J S) (primary : Provider J S) (req : Request J) (s : S) where
  -- The fallbacks never change an error: an error that `chat` returns is the one that the primary
  -- provider's last try gave, and a success of the primary provider is returned as it is.
  pub chat-error :
      (e : Error) → (chat c primary req s).0 ≡ err e → (try_with_retries c primary req s).0 ≡ err e
  unfolding chat
  chat-error e h = elim (Result-cases (try_with_retries c primary req s).0) [
    | inl (a, good) ↦ ground arith
    | inr (first, failed) ↦
        ground
          (arith, try_fallbacks-error req c.fallbacks first (try_with_retries c primary req s).1 e)
  ]

  -- A provider that always answers makes `chat` succeed from any place among the fallbacks, if the
  -- primary provider's error is one that is not retried or a rate limit.
  pub chat_falls_back :
      (before after : List (Provider J S)) (f : Provider J S) (e : Error)
      → c.fallbacks ≡ before ++ f ∷ after
      → ((t : S) → is_ok (f.chat req t).0 ≡ true)
      → (try_with_retries c primary req s).0 ≡ err e
      → classify_error e ≢ ErrorClass.retryable
      → is_ok (chat c primary req s).0 ≡ true
  unfolding chat
  chat_falls_back before after f e at h failed k =
      ground
        (arith, try_fallbacks-answers req before after f e (try_with_retries c primary req s).1 h)

  -- Where the retries end in an error of the retryable class, no fallback is asked: `chat` returns
  -- that error in the state that the retries left.
  pub chat_keeps_retryable :
      (e : Error)
      → (try_with_retries c primary req s).0 ≡ err e
      → classify_error e ≡ ErrorClass.retryable
      → chat c primary req s ≡ (err e, (try_with_retries c primary req s).1)
  unfolding chat
  chat_keeps_retryable e failed k = ground arith
