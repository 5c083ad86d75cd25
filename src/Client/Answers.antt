-- ===== src/Client/Answers.antt =====
-- What `call` returns is what the library answered.
use ha_truenas_ng.Base.{◌≡◌, refl, ℕ, String, Bool, Option, none, some, List}
use ha_truenas_ng.Result.{Exc, Result, ok, err, connection_error}
use ha_truenas_ng.Action.Returns.{
  Returns, Returns-ok, Returns-err, Returns-handle, Returns-any, Returns-then,
}
use ha_truenas_ng.Value.{Value}
use ha_truenas_ng.Client.{
  Config, State, raw_call, retry, call, external, attribute_of, ensure_connected, connect, close,
}
use ha_truenas_ng.Client.Upstream.{Library}

module _ (L : Library) (Answer : String → Value → Type 0) where
  -- Whatever the library answers to a method is one of the method's answers.
  abbrev pub AnswersAs : Type 0
  AnswersAs =
      (session : L.Session) (method : String) (params : List Value) (job : Bool)
      (timeout : Option ℕ) (w : L.World) (v : Value)
      → (L.call session method params job timeout w).0 ≡ ok v
      → Answer method v

  module _ (answers : AnswersAs) (c : Config) (method : String) (params : List Value) (job : Bool)
      (timeout : Option ℕ) where
    answer_of :
        (m : Result Value × L.World) (s : State L)
        → ((v : Value) → m.0 ≡ ok v → Answer method v)
        → Returns (Answer method) (m.0, record s { world = m.1 })
    answer_of (ok v, w) s h = Returns-ok (Answer method) v _ (h v refl)
    answer_of (err e, w) s h = Returns-err (Answer method) e _

    attribute_of-Answer :
        (client : Option L.Session) (s : State L)
        → Returns
            (Answer method)
            (attribute_of L client (λ session. L.call session method params job timeout) s)
    unfolding external
    attribute_of-Answer none s = Returns-err (Answer method) _ s
    attribute_of-Answer (some session) s =
        answer_of (L.call session method params job timeout s.world) s
          (λ v h. answers session method params job timeout s.world v h)

    raw_call-Answer :
        (s : State L) → Returns (Answer method) (raw_call L method params job timeout s)
    unfolding raw_call
    raw_call-Answer s =
        Returns-handle (Answer method) _ _ (attribute_of-Answer s.client s)
          (λ e t. Returns-err (Answer method) _ t)

    retry-Answer :
        (e : Exc) (s : State L) → Returns (Answer method) (retry L c method params job timeout e s)
    unfolding retry
    retry-Answer (connection_error m) s =
        Returns-then (λ _. Unit) (Answer method) _ _ (Returns-any (close L s))
          λ _ t _.
            Returns-then (λ _. Unit) (Answer method) _ _ (Returns-any (connect L c t))
              λ _ u _. raw_call-Answer u
    retry-Answer e s = Returns-err (Answer method) e s

    pub call-Answer : (s : State L) → Returns (Answer method) (call L c method params job timeout s)
    unfolding call
    call-Answer s =
        Returns-then (λ _. Unit) (Answer method) _ _ (Returns-any (ensure_connected L c s))
          λ _ t _. Returns-handle (Answer method) _ _ (raw_call-Answer t) (λ e u. retry-Answer e u)
