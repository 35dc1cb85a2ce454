-- ===== src/Resilient/Served.antt =====
-- What a client receives of a session: `_build_stream_session` of
-- app/core/providers/resilient_provider.py.
use mathlib.Core.Path.{subst}
use llm_chat_platform.Base.{
  ◌≡◌, refl, ap, sym, ◌∙◌, ℕ, Bool, true, false, not, ◌&&◌, Bool-cases, Option, none, some, [],
  ◌++◌, Text, if◌then◌else◌, ◌⊎◌, inl, inr, arith,
}
use llm_chat_platform.Provider.{
  Failure, Outcome, ProviderStreamSession, ProviderPort, returned, raised,
}
use llm_chat_platform.Resilient.{
  ResilientStreamState, initial_state, put_chunks, outcome_of, consume_session, settle,
  second_attempt, conclude, given_of, put_end, build_stream_session,
}
use llm_chat_platform.Resilient.Generate.{needs_fallback}
use llm_chat_platform.Resilient.Driver.{
  items_of, put_chunks-queue, put_chunks-kept, put_chunks-none, put_chunks-empty, settle-chunks,
  settle-result, conclude-kept, conclude-again, needs_fallback-raised, stream-cases,
}

-- How a session of the primary reaches the client: whole, or replaced by one of the fallback, or,
-- when there is no other, as its failure. The first is the case once a chunk is out.
pub data IsServed (fallback : ProviderPort) (session given : ProviderStreamSession) : Type 0 where
  whole :
      given.chunks ≡ session.chunks
      → given.final_result ≡ outcome_of session
      → (session.chunks ≡ [] → needs_fallback (outcome_of session) ≡ false)
      → IsServed fallback session given
  replaced :
      session.chunks ≡ []
      → needs_fallback (outcome_of session) ≡ true
      → (second : ProviderStreamSession) → fallback.stream ≡ some (returned (some second))
      → given.chunks ≡ second.chunks
      → given.final_result ≡ outcome_of second
      → IsServed fallback session given
  unreplaced :
      session.chunks ≡ []
      → needs_fallback (outcome_of session) ≡ true
      → (fallback.stream ≡ none) ⊎ (fallback.stream ≡ some (returned none))
      → given.chunks ≡ []
      → given.final_result ≡ outcome_of session
      → IsServed fallback session given
  failed_twice :
      session.chunks ≡ []
      → needs_fallback (outcome_of session) ≡ true
      → (f : Failure) → fallback.stream ≡ some (raised f)
      → given.chunks ≡ []
      → given.final_result ≡ raised f
      → IsServed fallback session given

-- The second attempt, with no chunk out.
module _ (fallback : ProviderPort) (session : ProviderStreamSession) (name : Text)
    (s : ResilientStreamState) (queued : s.queue ≡ []) (sound : s.error ≡ none)
    (unfailed : s.failure ≡ none) (e : Failure) (failed : outcome_of session ≡ raised e)
    (empty : session.chunks ≡ []) (needed : needs_fallback (outcome_of session) ≡ true) where
  abbrev Given : Option (Outcome (Option ProviderStreamSession)) → Type 0
  Given o =
      IsServed fallback session (given_of name (put_end (second_attempt fallback.label e s o)))

  serve_again :
      IsServed fallback session
        (given_of name (put_end (second_attempt fallback.label e s fallback.stream)))
  unfolding consume_session
  serve_again = elim (stream-cases fallback.stream) [
    | inl (inl eq) ↦
        subst Given (sym eq) (unreplaced empty needed (inl eq) (rw queued refl) (sym failed))
    | inl (inr eq) ↦
        subst Given (sym eq) (unreplaced empty needed (inr eq) (rw queued refl) (sym failed))
    | inr (inl (f, eq)) ↦
        subst Given (sym eq) (failed_twice empty needed f eq (rw queued refl) refl)
    | inr (inr (second, eq)) ↦
        let t = put_chunks s second.chunks in
        let kept = put_chunks-kept s second.chunks in
        let out : t.queue ≡ items_of second.chunks =
          put_chunks-queue s second.chunks ∙ ap (λ q. q ++ items_of second.chunks) queued in
        let none_raised : t.error ≡ none = kept.0 ∙ sound in
        let none_noted : t.failure ≡ none = kept.3 ∙ unfailed in
        subst Given (sym eq) (
          replaced empty needed second eq
            (settle-chunks name fallback.label t second.chunks out none_raised none_noted
              (outcome_of second))
            (settle-result name fallback.label t second.chunks out none_raised none_noted
              (outcome_of second)))
  ]

module _ (primary fallback : ProviderPort) (session : ProviderStreamSession) where
  -- The state after the chunks of a session that starts on the primary or on the fallback.
  abbrev consumed : (used : Bool) (attempts : ℕ) → ResilientStreamState
  consumed used attempts = put_chunks (initial_state used attempts) session.chunks

  module _ (used : Bool) (attempts : ℕ) where
    consumed-kept :
        (name default : Text)
        → ((given_of name
              (put_end (settle default (consumed used attempts, outcome_of session)))).chunks
            ≡ session.chunks)
          × ((given_of name (
                put_end (settle default (consumed used attempts, outcome_of session)))).final_result
              ≡ outcome_of session)
    consumed-kept name default =
        let kept = put_chunks-kept (initial_state used attempts) session.chunks in
        let queued = put_chunks-queue (initial_state used attempts) session.chunks in
        (
          settle-chunks name default (consumed used attempts) session.chunks queued kept.0 kept.3
              (outcome_of session),
          settle-result name default (consumed used attempts) session.chunks queued kept.0 kept.3
              (outcome_of session),
        )

  -- A session of the fallback is passed on whole.
  pub build-used :
      let given = (build_stream_session primary fallback session (initial_state true 2)).0 in
      (given.chunks ≡ session.chunks) × (given.final_result ≡ outcome_of session)
  unfolding build_stream_session
  build-used =
      let s = consumed true 2 in
      let kept = put_chunks-kept (initial_state true 2) session.chunks in
      let eq = conclude-kept primary fallback s (outcome_of session) (ground (arith, kept.1)) in
      subst
        (λ t.
          ((given_of primary.label t).chunks ≡ session.chunks)
          × ((given_of primary.label t).final_result ≡ outcome_of session))
        (sym eq) (consumed-kept true 2 primary.label _)

  pub build-IsServed :
      IsServed fallback session
        (build_stream_session primary fallback session (initial_state false 1)).0
  unfolding build_stream_session
  build-IsServed =
      let s = consumed false 1 in
      let o = outcome_of session in
      let kept = put_chunks-kept (initial_state false 1) session.chunks in
      elim (Bool-cases (not s.first_chunk_emitted && (not s.fallback_used && needs_fallback o))) [
        | inr h ↦
            let (chunks, final) =
              consumed-kept false 1 primary.label
                (if s.fallback_used then fallback.label else primary.label) in
            let last : session.chunks ≡ [] → needs_fallback o ≡ false = λ empty.
              let unsent = put_chunks-empty (initial_state false 1) session.chunks empty in
              ground (arith, h, unsent, kept.1) in
            subst (λ t. IsServed fallback session (given_of primary.label t))
              (sym (conclude-kept primary fallback s o h)) (whole chunks final last)
        | inl h ↦
            let empty : session.chunks ≡ [] =
              put_chunks-none (initial_state false 1) session.chunks (ground (arith, h)) in
            let needed : needs_fallback o ≡ true = ground (arith, h) in
            let nothing_out : s.queue ≡ [] =
              put_chunks-queue (initial_state false 1) session.chunks ∙ ap items_of empty in
            let (e, eq, retry) = needs_fallback-raised o needed in
            subst
              (λ x.
                IsServed fallback session
                  (given_of primary.label (conclude primary fallback s x).0))
              (sym eq)
              (subst (λ t. IsServed fallback session (given_of primary.label t))
                (sym (conclude-again primary fallback s e (ground (arith, h, kept.1))))
                (serve_again fallback session primary.label _ nothing_out kept.0 kept.3 e eq empty
                  needed))
      ]
