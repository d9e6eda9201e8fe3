-- ===== src/Journey/Recovery/Outcomes.antt =====
-- journey/recovery.go: what a recovery policy makes of a failure, fallback by fallback.
use xk6_otel_gen.Prelude.{
  ◌≡◌, refl, sym, subst, Bool, if◌then◌else◌, ap, ◌∙◌, ◌⊎◌, inl, inr, true, false, Option, none,
  some, List, [], ◌∷◌, ◌++◌, append_assoc, append-nil,
}
use xk6_otel_gen.Prelude.Int.{add_64, ◌+ℤ◌}
use xk6_otel_gen.Topology.Enums.{ExhaustedAction}
use xk6_otel_gen.Topology.Types.{EdgeRef, RecoveryPolicy}
use xk6_otel_gen.Journey.World.{Exec, after, with_events}
use xk6_otel_gen.Journey.Outcome.{Outcome}
use xk6_otel_gen.Journey.Telemetry.{Instant}
use xk6_otel_gen.Journey.Recovery.{exhaust, recover, apply_recovery}

-- The outcome with which the loop goes on after the fallback f gave the failure o.
abbrev pub passed : Outcome → Option EdgeRef → Outcome → Outcome
passed out f o = record out {
  latency = add_64 out.latency o.latency;
  fallback_attempts = out.fallback_attempts ++ f ∷ [];
}

-- The outcome that is returned after the fallback f gave the success o.
abbrev pub taken : Outcome → Option EdgeRef → Outcome → Outcome
taken out f o = record out {
  success = true;
  latency = add_64 out.latency o.latency;
  status_code = o.status_code;
  error_type = "";
  fallback_used = f;
}

exhaust_marked :
    (action : ExhaustedAction) (out : Outcome)
    → ((exhaust action out).primary_failed ≡ out.primary_failed)
      × ((exhaust action out).fallback_attempts ≡ out.fallback_attempts)
unfolding exhaust
exhaust_marked ExhaustedAction.propagate out = (refl, refl)
exhaust_marked ExhaustedAction.return_default out = (refl, refl)
exhaust_marked ExhaustedAction.succeed_silently out = (refl, refl)
exhaust_marked (ExhaustedAction.other k) out = (refl, refl)

module _ {W E : Type 0} where
  -- What a computation returned before its events were joined to others.
  with_events-result :
      {B : Type 0} (es : List E) (x : Option (B × (List E × W))) (r : B × (List E × W))
      → with_events es x ≡ some r
      → (r' : B × (List E × W)) × ((x ≡ some r') × (r'.0 ≡ r.0))
  with_events-result es none r e = absurd cc
  with_events-result es (some (b, (es', w))) r e = ((b, (es', w)), (refl, cc e))

  after-result :
      {A B : Type 0} (f : A → Exec W E B) (x : Option (A × (List E × W))) (r : B × (List E × W))
      → after x f ≡ some r
      → (a : A) × ((es : List E) × ((w : W) × ((x ≡ some (a, (es, w)))
              × ((r' : B × (List E × W)) × ((f a w ≡ some r') × (r'.0 ≡ r.0))))))
  after-result f none r e = absurd cc
  after-result f (some (a, (es, w))) r e = (a, (es, (w, (refl, with_events-result es (f a w) r e))))

  chosen :
      {A : Type 0} (b : Bool) (m m' : Exec W E A) (w : W) (r : A × (List E × W))
      → (if b then m else m') w ≡ some r
      → ((b ≡ true) × (m w ≡ some r)) ⊎ ((b ≡ false) × (m' w ≡ some r))
  chosen true m m' w r e = inl (refl, e)
  chosen false m m' w r e = inr (refl, e)

  module _ (fallback : Option EdgeRef → Instant → Exec W E Outcome) (start : Instant) where
    -- Run one after another from a world, each at the instant of the latency so far, all the fallbacks
    -- fail, which leads to an outcome and a world.
    pub data Failing : List (Option EdgeRef) → Outcome → W → Outcome → W → Type 0 where
      none_left : {out : Outcome} {w : W} → Failing [] out w out w
      failed :
          {f : Option EdgeRef} {fs : List (Option EdgeRef)} {out out' : Outcome} {w w' : W}
          (o : Outcome) (es : List E) (w₁ : W)
          → fallback f (start +ℤ out.latency) w ≡ some (o, (es, w₁))
          → o.success ≡ false
          → Failing fs (passed out f o) w₁ out' w'
          → Failing (f ∷ fs) out w out' w'

    -- The fallbacks before f fail and f gives a success, which is returned.
    abbrev pub RecoveredBy : List (Option EdgeRef) → Outcome → W → Outcome → Type 0
    RecoveredBy fs out w result =
        (before : List (Option EdgeRef)) × ((f : Option EdgeRef) × ((rest : List (Option EdgeRef))
            × ((out' : Outcome) × ((w' : W) × ((o : Outcome) × ((es : List E) × ((w₂ : W) × ((fs
                            ≡ before ++ f ∷ rest)
                          × (Failing before out w out' w'
                              × ((fallback f (start +ℤ out'.latency) w' ≡ some (o, (es, w₂)))
                                  × ((o.success ≡ true)
                                      × ((result ≡ taken out' f o)
                                          × (result.fallback_attempts
                                              ≡ out.fallback_attempts ++ before)))))))))))))

    -- All the fallbacks fail, and the action is taken on the failure.
    abbrev pub Exhausted : List (Option EdgeRef) → ExhaustedAction → Outcome → W → Outcome → Type 0
    Exhausted fs action out w result =
        (out' : Outcome) × ((w' : W) × (Failing fs out w out' w'
            × ((result ≡ exhaust action out')
                × (result.fallback_attempts ≡ out.fallback_attempts ++ fs))))

    abbrev Settled : List (Option EdgeRef) → ExhaustedAction → Outcome → W → Outcome → Type 0
    Settled fs action out w result = RecoveredBy fs out w result ⊎ Exhausted fs action out w result

    Failing-marked :
        {fs : List (Option EdgeRef)} {out out' : Outcome} {w w' : W}
        → Failing fs out w out' w'
        → out'.primary_failed ≡ out.primary_failed
    Failing-marked Failing.none_left = refl
    Failing-marked (Failing.failed o es w₁ ran bad run) = Failing-marked run

    Settled-marked :
        (fs : List (Option EdgeRef)) (action : ExhaustedAction) (out result : Outcome) (w : W)
        → Settled fs action out w result
        → result.primary_failed ≡ out.primary_failed
    Settled-marked fs action out result w
          (inl (
            before,
            (
              f,
              (
                rest,
                (out', (w', (o, (es, (w₂, (split, (run, (ran, (good, (same, attempts)))))))))),
              ),
            ),
          )) =
        ap (λ x. x.primary_failed) same ∙ Failing-marked run
    Settled-marked fs action out result w (inr (out', (w', (run, (same, attempts))))) =
        ap (λ x. x.primary_failed) same ∙ (exhaust_marked action out').0 ∙ Failing-marked run

    after_failure :
        (f : Option EdgeRef) (fs : List (Option EdgeRef)) (action : ExhaustedAction)
        (out result o : Outcome) (es : List E) (w w₁ : W)
        → fallback f (start +ℤ out.latency) w ≡ some (o, (es, w₁))
        → o.success ≡ false
        → Settled fs action (passed out f o) w₁ result
        → Settled (f ∷ fs) action out w result
    after_failure f fs action out result o es w w₁ ran bad
          (inl (
            before,
            (
              g,
              (
                rest,
                (out', (w', (p, (es', (w₂, (split, (run, (ran', (good, (same, attempts)))))))))),
              ),
            ),
          )) =
        inl (
          f ∷ before,
          (
            g,
            (
              rest,
              (
                out',
                (
                  w',
                  (
                    p,
                    (
                      es',
                      (
                        w₂,
                        (
                          ap (λ l. f ∷ l) split,
                          (
                            Failing.failed o es w₁ ran bad run,
                            (
                              ran',
                              (
                                good,
                                (
                                  same,
                                  attempts ∙ append_assoc out.fallback_attempts (f ∷ []) before,
                                ),
                              ),
                            ),
                          ),
                        ),
                      ),
                    ),
                  ),
                ),
              ),
            ),
          ),
        )
    after_failure f fs action out result o es w w₁ ran bad
          (inr (out', (w', (run, (same, attempts))))) =
        inr (
          out',
          (
            w',
            (
              Failing.failed o es w₁ ran bad run,
              (same, attempts ∙ append_assoc out.fallback_attempts (f ∷ []) fs),
            ),
          ),
        )

    recover_settles :
        (fs : List (Option EdgeRef)) (action : ExhaustedAction) (out : Outcome) (w : W)
        (r : Outcome × (List E × W))
        → recover fallback start fs action out w ≡ some r
        → Settled fs action out w (r.0)
    unfolding recover
    recover_settles [] action out w r e =
        let same : exhaust action out ≡ r.0 = cc e in
        inr (
          out,
          (
            w,
            (
              Failing.none_left,
              (
                sym same,
                ap (λ o. o.fallback_attempts) (sym same)
                    ∙ (exhaust_marked action out).1
                    ∙ sym (append-nil out.fallback_attempts),
              ),
            ),
          ),
        )
    recover_settles (f ∷ fs) action out w r e =
        let (o, (es, (w₁, (ran, (r', (went, same)))))) = after-result _ (fallback f _ w) r e in
        elim (chosen o.success _ _ w₁ r' went) [
          | inl (good, returned) ↦
              let result : r.0 ≡ taken out f o = sym same ∙ cc returned in
              inl (
                [],
                (
                  f,
                  (
                    fs,
                    (
                      out,
                      (
                        w,
                        (
                          o,
                          (
                            es,
                            (
                              w₁,
                              (
                                refl,
                                (
                                  Failing.none_left,
                                  (
                                    ran,
                                    (
                                      good,
                                      (
                                        result,
                                        ap (λ x. x.fallback_attempts) result
                                            ∙ sym (append-nil out.fallback_attempts),
                                      ),
                                    ),
                                  ),
                                ),
                              ),
                            ),
                          ),
                        ),
                      ),
                    ),
                  ),
                ),
              )
          | inr (bad, went_on) ↦ after_failure f fs action out (r.0) o es w w₁ ran bad (
              subst (Settled fs action (passed out f o) w₁) same
                (recover_settles fs action (passed out f o) w₁ r' went_on))
        ]

    -- Whatever an applied recovery policy returns, in any world, is marked as a failure of the primary
    -- edge, and comes about in one of two ways. Either the fallbacks before some fallback of the policy
    -- fail one after another, that one succeeds, and its status is returned as a success without error
    -- type, the ones before it being the failed attempts; or all the fallbacks fail, and what the
    -- policy's action makes of the failure is returned, all of them being the failed attempts. In both,
    -- each fallback runs at the instant, and in the world, that the ones before it lead to, and the
    -- latencies add up.
    pub apply_recovery_lem :
        (policy : RecoveryPolicy) (primary : Outcome) (w : W) (r : Outcome × (List E × W))
        → apply_recovery fallback start policy primary w ≡ some r
        → ((r.0).primary_failed ≡ true)
          × (RecoveredBy policy.fallback (record primary { primary_failed = true }) w (r.0)
              ⊎ Exhausted policy.fallback policy.on_exhausted
                  (record primary { primary_failed = true })
                  w
                  (r.0))
    unfolding apply_recovery
    apply_recovery_lem policy primary w r e =
        let settled =
          recover_settles policy.fallback policy.on_exhausted
            (record primary { primary_failed = true }) w r e in
        (
          Settled-marked policy.fallback policy.on_exhausted
              (record primary { primary_failed = true }) (r.0) w settled,
          settled,
        )
